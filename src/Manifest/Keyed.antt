-- ===== src/Manifest/Keyed.antt =====
-- A Go map whose entries carry their key, as the list of its entries in one of their orders.
use lithicdb.Common.{
  ◌≡◌, refl, ap, sym, ◌∙◌, Bool, true, false, List, [], ◌∷◌, ◌++◌, append-nil, append_assoc,
  if◌then◌else◌, Bool-cases, inl, inr,
}
use lithicdb.Common.Bytes.{All}
use mathlib.Core.Path.{subst}

module _ {A K : Type 0} (key : A → K) (eq : K → K → Bool) where
  -- m[key(x)] = x.
  unfoldable pub put : A → List A → List A
  put x [] = x ∷ []
  put x (y ∷ ys) = if eq (key y) (key x) then x ∷ ys else y ∷ put x ys

  -- delete(m, k).
  unfoldable pub delete : K → List A → List A
  delete k [] = []
  delete k (y ∷ ys) = if eq (key y) k then ys else y ∷ delete k ys

  unfoldable pub put_all : List A → List A → List A
  put_all [] ys = ys
  put_all (x ∷ xs) ys = put_all xs (put x ys)

  abbrev pub Apart : K → List A → Type 0
  Apart k xs = All (λ x. eq k (key x) ≡ false) xs

  abbrev pub Distinct : List A → Type 0
  Distinct [] = Unit
  Distinct (x ∷ xs) = Apart (key x) xs × Distinct xs

  module _ (eq_reflects : (a b : K) → eq a b ≡ true → a ≡ b) where
    put-Apart :
        (k : K) (x : A) (ys : List A) → eq k (key x) ≡ false → Apart k ys → Apart k (put x ys)
    unfolding put
    put-Apart k x [] hx h = (hx, tt)
    put-Apart k x (y ∷ ys) hx (hy, hs) = elim (Bool-cases (eq (key y) (key x))) [
      | inl e ↦ rw e (hx, hs)
      | inr e ↦ rw e (hy, put-Apart k x ys hx hs)
    ]

    pub put-Distinct : (x : A) (ys : List A) → Distinct ys → Distinct (put x ys)
    unfolding put
    put-Distinct x [] h = (tt, tt)
    put-Distinct x (y ∷ ys) (hy, hs) = elim (Bool-cases (eq (key y) (key x))) [
      | inl e ↦ rw e (subst (λ k. Apart k ys) (eq_reflects (key y) (key x) e) hy, hs)
      | inr e ↦ rw e (put-Apart (key y) x ys e hy, put-Distinct x ys hs)
    ]

    pub put_all-Distinct : (xs ys : List A) → Distinct ys → Distinct (put_all xs ys)
    unfolding put_all
    put_all-Distinct [] ys h = h
    put_all-Distinct (x ∷ xs) ys h = put_all-Distinct xs (put x ys) (put-Distinct x ys h)

  delete-Apart : (k k' : K) (ys : List A) → Apart k ys → Apart k (delete k' ys)
  unfolding delete
  delete-Apart k k' [] h = tt
  delete-Apart k k' (y ∷ ys) (hy, hs) = elim (Bool-cases (eq (key y) k')) [
    | inl e ↦ rw e hs
    | inr e ↦ rw e (hy, delete-Apart k k' ys hs)
  ]

  pub delete-Distinct : (k : K) (ys : List A) → Distinct ys → Distinct (delete k ys)
  unfolding delete
  delete-Distinct k [] h = tt
  delete-Distinct k (y ∷ ys) (hy, hs) = elim (Bool-cases (eq (key y) k)) [
    | inl e ↦ rw e hs
    | inr e ↦ rw e (delete-Apart (key y) k ys hy, delete-Distinct k ys hs)
  ]

  put_behind : (x : A) (ys xs : List A) → Distinct (ys ++ (x ∷ xs)) → put x ys ≡ ys ++ (x ∷ [])
  unfolding put
  put_behind x [] xs h = refl
  put_behind x (y ∷ ys) xs (hy, hs) =
      rw (apart_of y ys hy) (ap (λ zs. y ∷ zs) (put_behind x ys xs hs))
    where
      apart_of : (y : A) (zs : List A) → Apart (key y) (zs ++ (x ∷ xs)) → eq (key y) (key x) ≡ false
      apart_of y [] (h, hs) = h
      apart_of y (z ∷ zs) (h, hs) = apart_of y zs hs

  put_all_behind : (xs ys : List A) → Distinct (ys ++ xs) → put_all xs ys ≡ ys ++ xs
  unfolding put_all
  put_all_behind [] ys h = sym (append-nil ys)
  put_all_behind (x ∷ xs) ys h =
      let e : put x ys ≡ ys ++ (x ∷ []) = put_behind x ys xs h in
      let a : (ys ++ (x ∷ [])) ++ xs ≡ ys ++ (x ∷ xs) = append_assoc ys (x ∷ []) xs in
      ap (put_all xs) e ∙ put_all_behind xs (ys ++ (x ∷ [])) (subst Distinct (sym a) h) ∙ a

  -- A map with distinct keys, copied entry by entry into an empty one, is the same.
  pub put_all_lem : (xs : List A) → Distinct xs → put_all xs [] ≡ xs
  put_all_lem xs h = put_all_behind xs [] h
