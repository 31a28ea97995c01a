-- ===== src/Common/Names.antt =====
-- Names (byte strings) and lists of them, the keys of a Go map or set.
use mathlib.Core.Path.{subst}
use lithicdb.Common.{
  sym, ℕ, suc, ◌≡◌, refl, ap, ◌∙◌, Bool, true, false, not, Bool-cases, inl, inr, List, [], ◌∷◌,
  ◌++◌, arith, length, map, if◌then◌else◌, ◌||◌, ◌&&◌,
}
use lithicdb.Common.Bytes.{
  Bytes, All, bytes_eq, bytes_eq_iff, compare_bytes_refl, compare_bytes-flip,
}

unfoldable pub mem : Bytes → List Bytes → Bool
mem b [] = false
mem b (n ∷ ns) = bytes_eq b n || mem b ns

-- The elements that pass the test, in order.
unfoldable pub keep {ℓ} : {A : Type ℓ} → (A → Bool) → List A → List A
keep p [] = []
keep p (x ∷ xs) = let rest = keep p xs in if p x then x ∷ rest else rest

-- Each name once, where it first stands, and none of `seen`.
unfoldable pub distinct : List Bytes → List Bytes → List Bytes
distinct seen [] = []
distinct seen (n ∷ ns) =
    let again = distinct seen ns in
    let fresh = distinct (n ∷ seen) ns in if mem n seen then again else n ∷ fresh

-- No name stands twice.
abbrev pub IsDistinct : List Bytes → Type 0
IsDistinct [] = Unit
IsDistinct (n ∷ ns) = (mem n ns ≡ false) × IsDistinct ns

pub eq_of_bytes_eq : (a b : Bytes) → bytes_eq a b ≡ true → a ≡ b
eq_of_bytes_eq a b h = (bytes_eq_iff a b).0 h

pub mem_head : (n : Bytes) (ns : List Bytes) → mem n (n ∷ ns) ≡ true
unfolding mem
mem_head n ns = rw (compare_bytes_refl n) refl

pub mem-distinct :
    (x : Bytes) (ns seen : List Bytes) → mem x (distinct seen ns) ≡ (mem x ns && not (mem x seen))
unfolding distinct mem
mem-distinct x [] seen = refl
mem-distinct x (n ∷ ns) seen =
    ground (arith, mem-distinct x ns seen, mem-distinct x ns (n ∷ seen), same_mem)
  where
    same_mem : bytes_eq x n ≡ true → mem x seen ≡ mem n seen
    same_mem e = ap (λ (y : Bytes). mem y seen) (eq_of_bytes_eq x n e)

pub distinct-IsDistinct : (ns seen : List Bytes) → IsDistinct (distinct seen ns)
unfolding distinct
distinct-IsDistinct [] seen = tt
distinct-IsDistinct (n ∷ ns) seen = elim (Bool-cases (mem n seen)) [
  | inl h ↦ rw h (distinct-IsDistinct ns seen)
  | inr h ↦
      let unseen : mem n (distinct (n ∷ seen) ns) ≡ false =
        mem-distinct n ns (n ∷ seen) ∙ rw (mem_head n seen) (ground arith) in
      rw h ((unseen, distinct-IsDistinct ns (n ∷ seen)))
]

abbrev pub without : Bytes → List Bytes → List Bytes
without x ns = keep (λ (n : Bytes). not (bytes_eq n x)) ns

pub mem-without :
    (z x : Bytes) (ns : List Bytes) → mem z (without x ns) ≡ (mem z ns && not (bytes_eq z x))
unfolding keep mem
mem-without z x [] = refl
mem-without z x (n ∷ ns) =
    ground (arith, mem-without z x ns, eq_of_bytes_eq n x, eq_of_bytes_eq z n)

pub keep-append {ℓ} :
    {A : Type ℓ} (p : A → Bool) (xs ys : List A) → keep p (xs ++ ys) ≡ keep p xs ++ keep p ys
unfolding keep
keep-append p [] ys = refl
keep-append p (x ∷ xs) ys = elim (Bool-cases (p x)) [
  | inl h ↦ rw h (ap (λ l. x ∷ l) (keep-append p xs ys))
  | inr h ↦ rw h (keep-append p xs ys)
]

pub keep_all {ℓ} :
    {A : Type ℓ} (p : A → Bool) (xs : List A) → All (λ x. p x ≡ true) xs → keep p xs ≡ xs
unfolding keep
keep_all p [] a = refl
keep_all p (x ∷ xs) a = rw a.0 (ap (λ l. x ∷ l) (keep_all p xs a.1))

pub keep_nothing {ℓ} :
    {A : Type ℓ} (p : A → Bool) (xs : List A) → All (λ x. p x ≡ false) xs → keep p xs ≡ []
unfolding keep
keep_nothing p [] a = refl
keep_nothing p (x ∷ xs) a = rw a.0 (keep_nothing p xs a.1)

pub keep_swap {ℓ} :
    {A : Type ℓ} (p q : A → Bool) (xs : List A) → keep p (keep q xs) ≡ keep q (keep p xs)
unfolding keep
keep_swap p q [] = refl
keep_swap p q (x ∷ xs) = ground (arith, keep_swap p q xs)

pub bytes_eq_sym : (x y : Bytes) → bytes_eq x y ≡ bytes_eq y x
bytes_eq_sym x y = ground (arith, compare_bytes-flip x y)

pub without_absent : (x : Bytes) (ns : List Bytes) → mem x ns ≡ false → without x ns ≡ ns
unfolding keep mem
without_absent x [] h = refl
without_absent x (n ∷ ns) h =
    let other : bytes_eq n x ≡ false = bytes_eq_sym n x ∙ (ground (arith, h)) in
    rw other (ap (λ (l : List Bytes). n ∷ l) (without_absent x ns (ground (arith, h))))

length-without :
    (x : Bytes) (ns : List Bytes)
    → IsDistinct ns
    → mem x ns ≡ true
    → length ns ≡ suc (length (without x ns))
unfolding keep mem
length-without x [] d h = ground arith
length-without x (n ∷ ns) d h = elim (Bool-cases (bytes_eq n x)) [
  | inl e ↦
      let absent : mem x ns ≡ false =
        subst (λ (y : Bytes). mem y ns ≡ false) (eq_of_bytes_eq n x e) d.0 in
      rw (e, without_absent x ns absent)
  | inr e ↦
      rw e (ap (λ (k : ℕ). suc k) (length-without x ns d.1 (ground (arith, h, bytes_eq_sym n x))))
]

pub without-IsDistinct : (x : Bytes) (ns : List Bytes) → IsDistinct ns → IsDistinct (without x ns)
unfolding keep
without-IsDistinct x [] d = tt
without-IsDistinct x (n ∷ ns) d = elim (Bool-cases (bytes_eq n x)) [
  | inl e ↦ rw e (without-IsDistinct x ns d.1)
  | inr e ↦ rw e ((mem-without n x ns ∙ ground (arith, d.0), without-IsDistinct x ns d.1))
]

-- Two lists of distinct names with the same members are equally long.
pub length_same_members :
    (xs ys : List Bytes)
    → IsDistinct xs
    → IsDistinct ys
    → ((z : Bytes) → mem z xs ≡ mem z ys)
    → length xs ≡ length ys
unfolding mem
length_same_members [] [] dx dy h = refl
length_same_members [] (y ∷ ys) dx dy h = ground (arith, h y, compare_bytes_refl y)
length_same_members (x ∷ xs) ys dx dy h =
    ap (λ (k : ℕ). suc k)
      (length_same_members xs (without x ys) dx.1 (without-IsDistinct x ys dy) members)
    ∙ sym (length-without x ys dy (sym (h x) ∙ mem_head x xs))
  where
    members : (z : Bytes) → mem z xs ≡ mem z (without x ys)
    members z = elim (Bool-cases (bytes_eq z x)) [
      | inl e ↦
          ap (λ (y : Bytes). mem y xs) (eq_of_bytes_eq z x e)
          ∙ (dx.0 ∙ sym (mem-without z x ys ∙ ground (arith, e)))
      | inr e ↦ ground (arith, mem-without z x ys, h z)
    ]

pub map-keep {ℓ} :
    {A : Type ℓ} (f : A → Bytes) (x : Bytes) (xs : List A)
    → map f (keep (λ a. not (bytes_eq (f a) x)) xs) ≡ without x (map f xs)
unfolding keep
map-keep f x [] = refl
map-keep f x (a ∷ xs) = elim (Bool-cases (bytes_eq (f a) x)) [
  | inl e ↦ rw e (map-keep f x xs)
  | inr e ↦ rw e (ap (λ (l : List Bytes). f a ∷ l) (map-keep f x xs))
]

pub All-keep {ℓ κ} :
    {A : Type ℓ} (p : A → Bool) (P : A → Type κ) (xs : List A)
    → All P xs
    → All (λ x. P x × (p x ≡ true)) (keep p xs)
unfolding keep
All-keep p P [] a = tt
All-keep p P (x ∷ xs) a = elim (Bool-cases (p x)) [
  | inl h ↦ rw h (((a.0, h), All-keep p P xs a.1))
  | inr h ↦ rw h (All-keep p P xs a.1)
]

-- What follows for each element follows for the list.
pub All-map {ℓ κ μ} :
    {A : Type ℓ} (P : A → Type κ) (Q : A → Type μ) (xs : List A)
    → ((x : A) → P x → Q x)
    → All P xs
    → All Q xs
All-map P Q [] f a = tt
All-map P Q (x ∷ xs) f a = (f x a.0, All-map P Q xs f a.1)

pub keep-All {ℓ κ} :
    {A : Type ℓ} (p : A → Bool) (P : A → Type κ) (xs : List A) → All P xs → All P (keep p xs)
unfolding keep
keep-All p P [] a = tt
keep-All p P (x ∷ xs) a = elim (Bool-cases (p x)) [
  | inl h ↦ rw h ((a.0, keep-All p P xs a.1))
  | inr h ↦ rw h (keep-All p P xs a.1)
]
