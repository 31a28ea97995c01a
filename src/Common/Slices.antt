-- ===== src/Common/Slices.antt =====
-- Slices of an append: `s[:n]` and `s[n:]` at and around the seam.
use lithicdb.Common.{
  ℕ, zero, suc, ◌+◌, ◌≤◌, ◌≡◌, refl, ap, List, [], ◌∷◌, ◌++◌, arith, length, take, drop,
}

module _ {ℓ} {A : Type ℓ} where
  pub take_append : (n : ℕ) (xs ys : List A) → n ≡ length xs → take n (xs ++ ys) ≡ xs
  take_append zero [] ys h = refl
  take_append zero (x ∷ xs) ys h = absurd (omega arith)
  take_append (suc n) [] ys h = absurd (omega arith)
  take_append (suc n) (x ∷ xs) ys h = ap (λ (l : List A). x ∷ l) (take_append n xs ys (omega arith))

  pub drop_append : (n : ℕ) (xs ys : List A) → n ≡ length xs → drop n (xs ++ ys) ≡ ys
  drop_append zero [] ys h = refl
  drop_append zero (x ∷ xs) ys h = absurd (omega arith)
  drop_append (suc n) [] ys h = absurd (omega arith)
  drop_append (suc n) (x ∷ xs) ys h = drop_append n xs ys (omega arith)

  pub take_all : (n : ℕ) (xs : List A) → length xs ≤ n → take n xs ≡ xs
  take_all zero [] h = refl
  take_all zero (x ∷ xs) h = absurd (omega arith)
  take_all (suc n) [] h = refl
  take_all (suc n) (x ∷ xs) h = ap (λ (l : List A). x ∷ l) (take_all n xs (omega arith))

  pub drop_add : (m n k : ℕ) (xs : List A) → k ≡ m + n → drop k xs ≡ drop n (drop m xs)
  drop_add zero n k xs h = let e : k ≡ n = omega arith in rw e
  drop_add (suc m) n zero xs h = absurd (omega arith)
  drop_add (suc m) zero (suc k) [] h = refl
  drop_add (suc m) (suc n) (suc k) [] h = refl
  drop_add (suc m) n (suc k) (x ∷ xs) h = drop_add m n k xs (omega arith)

  pub take_prefix : (k : ℕ) (xs ys : List A) → k ≤ length xs → take k (xs ++ ys) ≡ take k xs
  take_prefix zero xs ys h = refl
  take_prefix (suc k) [] ys h = absurd (omega arith)
  take_prefix (suc k) (x ∷ xs) ys h = ap (λ (l : List A). x ∷ l) (take_prefix k xs ys (omega arith))

  pub drop_prefix : (k : ℕ) (xs ys : List A) → k ≤ length xs → drop k (xs ++ ys) ≡ drop k xs ++ ys
  drop_prefix zero xs ys h = refl
  drop_prefix (suc k) [] ys h = absurd (omega arith)
  drop_prefix (suc k) (x ∷ xs) ys h = drop_prefix k xs ys (omega arith)

  pub take-drop : (k : ℕ) (xs : List A) → take k xs ++ drop k xs ≡ xs
  take-drop zero xs = refl
  take-drop (suc k) [] = refl
  take-drop (suc k) (x ∷ xs) = ap (λ (l : List A). x ∷ l) (take-drop k xs)
