-- ===== src/Common/Bytes.antt =====
-- Byte slices and strings: `bytes.Compare`, `bytes.Equal`, and the order of Go strings.
use Prim.Native.Nat.{compare, Ordering}
use lithicdb.Common.{
  Bool-cases, inl, inr, ℕ, ◌<◌, ◌≡◌, refl, ◌↔◌, Bool, true, false, List, [], ◌∷◌, ◌++◌, arith,
  length,
}

abbrev pub Bytes : Type 0
Bytes = List ℕ

abbrev pub All {ℓ κ} : {A : Type ℓ} → (A → Type κ) → List A → Type κ
All P [] = Unit
All P (x ∷ xs) = P x × All P xs

pub All-append {ℓ κ} :
    {A : Type ℓ} (P : A → Type κ) (xs ys : List A) → All P xs → All P ys → All P (xs ++ ys)
All-append P [] ys h k = k
All-append P (x ∷ xs) ys (hx, hs) k = (hx, All-append P xs ys hs k)

abbrev pub IsByte : ℕ → Type 0
IsByte b = b < 256

-- bytes.Compare: -1, 0 and 1 are lt, eq and gt.
unfoldable pub compare_bytes : Bytes → Bytes → Ordering
compare_bytes [] [] = Ordering.eq
compare_bytes [] (y ∷ ys) = Ordering.lt
compare_bytes (x ∷ xs) [] = Ordering.gt
compare_bytes (x ∷ xs) (y ∷ ys) = elim (compare x y) [
  | Ordering.lt ↦ Ordering.lt
  | Ordering.eq ↦ compare_bytes xs ys
  | Ordering.gt ↦ Ordering.gt
]

abbrev pub is_lt : Ordering → Bool
is_lt o = elim o [ Ordering.lt ↦ true | _ ↦ false ]

abbrev pub is_eq : Ordering → Bool
is_eq o = elim o [ Ordering.eq ↦ true | _ ↦ false ]

abbrev pub flip : Ordering → Ordering
flip o = elim o [
  | Ordering.lt ↦ Ordering.gt
  | Ordering.eq ↦ Ordering.eq
  | Ordering.gt ↦ Ordering.lt
]

-- bytes.Equal, and `==` of strings.
abbrev pub bytes_eq : Bytes → Bytes → Bool
bytes_eq xs ys = is_eq (compare_bytes xs ys)

-- bytes.Compare(a, b) < 0, and `<` of strings.
abbrev pub bytes_lt : Bytes → Bytes → Bool
bytes_lt xs ys = is_lt (compare_bytes xs ys)

pub compare_bytes_refl : (xs : Bytes) → compare_bytes xs xs ≡ Ordering.eq
unfolding compare_bytes
compare_bytes_refl [] = refl
compare_bytes_refl (x ∷ xs) = ground (arith, compare_bytes_refl xs)

pub eq_of_compare_bytes : (xs ys : Bytes) → compare_bytes xs ys ≡ Ordering.eq → xs ≡ ys
unfolding compare_bytes
eq_of_compare_bytes [] [] h = refl
eq_of_compare_bytes [] (y ∷ ys) h = ground arith
eq_of_compare_bytes (x ∷ xs) [] h = ground arith
eq_of_compare_bytes (x ∷ xs) (y ∷ ys) h = ground (arith, eq_of_compare_bytes xs ys)

pub bytes_eq_iff : (xs ys : Bytes) → (bytes_eq xs ys ≡ true) ↔ (xs ≡ ys)
bytes_eq_iff xs ys =
    (λ h. eq_of_compare_bytes xs ys (ground arith), λ e. rw e (rw (compare_bytes_refl ys)))

pub compare_bytes-flip : (xs ys : Bytes) → compare_bytes ys xs ≡ flip (compare_bytes xs ys)
unfolding compare_bytes
compare_bytes-flip [] [] = refl
compare_bytes-flip [] (y ∷ ys) = refl
compare_bytes-flip (x ∷ xs) [] = refl
compare_bytes-flip (x ∷ xs) (y ∷ ys) = ground (arith, compare_bytes-flip xs ys)

pub compare_bytes_trans :
    (xs ys zs : Bytes)
    → compare_bytes xs ys ≡ Ordering.lt
    → compare_bytes ys zs ≡ Ordering.lt
    → compare_bytes xs zs ≡ Ordering.lt
unfolding compare_bytes
compare_bytes_trans [] [] zs h k = ground arith
compare_bytes_trans [] (y ∷ ys) [] h k = ground arith
compare_bytes_trans [] (y ∷ ys) (z ∷ zs) h k = refl
compare_bytes_trans (x ∷ xs) [] zs h k = ground arith
compare_bytes_trans (x ∷ xs) (y ∷ ys) [] h k = ground arith
compare_bytes_trans (x ∷ xs) (y ∷ ys) (z ∷ zs) h k = ground (arith, compare_bytes_trans xs ys zs)

-- A common prefix does not matter.
pub compare_bytes_prefix :
    (ps xs ys : Bytes) → compare_bytes (ps ++ xs) (ps ++ ys) ≡ compare_bytes xs ys
unfolding compare_bytes
compare_bytes_prefix [] xs ys = refl
compare_bytes_prefix (p ∷ ps) xs ys = ground (arith, compare_bytes_prefix ps xs ys)

-- The outcome of two comparisons, the first one decisive.
abbrev pub then_compare : Ordering → Ordering → Ordering
then_compare o p = elim o [
  | Ordering.lt ↦ Ordering.lt
  | Ordering.eq ↦ p
  | Ordering.gt ↦ Ordering.gt
]

pub compare_bytes-append :
    (xs ys us vs : Bytes)
    → length xs ≡ length ys
    → compare_bytes (xs ++ us) (ys ++ vs) ≡ then_compare (compare_bytes xs ys) (compare_bytes us vs)
unfolding compare_bytes
compare_bytes-append [] [] us vs h = refl
compare_bytes-append [] (y ∷ ys) us vs h = absurd (omega arith)
compare_bytes-append (x ∷ xs) [] us vs h = absurd (omega arith)
compare_bytes-append (x ∷ xs) (y ∷ ys) us vs h = ground (arith, compare_bytes-append xs ys us vs)

-- `a` is not after `b`.
abbrev pub NotAfter : Bytes → Bytes → Type 0
NotAfter a b = bytes_lt b a ≡ false

pub NotAfter-lt : (a b c : Bytes) → NotAfter a b → bytes_lt b c ≡ true → bytes_lt a c ≡ true
NotAfter-lt a b c h k =
    ground (arith, compare_bytes-flip a b, eq_of_compare_bytes a b, compare_bytes_trans a b c)

pub lt-NotAfter : (a b c : Bytes) → bytes_lt a b ≡ true → NotAfter b c → bytes_lt a c ≡ true
lt-NotAfter a b c h k =
    ground (arith, compare_bytes-flip b c, eq_of_compare_bytes b c, compare_bytes_trans a b c)

pub NotAfter-trans : (a b c : Bytes) → NotAfter a b → NotAfter b c → NotAfter a c
NotAfter-trans a b c h k = elim (Bool-cases (bytes_lt c a)) [
  | inr no_lt ↦ no_lt
  | inl lt ↦ cc (lt-NotAfter c a b lt h)
]
