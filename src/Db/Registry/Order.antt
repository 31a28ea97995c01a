-- ===== src/Db/Registry/Order.antt =====
-- db/snapshot_registry.go: the slice stays sorted, and the binary search finds the right place.
use lithicdb.Common.{
  inl, inr, Bool-cases, ℕ, zero, suc, ◌+◌, ◌≤◌, ◌<◌, ◌≡◌, refl, ap, true, false, List, [], ◌∷◌,
  ◌++◌, ◌&&◌, arith, length, take, drop, get_or, ltb, leb, ◌==◌, if◌then◌else◌,
}
use lithicdb.Common.Search.{IsFirst, search-IsFirst}
use lithicdb.Db.Registry.{Registry, position, register, deregister}

-- Ascending, and nothing below `lo`.
abbrev pub AscendingFrom : ℕ → List ℕ → Type 0
AscendingFrom lo [] = Unit
AscendingFrom lo (x ∷ xs) = (lo ≤ x) × AscendingFrom x xs

abbrev pub IsSorted : Registry → Type 0
IsSorted seqs = AscendingFrom 0 seqs

-- The specification: before the first element that is not smaller.
unfoldable pub insert_sorted : ℕ → List ℕ → List ℕ
insert_sorted s [] = s ∷ []
insert_sorted s (x ∷ xs) = if leb s x then s ∷ (x ∷ xs) else x ∷ insert_sorted s xs

-- The specification: the first copy goes.
unfoldable pub remove_one : ℕ → List ℕ → List ℕ
remove_one s [] = []
remove_one s (x ∷ xs) = if x == s then xs else x ∷ remove_one s xs

get_or-ge :
    (lo : ℕ) (xs : List ℕ) (i : ℕ) → AscendingFrom lo xs → i < length xs → lo ≤ get_or xs i 0
get_or-ge lo [] i h l = absurd (omega arith)
get_or-ge lo (x ∷ xs) zero h l = h.0
get_or-ge lo (x ∷ xs) (suc i) h l = omega (arith, get_or-ge x xs i h.1 (omega arith))

get_or_mono :
    (lo : ℕ) (xs : List ℕ) (a b : ℕ)
    → AscendingFrom lo xs
    → a ≤ b
    → b < length xs
    → get_or xs a 0 ≤ get_or xs b 0
get_or_mono lo [] a b h le l = absurd (omega arith)
get_or_mono lo (x ∷ xs) zero zero h le l = omega arith
get_or_mono lo (x ∷ xs) zero (suc b) h le l = get_or-ge x xs b h.1 (omega arith)
get_or_mono lo (x ∷ xs) (suc a) zero h le l = absurd (omega arith)
get_or_mono lo (x ∷ xs) (suc a) (suc b) h le l =
    get_or_mono x xs a b h.1 (omega arith) (omega arith)

position-IsFirst :
    (seqs : Registry) (s : ℕ)
    → IsSorted seqs
    → IsFirst (length seqs) (λ i. leb s (get_or seqs i 0)) (position seqs s)
unfolding position
position-IsFirst seqs s h =
    search-IsFirst (length seqs) _ (λ a b le l t. ground (arith, get_or_mono 0 seqs a b h le l))

IsFirst-tail :
    (x : ℕ) (xs : List ℕ) (s i : ℕ)
    → IsFirst (length (x ∷ xs)) (λ k. leb s (get_or (x ∷ xs) k 0)) (suc i)
    → IsFirst (length xs) (λ k. leb s (get_or xs k 0)) i
IsFirst-tail x xs s i f = record {
  within = omega (arith, f.within);
  before = λ k h. f.before (suc k) (omega arith);
  here = λ h. f.here (omega arith);
}

insert_at :
    (xs : List ℕ) (s i : ℕ)
    → IsFirst (length xs) (λ k. leb s (get_or xs k 0)) i
    → take i xs ++ (s ∷ drop i xs) ≡ insert_sorted s xs
unfolding insert_sorted
insert_at [] s zero f = refl
insert_at [] s (suc i) f = absurd (omega (arith, f.within))
insert_at (x ∷ xs) s zero f = let t : leb s x ≡ true = f.here (omega arith) in rw t
insert_at (x ∷ xs) s (suc i) f =
    let t : leb s x ≡ false = f.before 0 (omega arith) in
    rw t (ap (λ (l : List ℕ). x ∷ l) (insert_at xs s i (IsFirst-tail x xs s i f)))

-- `Register` puts the number before the first one that is not smaller.
pub register-insert_sorted :
    (seqs : Registry) (s : ℕ) → IsSorted seqs → register seqs s ≡ insert_sorted s seqs
unfolding register
register-insert_sorted seqs s h = insert_at seqs s (position seqs s) (position-IsFirst seqs s h)

remove_one_absent :
    (lo : ℕ) (xs : List ℕ) (s : ℕ) → AscendingFrom lo xs → s < lo → remove_one s xs ≡ xs
unfolding remove_one
remove_one_absent lo [] s h l = refl
remove_one_absent lo (x ∷ xs) s h l = ground (arith, remove_one_absent x xs s h.1)

remove_at :
    (lo : ℕ) (xs : List ℕ) (s i : ℕ)
    → AscendingFrom lo xs
    → IsFirst (length xs) (λ k. leb s (get_or xs k 0)) i
    → (if ltb i (length xs) && get_or xs i 0 == s then take i xs ++ drop (i + 1) xs else xs)
      ≡ remove_one s xs
unfolding remove_one
remove_at lo [] s i h f = ground arith
remove_at lo (x ∷ xs) s zero h f =
    ground (arith, f.here (omega arith), remove_one_absent x xs s h.1)
remove_at lo (x ∷ xs) s (suc i) h f =
    let e : suc i + 1 ≡ suc (i + 1) = omega arith in
    rw e
      (ground (arith, f.before 0 (omega arith), remove_at x xs s i h.1 (IsFirst-tail x xs s i f)))

-- `Deregister` removes one copy of the number, and nothing if it is not there.
pub deregister-remove_one :
    (seqs : Registry) (s : ℕ) → IsSorted seqs → deregister seqs s ≡ remove_one s seqs
unfolding deregister
deregister-remove_one seqs s h = remove_at 0 seqs s (position seqs s) h (position-IsFirst seqs s h)

insert_sorted-AscendingFrom :
    (lo s : ℕ) (xs : List ℕ) → lo ≤ s → AscendingFrom lo xs → AscendingFrom lo (insert_sorted s xs)
unfolding insert_sorted
insert_sorted-AscendingFrom lo s [] l h = (l, tt)
insert_sorted-AscendingFrom lo s (x ∷ xs) l (hx, hs) = elim (Bool-cases (leb s x)) [
  | inl t ↦ rw t (l, (ground arith, hs))
  | inr t ↦ rw t (hx, insert_sorted-AscendingFrom x s xs (ground arith) hs)
]

AscendingFrom-lower : (lo x : ℕ) (xs : List ℕ) → lo ≤ x → AscendingFrom x xs → AscendingFrom lo xs
AscendingFrom-lower lo x [] l h = tt
AscendingFrom-lower lo x (y ∷ ys) l (hy, hs) = (omega arith, hs)

remove_one-AscendingFrom :
    (lo s : ℕ) (xs : List ℕ) → AscendingFrom lo xs → AscendingFrom lo (remove_one s xs)
unfolding remove_one
remove_one-AscendingFrom lo s [] h = tt
remove_one-AscendingFrom lo s (x ∷ xs) (hx, hs) = elim (Bool-cases (x == s)) [
  | inl t ↦ rw t (AscendingFrom-lower lo x xs hx hs)
  | inr t ↦ rw t (hx, remove_one-AscendingFrom x s xs hs)
]

pub register-IsSorted : (seqs : Registry) (s : ℕ) → IsSorted seqs → IsSorted (register seqs s)
register-IsSorted seqs s h =
    rw (register-insert_sorted seqs s h) (insert_sorted-AscendingFrom 0 s seqs (omega arith) h)

pub deregister-IsSorted : (seqs : Registry) (s : ℕ) → IsSorted seqs → IsSorted (deregister seqs s)
deregister-IsSorted seqs s h =
    rw (deregister-remove_one seqs s h) (remove_one-AscendingFrom 0 s seqs h)
