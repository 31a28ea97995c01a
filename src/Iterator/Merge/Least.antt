-- ===== src/Iterator/Merge/Least.antt =====
-- iterator/merge.go: what Pop takes from the heap.
use lithicdb.Common.{
  ℕ, ◌≡◌, refl, true, false, Bool, Bool-cases, inl, inr, List, [], ◌∷◌, arith, ◌==◌, ◌||◌,
}
use lithicdb.Common.Bytes.{All, NotAfter, NotAfter-trans, compare_bytes-flip}
use lithicdb.Common.Names.{All-map}
use lithicdb.Iterator.Merge.{HeapItem, less, pop_least}

unfoldable pub has_idx : ℕ → List HeapItem → Bool
has_idx i [] = false
has_idx i (x ∷ xs) = (i == x.idx) || has_idx i xs

-- No index stands twice.
abbrev pub Separate : List HeapItem → Type 0
Separate [] = Unit
Separate (x ∷ xs) = (has_idx x.idx xs ≡ false) × Separate xs

less-NotAfter : (a b : HeapItem) → less a b ≡ true → NotAfter a.key b.key
unfolding less
less-NotAfter a b h = ground (arith, h, compare_bytes-flip a.key b.key)

not_less : (a b : HeapItem) → less a b ≡ false → NotAfter b.key a.key
unfolding less
not_less a b h = ground (arith, h, compare_bytes-flip a.key b.key)

pub has_idx-pop_least :
    (i : ℕ) (x : HeapItem) (xs : List HeapItem)
    → has_idx i (x ∷ xs) ≡ ((i == (pop_least x xs).0.idx) || has_idx i (pop_least x xs).1)
unfolding has_idx pop_least
has_idx-pop_least i x [] = refl
has_idx-pop_least i x (y ∷ ys) = elim (Bool-cases (less (pop_least y ys).0 x)) [
  | inl h ↦ rw h (ground (arith, has_idx-pop_least i y ys))
  | inr h ↦ rw h (ground (arith, has_idx-pop_least i y ys))
]

pub pop_least-All {ℓ} :
    (P : HeapItem → Type ℓ) (x : HeapItem) (xs : List HeapItem)
    → P x
    → All P xs
    → P (pop_least x xs).0 × All P (pop_least x xs).1
unfolding pop_least
pop_least-All P x [] p a = (p, tt)
pop_least-All P x (y ∷ ys) p a =
    let (least, rest) = pop_least-All P y ys a.0 a.1 in
    elim (Bool-cases (less (pop_least y ys).0 x)) [
      | inl h ↦ rw h ((least, (p, rest)))
      | inr h ↦ rw h ((p, (least, rest)))
    ]

pub pop_least-least :
    (x : HeapItem) (xs : List HeapItem)
    → All (λ y. NotAfter (pop_least x xs).0.key y.key) (pop_least x xs).1
unfolding pop_least
pop_least-least x [] = tt
pop_least-least x (y ∷ ys) =
    let rest = pop_least-least y ys in
    elim (Bool-cases (less (pop_least y ys).0 x)) [
      | inl h ↦ rw h ((less-NotAfter (pop_least y ys).0 x h, rest))
      | inr h ↦
          let below = not_less (pop_least y ys).0 x h in
          rw h (
            (
              below,
              All-map _ _ (pop_least y ys).1
                  (λ z (p : NotAfter (pop_least y ys).0.key z.key).
                    NotAfter-trans x.key (pop_least y ys).0.key z.key below p)
                  rest,
            ))
    ]

pub pop_least-Separate :
    (x : HeapItem) (xs : List HeapItem)
    → Separate (x ∷ xs)
    → (has_idx (pop_least x xs).0.idx (pop_least x xs).1 ≡ false) × Separate (pop_least x xs).1
unfolding pop_least has_idx
pop_least-Separate x [] s = (refl, tt)
pop_least-Separate x (y ∷ ys) s =
    let (gone, rest) = pop_least-Separate y ys s.1 in
    elim (Bool-cases (less (pop_least y ys).0 x)) [
      | inl h ↦ rw h (ground (arith, gone, rest, s.0, has_idx-pop_least x.idx y ys))
      | inr h ↦ rw h (ground (arith, gone, rest, s.0, has_idx-pop_least x.idx y ys))
    ]
