-- ===== src/Hashring/Clockwise.antt =====
-- hashring/ring.go: the binary search starts the walk where the clockwise order starts.
use lithicdb.Common.{
  ℕ, zero, suc, ◌≤◌, ◌<◌, ◌≡◌, ap, sym, ◌∙◌, Bool, true, false, Bool-cases, inl, inr, List, [], ◌∷◌,
  ◌++◌, append-nil, length, take, drop, take-append-drop, get_or, arith, leb, ◌==◌,
}
use lithicdb.Common.Bytes.{All}
use lithicdb.Common.Slices.{take_all}
use lithicdb.Common.Names.{keep, keep-append, keep_all, keep_nothing}
use lithicdb.Common.Search.{search, IsFirst, search-IsFirst}
use lithicdb.Hashring.{VNode, zero_vnode, search_ring}
use lithicdb.Hashring.Order.{IsSorted, at_or_after, before, clockwise}
use lithicdb.Hashring.Walk.{drop_end}

get_or-All :
    (P : VNode → Type 0) (vs : List VNode) (i : ℕ)
    → All P vs
    → i < length vs
    → P (get_or vs i zero_vnode)
get_or-All P [] i a h = absurd (omega arith)
get_or-All P (v ∷ vs) zero a h = a.0
get_or-All P (v ∷ vs) (suc i) a h = get_or-All P vs i a.1 (omega arith)

get_or_mono :
    (vs : List VNode) (a b : ℕ)
    → IsSorted vs
    → a ≤ b
    → b < length vs
    → (get_or vs a zero_vnode).hash ≤ (get_or vs b zero_vnode).hash
get_or_mono [] a b s le l = absurd (omega arith)
get_or_mono (v ∷ vs) zero zero s le l = omega arith
get_or_mono (v ∷ vs) zero (suc b) s le l =
    get_or-All (λ (w : VNode). v.hash ≤ w.hash) vs b s.0 (omega arith)
get_or_mono (v ∷ vs) (suc a) zero s le l = absurd (omega arith)
get_or_mono (v ∷ vs) (suc a) (suc b) s le l = get_or_mono vs a b s.1 (omega arith) (omega arith)

All-take :
    (P : VNode → Type 0) (vs : List VNode) (i : ℕ)
    → ((k : ℕ) → k < i → k < length vs → P (get_or vs k zero_vnode))
    → All P (take i vs)
All-take P vs zero h = tt
All-take P [] (suc i) h = tt
All-take P (v ∷ vs) (suc i) h = (
  h 0 (omega arith) (omega arith),
  All-take P vs i (λ k l m. h (suc k) (omega arith) (omega arith)),
)

All-drop :
    (P : VNode → Type 0) (vs : List VNode) (i : ℕ)
    → ((k : ℕ) → i ≤ k → k < length vs → P (get_or vs k zero_vnode))
    → All P (drop i vs)
All-drop P [] zero h = tt
All-drop P (v ∷ vs) zero h = (
  h 0 (omega arith) (omega arith),
  All-drop P vs zero (λ k l m. h (suc k) (omega arith) (omega arith)),
)
All-drop P [] (suc i) h = tt
All-drop P (v ∷ vs) (suc i) h = All-drop P vs i (λ k l m. h (suc k) (omega arith) (omega arith))

module _ (vs : List VNode) (h : ℕ) (sorted : IsSorted vs) where
  abbrev test : ℕ → Bool
  test i = leb h (get_or vs i zero_vnode).hash

  test_mono : (a b : ℕ) → a ≤ b → b < length vs → test a ≡ true → test b ≡ true
  test_mono a b le l t = ground (arith, get_or_mono vs a b sorted le l)

  module _ (i : ℕ) (first : IsFirst (length vs) test i) where
    front :
        (p : VNode → Bool) (b : Bool)
        → ((k : ℕ) → k < i → k < length vs → p (get_or vs k zero_vnode) ≡ b)
        → All (λ v. p v ≡ b) (take i vs)
    front p b f = All-take (λ v. p v ≡ b) vs i f

    behind : (k : ℕ) → i ≤ k → k < length vs → test k ≡ true
    behind k le l = test_mono i k le l (first.here (omega arith))

    not_before : (k : ℕ) → test k ≡ false → before h (get_or vs k zero_vnode) ≡ true
    not_before k t = ground arith

    not_after : (k : ℕ) → test k ≡ true → before h (get_or vs k zero_vnode) ≡ false
    not_after k t = ground arith

    keep-split : (p : VNode → Bool) → keep p vs ≡ keep p (take i vs) ++ keep p (drop i vs)
    keep-split p = ap (keep p) (sym (take-append-drop i vs)) ∙ keep-append p (take i vs) (drop i vs)

    rotation : drop i vs ++ take i vs ≡ clockwise h vs
    rotation = sym (
        rw
          (
            keep-split (at_or_after h),
            keep-split (before h),
            keep_nothing (at_or_after h) (take i vs)
                (front (at_or_after h) false (λ k l m. first.before k l)),
            keep_all (at_or_after h) (drop i vs)
                (All-drop (λ v. at_or_after h v ≡ true) vs i behind),
            keep_all (before h) (take i vs)
                (front (before h) true (λ k l m. not_before k (first.before k l))),
            keep_nothing (before h) (drop i vs)
                (All-drop (λ v. before h v ≡ false) vs i (λ k l m. not_after k (behind k l m))),
          )
          (ap (λ (l : List VNode). drop i vs ++ l) (append-nil (take i vs))))

  rotation_end : (i : ℕ) → i ≡ length vs → IsFirst (length vs) test i → vs ++ [] ≡ clockwise h vs
  rotation_end i e first =
      append-nil vs
      ∙ (sym (take_all i vs (omega arith)) ∙ (sym (rw (drop_end vs i e)) ∙ rotation i first))

  IsFirst-index : IsFirst (length vs) test (search (length vs) test)
  IsFirst-index = search-IsFirst (length vs) test test_mono

  -- The walk from the found index meets the virtual nodes in clockwise order.
  pub search_ring-clockwise :
      1 ≤ length vs
      → (search_ring vs h < length vs)
        × (drop (search_ring vs h) vs ++ take (search_ring vs h) vs ≡ clockwise h vs)
  unfolding search_ring
  search_ring-clockwise some_vnode = elim (Bool-cases (search (length vs) test == length vs)) [
    | inl e ↦
        rw e ((omega arith, rotation_end (search (length vs) test) (ground arith) IsFirst-index))
    | inr e ↦
        rw e
          ((ground (arith, IsFirst-index.within), rotation (search (length vs) test) IsFirst-index))
  ]
