-- ===== src/Hashring/Order.antt =====
-- hashring/ring.go: the virtual nodes by hash, and the clockwise order from a hash.
use lithicdb.Common.{
  ℕ, ◌≤◌, ◌≡◌, refl, ap, sym, ◌∙◌, Bool, true, false, Bool-cases, inl, inr, List, [], ◌∷◌, ◌++◌,
  append_assoc, append-nil, arith, ltb, leb,
}
use lithicdb.Common.Bytes.{All, All-append}
use lithicdb.Common.Names.{keep}
use lithicdb.Hashring.{VNode, insert_vnode, sort_onto, sort_vnodes}

abbrev pub IsSorted : List VNode → Type 0
IsSorted [] = Unit
IsSorted (v ∷ vs) = All (λ w. v.hash ≤ w.hash) vs × IsSorted vs

abbrev pub at_or_after : ℕ → VNode → Bool
at_or_after h v = leb h v.hash

abbrev pub before : ℕ → VNode → Bool
before h v = ltb v.hash h

-- The specification: those at or after the hash, then those before it.
abbrev pub clockwise : ℕ → List VNode → List VNode
clockwise h vs = keep (at_or_after h) vs ++ keep (before h) vs

module _ (v : VNode) where
  All-insert_vnode :
      (P : VNode → Type 0) (vs : List VNode) → P v → All P vs → All P (insert_vnode v vs)
  unfolding insert_vnode
  All-insert_vnode P [] h a = (h, tt)
  All-insert_vnode P (w ∷ ws) h a = elim (Bool-cases (leb w.hash v.hash)) [
    | inl t ↦ rw t ((a.0, All-insert_vnode P ws h a.1))
    | inr t ↦ rw t ((h, a))
  ]

  All-le :
      (w : VNode) (ws : List VNode)
      → v.hash ≤ w.hash
      → All (λ x. w.hash ≤ x.hash) ws
      → All (λ x. v.hash ≤ x.hash) ws
  All-le w [] h a = tt
  All-le w (x ∷ xs) h a = (omega (arith, a.0), All-le w xs h a.1)

  insert_vnode-IsSorted : (vs : List VNode) → IsSorted vs → IsSorted (insert_vnode v vs)
  unfolding insert_vnode
  insert_vnode-IsSorted [] s = (tt, tt)
  insert_vnode-IsSorted (w ∷ ws) s = elim (Bool-cases (leb w.hash v.hash)) [
    | inl t ↦ rw t (
        (
          All-insert_vnode (λ x. w.hash ≤ x.hash) ws (ground arith) s.0,
          insert_vnode-IsSorted ws s.1,
        ))
    | inr t ↦ rw t (((ground arith, All-le w ws (ground arith) s.0), s))
  ]

  insert_vnode_last :
      (ws : List VNode) → All (λ w. w.hash ≤ v.hash) ws → insert_vnode v ws ≡ ws ++ (v ∷ [])
  unfolding insert_vnode
  insert_vnode_last [] a = refl
  insert_vnode_last (w ∷ ws) a =
      let t : leb w.hash v.hash ≡ true = ground (arith, a.0) in
      rw t (ap (λ (l : List VNode). w ∷ l) (insert_vnode_last ws a.1))

  keep-insert_vnode :
      (p : VNode → Bool) (ws : List VNode) → p v ≡ false → keep p (insert_vnode v ws) ≡ keep p ws
  unfolding keep insert_vnode
  keep-insert_vnode p [] h = rw h
  keep-insert_vnode p (w ∷ ws) h = elim (Bool-cases (leb w.hash v.hash)) [
    | inl t ↦ rw (t, keep-insert_vnode p ws h)
    | inr t ↦ rw (t, h)
  ]

pub sort_onto-IsSorted : (vs sorted : List VNode) → IsSorted sorted → IsSorted (sort_onto sorted vs)
unfolding sort_onto
sort_onto-IsSorted [] sorted s = s
sort_onto-IsSorted (v ∷ vs) sorted s =
    sort_onto-IsSorted vs (insert_vnode v sorted) (insert_vnode-IsSorted v sorted s)

pub All-sort_onto :
    (P : VNode → Type 0) (vs sorted : List VNode)
    → All P sorted
    → All P vs
    → All P (sort_onto sorted vs)
unfolding sort_onto
All-sort_onto P [] sorted s a = s
All-sort_onto P (v ∷ vs) sorted s a =
    All-sort_onto P vs (insert_vnode v sorted) (All-insert_vnode v P sorted a.0 s) a.1

pub keep-sort_onto :
    (p : VNode → Bool) (vs sorted : List VNode)
    → All (λ v. p v ≡ false) vs
    → keep p (sort_onto sorted vs) ≡ keep p sorted
unfolding sort_onto
keep-sort_onto p [] sorted a = refl
keep-sort_onto p (v ∷ vs) sorted a =
    keep-sort_onto p vs (insert_vnode v sorted) a.1 ∙ keep-insert_vnode v p sorted a.0

sort_onto-append :
    (xs ys sorted : List VNode) → sort_onto sorted (xs ++ ys) ≡ sort_onto (sort_onto sorted xs) ys
unfolding sort_onto
sort_onto-append [] ys sorted = refl
sort_onto-append (x ∷ xs) ys sorted = sort_onto-append xs ys (insert_vnode x sorted)

sort_onto_sorted :
    (vs front : List VNode)
    → IsSorted vs
    → All (λ f. All (λ v. f.hash ≤ v.hash) vs) front
    → sort_onto front vs ≡ front ++ vs
unfolding sort_onto
sort_onto_sorted [] front s a = sym (append-nil front)
sort_onto_sorted (v ∷ vs) front s a = rw (insert_vnode_last v front (heads front a)) (
    sort_onto_sorted vs (front ++ (v ∷ [])) s.1
      (All-append (λ f. All (λ w. f.hash ≤ w.hash) vs) front (v ∷ []) (tails front a) (s.0, tt))
    ∙ append_assoc front (v ∷ []) vs)
  where
    heads :
        (fs : List VNode)
        → All (λ f. All (λ w. f.hash ≤ w.hash) (v ∷ vs)) fs
        → All (λ f. f.hash ≤ v.hash) fs
    heads [] b = tt
    heads (f ∷ fs) b = ((b.0).0, heads fs b.1)

    tails :
        (fs : List VNode)
        → All (λ f. All (λ w. f.hash ≤ w.hash) (v ∷ vs)) fs
        → All (λ f. All (λ w. f.hash ≤ w.hash) vs) fs
    tails [] b = tt
    tails (f ∷ fs) b = ((b.0).1, tails fs b.1)

-- Sorting a sorted list with more behind it inserts what is new.
pub sort_vnodes-append :
    (vs new : List VNode) → IsSorted vs → sort_vnodes (vs ++ new) ≡ sort_onto vs new
unfolding sort_vnodes
sort_vnodes-append vs new s =
    sort_onto-append vs new []
    ∙ ap (λ (l : List VNode). sort_onto l new) (sort_onto_sorted vs [] s tt)
