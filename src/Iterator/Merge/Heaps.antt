-- ===== src/Iterator/Merge/Heaps.antt =====
-- iterator/merge.go: the heap holds the first entry of every iterator that has one, from the start
-- and after each step.
use mathlib.Core.Path.{subst}
use lithicdb.Common.{
  ℕ, zero, suc, ◌+◌, ◌-◌, ◌≤◌, ◌<◌, ◌≡◌, ◌≢◌, refl, ap, ◌∙◌, sym, false, not, Bool-cases, inl, inr,
  some, List, [], ◌∷◌, ◌++◌, arith, get_elem?, set, ◌==◌, get_elem?-set_ne,
}
use lithicdb.Common.Bytes.{All}
use lithicdb.Common.Names.{All-map}
use lithicdb.Iterator.{Entry, Source, is_nil}
use lithicdb.Iterator.Merge.{HeapItem, item_of, first_items, source_entries, entries_at, pop_least}
use lithicdb.Iterator.Merge.Least.{
  has_idx, Separate, has_idx-pop_least, pop_least-All, pop_least-Separate,
}
use lithicdb.Iterator.Merge.Sources.{
  head_key, IsHeap, get_elem?-set, has_idx-append, has_idx-item_of,
}

first_items-below : (i k : ℕ) (ss : List Source) → i < k → has_idx i (first_items k ss) ≡ false
unfolding first_items has_idx
first_items-below i k [] h = refl
first_items-below i k (s ∷ ss) h =
    has_idx-append i (item_of k s) (first_items (k + 1) ss)
    ∙ ground (arith, has_idx-item_of i k s, first_items-below i (k + 1) ss (omega arith))

first_items-has_idx :
    (k j : ℕ) (ss : List Source)
    → has_idx (k + j) (first_items k ss) ≡ not (is_nil (entries_at j ss))
unfolding first_items has_idx
first_items-has_idx k j [] = refl
first_items-has_idx k zero (s ∷ ss) =
    has_idx-append (k + 0) (item_of k s) (first_items (k + 1) ss)
    ∙ ground
        (arith, has_idx-item_of (k + 0) k s, first_items-below (k + 0) (k + 1) ss (omega arith))
first_items-has_idx k (suc j) (s ∷ ss) =
    let same : k + 1 + j ≡ k + suc j = omega arith in
    let behind : has_idx (k + suc j) (first_items (k + 1) ss) ≡ not (is_nil (entries_at j ss)) =
      subst (λ n. has_idx n (first_items (k + 1) ss) ≡ not (is_nil (entries_at j ss))) same
        (first_items-has_idx (k + 1) j ss) in
    has_idx-append (k + suc j) (item_of k s) (first_items (k + 1) ss)
    ∙ ground (arith, has_idx-item_of (k + suc j) k s, behind)

Separate-item_of :
    (i : ℕ) (s : Source) (h : List HeapItem)
    → has_idx i h ≡ false
    → Separate h
    → Separate (item_of i s ++ h)
Separate-item_of i s h a p = of s.entries
  where
    of : (es : List Entry) → Separate (item_of i (record s { entries = es }) ++ h)
    of [] = p
    of (e ∷ es) = (a, p)

first_items-Separate : (k : ℕ) (ss : List Source) → Separate (first_items k ss)
unfolding first_items
first_items-Separate k [] = tt
first_items-Separate k (s ∷ ss) =
    Separate-item_of k s (first_items (k + 1) ss) (first_items-below k (k + 1) ss (omega arith))
      (first_items-Separate (k + 1) ss)

All-item_of {ℓ} :
    (P : HeapItem → Type ℓ) (i : ℕ) (s : Source) (h : List HeapItem)
    → ((e : Entry) → head_key s.entries ≡ some e.key → P (record { key = e.key; idx = i }))
    → All P h
    → All P (item_of i s ++ h)
All-item_of P i s h f a = of s.entries f
  where
    of :
        (es : List Entry)
        → ((e : Entry) → head_key es ≡ some e.key → P (record { key = e.key; idx = i }))
        → All P (item_of i (record s { entries = es }) ++ h)
    of [] g = a
    of (e ∷ es) g = (g e refl, a)

-- The index of an item counts from `k`.
abbrev HeadFrom : ℕ → List Source → HeapItem → Type 0
HeadFrom k ss x = (k ≤ x.idx) × (head_key (entries_at (x.idx - k) ss) ≡ some x.key)

first_items-HeadFrom : (k : ℕ) (ss : List Source) → All (HeadFrom k ss) (first_items k ss)
unfolding first_items
first_items-HeadFrom k [] = tt
first_items-HeadFrom k (s ∷ ss) =
    All-item_of (HeadFrom k (s ∷ ss)) k s (first_items (k + 1) ss)
      (λ e h. (omega arith, at_start e h))
      (All-map _ _ (first_items (k + 1) ss) (λ x (p : HeadFrom (k + 1) ss x). later x p)
        (first_items-HeadFrom (k + 1) ss))
  where
    at_start :
        (e : Entry)
        → head_key s.entries ≡ some e.key
        → head_key (entries_at (k - k) (s ∷ ss)) ≡ some e.key
    at_start e h =
        let first : k - k ≡ 0 = omega arith in
        subst (λ n. head_key (entries_at n (s ∷ ss)) ≡ some e.key) (sym first) h

    later : (x : HeapItem) → HeadFrom (k + 1) ss x → HeadFrom k (s ∷ ss) x
    later x p =
        let behind : x.idx - k ≡ suc (x.idx - (k + 1)) = omega (arith, p.0) in
        (
          omega (arith, p.0),
          subst (λ n. head_key (entries_at n (s ∷ ss)) ≡ some x.key) (sym behind) p.1,
        )

pub first_items-IsHeap : (iters : List Source) → IsHeap iters (first_items 0 iters)
first_items-IsHeap iters = record {
  covers = λ i. from_start i;
  current =
      All-map _ _ (first_items 0 iters) (λ x (p : HeadFrom 0 iters x). at_idx x p.1)
        (first_items-HeadFrom 0 iters);
  separate = first_items-Separate 0 iters;
}
  where
    from_start : (i : ℕ) → has_idx i (first_items 0 iters) ≡ not (is_nil (entries_at i iters))
    from_start i =
        let same : 0 + i ≡ i = omega arith in
        subst (λ n. has_idx n (first_items 0 iters) ≡ not (is_nil (entries_at i iters))) same
          (first_items-has_idx 0 i iters)

    at_idx :
        (x : HeapItem)
        → head_key (entries_at (x.idx - 0) iters) ≡ some x.key
        → head_key (entries_at x.idx iters) ≡ some x.key
    at_idx x h =
        let same : x.idx - 0 ≡ x.idx = omega arith in
        subst (λ n. head_key (entries_at n iters) ≡ some x.key) same h

All-other {ℓ} :
    (P : HeapItem → Type ℓ) (c : ℕ) (zs : List HeapItem)
    → has_idx c zs ≡ false
    → All P zs
    → All (λ z. P z × (c ≢ z.idx)) zs
unfolding has_idx
All-other P c [] h a = tt
All-other P c (z ∷ zs) h a =
    ((a.0, λ e. ground (arith, h, e)), All-other P c zs (ground (arith, h)) a.1)

-- The heap after the least item was taken and its iterator, now `t`, was moved on and pushed.
pub pushed-IsHeap :
    (iters : List Source) (x : HeapItem) (xs : List HeapItem) (s t : Source)
    → IsHeap iters (x ∷ xs)
    → get_elem? iters (pop_least x xs).0.idx ≡ some s
    → IsHeap
        (set iters (pop_least x xs).0.idx t)
        (item_of (pop_least x xs).0.idx t ++ (pop_least x xs).1)
pushed-IsHeap iters x xs s t ih at = record {
  covers = λ i. covered i;
  current = All-item_of _ c t rest (λ e h. ap (λ o. head_key (source_entries o)) here ∙ h) moved;
  separate = Separate-item_of c t rest gone.0 gone.1;
}
  where
    c : ℕ
    c = (pop_least x xs).0.idx

    rest : List HeapItem
    rest = (pop_least x xs).1

    here : get_elem? (set iters c t) c ≡ some t
    here = get_elem?-set iters c s t at

    gone : (has_idx c rest ≡ false) × Separate rest
    gone = pop_least-Separate x xs ih.separate

    covered :
        (i : ℕ) → has_idx i (item_of c t ++ rest) ≡ not (is_nil (entries_at i (set iters c t)))
    covered i = elim (Bool-cases (i == c)) [
      | inl e ↦
          let same : c ≡ i = ground (arith, e) in
          subst (λ n. has_idx n (item_of c t ++ rest) ≡ not (is_nil (entries_at n (set iters c t))))
            same at_c
      | inr e ↦
          let other : c ≢ i = λ k. ground (arith, e, k) in
          (has_idx-append i (item_of c t) rest
            ∙ ground (arith, e, has_idx-item_of i c t, has_idx-pop_least i x xs, ih.covers i))
          ∙ sym (ap (λ o. not (is_nil (source_entries o))) (get_elem?-set_ne iters t other))
    ]
      where
        at_c : has_idx c (item_of c t ++ rest) ≡ not (is_nil (entries_at c (set iters c t)))
        at_c =
            has_idx-append c (item_of c t) rest
            ∙ (ground (arith, has_idx-item_of c c t, gone.0))
            ∙ sym (ap (λ o. not (is_nil (source_entries o))) here)

    moved : All (λ z. head_key (entries_at z.idx (set iters c t)) ≡ some z.key) rest
    moved =
        All-map _ _ rest
          (λ z (p : (head_key (entries_at z.idx iters) ≡ some z.key) × (c ≢ z.idx)).
            ap (λ o. head_key (source_entries o)) (get_elem?-set_ne iters t p.1) ∙ p.0)
          (All-other _ c rest gone.0
            (pop_least-All (λ z. head_key (entries_at z.idx iters) ≡ some z.key) x xs (ih.current).0
              (ih.current).1).1)
