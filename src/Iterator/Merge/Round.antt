-- ===== src/Iterator/Merge/Round.antt =====
-- iterator/merge.go: one round of the merge, and the item that it takes.
use mathlib.Core.Path.{subst}
use lithicdb.Common.{
  ℕ, suc, ◌≡◌, refl, ap, ◌∙◌, sym, Bool, true, false, not, Bool-cases, inl, inr, Option, none, some,
  List, [], ◌∷◌, ◌++◌, arith, take, get_elem?, set, ◌==◌, if◌then◌else◌,
}
use lithicdb.Common.Bytes.{Bytes, All, NotAfter, NotAfter-trans, compare_bytes_refl}
use lithicdb.Common.Names.{All-map}
use lithicdb.Iterator.{Entry, Source, is_nil, next, err}
use lithicdb.Iterator.Merge.{
  HeapItem, MergeIterator, pop_least, item_of, source_entries, entries_at, advance, push_next,
  push_source, push, next_of, merge_next, merge_is_valid, merge_entry, merge_scan,
}
use lithicdb.Iterator.Merge.Least.{has_idx, pop_least-All, pop_least-least, has_idx-pop_least}
use lithicdb.Iterator.Merge.Sources.{head_key, IsHeap, KeysSorted, All-get_elem?, All-each}

-- No entry of the iterator comes before `k`.
abbrev pub From : Bytes → Source → Type 0
From k s = All (λ f. NotAfter k f.key) s.entries

-- The iterators are in order, and none ends with an error.
abbrev pub IsOrderly : Source → Type 0
IsOrderly s = KeysSorted s.entries × (s.fails ≡ false)

err-next : (s : Source) → s.fails ≡ false → err (next s) ≡ false
unfolding err next
err-next s ok = rw ok (ground arith)

pushed_source :
    (m : MergeIterator) (i : ℕ) (s : Source)
    → get_elem? m.iters i ≡ some s
    → s.fails ≡ false
    → push_next m i ≡ record m { iters = set m.iters i (next s); h = item_of i (next s) ++ m.h }
unfolding push_next
pushed_source m i s at ok =
    ap (λ (o : Option Source). elim o [ none ↦ m | some it ↦ push_source m i (next it) ]) at
    ∙ ap
        (λ (b : Bool).
          if b
          then record m { iters = set m.iters i (next s); failed = true }
          else record m { iters = set m.iters i (next s); h = item_of i (next s) ++ m.h })
        (err-next s ok)

pub merge_scan_round :
    (fuel : ℕ) (iters : List Source) (rest : List HeapItem) (c : HeapItem) (s : Source)
    → get_elem? iters c.idx ≡ some s
    → s.fails ≡ false
    → merge_scan (suc fuel) (record { iters = iters; h = rest; cur = some c; failed = false })
      ≡ push (take 1 s.entries) (
          merge_scan fuel (
            advance (record {
              iters = set iters c.idx (next s);
              h = item_of c.idx (next s) ++ rest;
              cur = some c;
              failed = false;
            })))
unfolding merge_scan merge_is_valid merge_entry merge_next next_of
merge_scan_round fuel iters rest c s at ok =
    let m : MergeIterator = record { iters = iters; h = rest; cur = some c; failed = false } in
    ap
      (λ (o : Option Source).
        push (take 1 (source_entries o)) (merge_scan fuel (go_on (push_next m c.idx))))
      at
    ∙ ap (λ (n : MergeIterator). push (take 1 s.entries) (merge_scan fuel (go_on n)))
        (pushed_source m c.idx s at ok)
  where
    go_on : MergeIterator → MergeIterator
    go_on n = if n.failed then n else advance n

NotAfter-refl : (k : Bytes) → NotAfter k k
NotAfter-refl k = ground (arith, compare_bytes_refl k)

find_idx {ℓ} :
    (P : HeapItem → Type ℓ) (i : ℕ) (zs : List HeapItem)
    → has_idx i zs ≡ true
    → All P zs
    → (z : HeapItem) × (z.idx ≡ i) × P z
unfolding has_idx
find_idx P i [] h a = cc
find_idx P i (z ∷ zs) h a = elim (Bool-cases (i == z.idx)) [
  | inl e ↦ (z, ground (arith, e), a.0)
  | inr e ↦ find_idx P i zs (ground (arith, h, e)) a.1
]

all_from :
    (k : Bytes) (e : Entry) (es : List Entry)
    → NotAfter k e.key
    → KeysSorted (e ∷ es)
    → All (λ f. NotAfter k f.key) (e ∷ es)
all_from k e es h s =
    (h, All-map _ _ es (λ f (p : NotAfter e.key f.key). NotAfter-trans k e.key f.key h p) s.0)

module _ (iters : List Source) (x : HeapItem) (xs : List HeapItem) (ih : IsHeap iters (x ∷ xs))
    (ok : All IsOrderly iters) where
  abbrev least : HeapItem
  least = (pop_least x xs).0

  abbrev others : List HeapItem
  others = (pop_least x xs).1

  abbrev Least : HeapItem → Type 0
  Least z = NotAfter least.key z.key × (head_key (entries_at z.idx iters) ≡ some z.key)

  heads :
      (head_key (entries_at least.idx iters) ≡ some least.key)
      × All (λ z. head_key (entries_at z.idx iters) ≡ some z.key) others
  heads =
      pop_least-All (λ z. head_key (entries_at z.idx iters) ≡ some z.key) x xs (ih.current).0
        (ih.current).1

  all_least : All Least (least ∷ others)
  all_least = ((NotAfter-refl least.key, heads.0), both others (pop_least-least x xs) heads.1)
    where
      both :
          (zs : List HeapItem)
          → All (λ z. NotAfter least.key z.key) zs
          → All (λ z. head_key (entries_at z.idx iters) ≡ some z.key) zs
          → All Least zs
      both [] a b = tt
      both (z ∷ zs) a b = ((a.0, b.0), both zs a.1 b.1)

  -- The least item's key comes before all that is left.
  pub From-least : All (From least.key) iters
  unfolding has_idx
  From-least = All-each (From least.key) iters one
    where
      of :
          (i : ℕ) (es : List Entry)
          → entries_at i iters ≡ es
          → KeysSorted es
          → All (λ f. NotAfter least.key f.key) es
      of i [] at s = tt
      of i (e ∷ es) at s =
          let covered : has_idx i (least ∷ others) ≡ true =
            sym (has_idx-pop_least i x xs) ∙ ih.covers i ∙ ap (λ l. not (is_nil l)) at in
          let (z, same, holds) = find_idx Least i (least ∷ others) covered all_least in
          let key : some e.key ≡ some z.key =
            sym (ap head_key at) ∙ ap (λ n. head_key (entries_at n iters)) (sym same) ∙ holds.1 in
          let equal : z.key ≡ e.key = cc in
          all_from least.key e es (subst (NotAfter least.key) equal holds.0) s

      one : (i : ℕ) (s : Source) → get_elem? iters i ≡ some s → From least.key s
      one i s at = of i s.entries (ap source_entries at) (All-get_elem? IsOrderly iters i s ok at).0

  -- The iterator that the least item stands for.
  pub least_source :
      (s : Source) × (e : Entry) × (es : List Entry) × (get_elem? iters least.idx ≡ some s)
      × (s.entries ≡ e ∷ es)
      × (e.key ≡ least.key)
  least_source = find (get_elem? iters least.idx) refl heads.0
    where
      take_head :
          (s : Source) (es : List Entry)
          → get_elem? iters least.idx ≡ some s
          → s.entries ≡ es
          → head_key es ≡ some least.key
          → (s : Source) × (e : Entry) × (es : List Entry) × (get_elem? iters least.idx ≡ some s)
            × (s.entries ≡ e ∷ es)
            × (e.key ≡ least.key)
      take_head s [] at e h = cc
      take_head s (e ∷ es) at k h = (s, e, es, at, k, cc)

      find :
          (o : Option Source)
          → get_elem? iters least.idx ≡ o
          → head_key (source_entries o) ≡ some least.key
          → (s : Source) × (e : Entry) × (es : List Entry) × (get_elem? iters least.idx ≡ some s)
            × (s.entries ≡ e ∷ es)
            × (e.key ≡ least.key)
      find none at h = cc
      find (some s) at h = take_head s s.entries at refl h
