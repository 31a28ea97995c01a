-- ===== src/Iterator/Merge/Output.antt =====
-- iterator/merge.go: what the merge gives, in which order, and that it ends.
use mathlib.Core.Path.{subst}
use mathlib.Core.List.{Perm}
use mathlib.Core.List.Perm
use lithicdb.Common.{
  ℕ, zero, suc, ◌<◌, ◌≡◌, refl, ap, ◌∙◌, sym, Bool, true, false, Option, none, some, List, [], ◌∷◌,
  ◌++◌, arith, length, drop, take, get_elem?, set, ◌||◌,
}
use lithicdb.Common.Bytes.{All, NotAfter}
use lithicdb.Iterator.{Entry, Source, is_nil, next}
use lithicdb.Iterator.Merge.{
  HeapItem, pop_least, item_of, first_items, entries_at, advance, advance_on, new_merge_iterator,
  push, merge_is_valid, merge_scan,
}
use lithicdb.Iterator.Merge.Least.{has_idx}
use lithicdb.Iterator.Merge.Sources.{
  IsHeap, KeysSorted, all_entries, All-get_elem?, All-set, all_entries-set, any_entry,
  any_entry-all_entries-set, length-all_entries-set, all_entries-nil,
}
use lithicdb.Iterator.Merge.Heaps.{first_items-IsHeap, pushed-IsHeap}
use lithicdb.Iterator.Merge.Round.{From, IsOrderly, merge_scan_round, From-least, least_source}

-- All entries of the iterators, each once, in the order of their keys.
pub record IsMerge (iters : List Source) (out : List Entry) : Type 1 where
  pub complete : Perm out (all_entries iters)
  pub counted : length out ≡ length (all_entries iters)
  pub same_tests : (p : Entry → Bool) → any_entry p out ≡ any_entry p (all_entries iters)
  pub sorted : KeysSorted out
  pub every : (P : Entry → Type 0) → All (λ s. All P s.entries) iters → All P out

-- What is left is a merge too, behind the first entry.
IsMerge-cons :
    (iters : List Source) (i : ℕ) (s : Source) (e : Entry) (es out : List Entry)
    → All IsOrderly iters
    → get_elem? iters i ≡ some s
    → s.entries ≡ e ∷ es
    → All (From e.key) iters
    → IsMerge (set iters i (record s { entries = es })) out
    → IsMerge iters (e ∷ out)
IsMerge-cons iters i s e es out ok at first low rest = record {
  complete = Perm.trans (Perm.cons e rest.complete) (all_entries-set iters i s e es at first);
  counted = omega (arith, rest.counted, length-all_entries-set iters i s e es at first);
  same_tests = λ p. kept p;
  sorted =
      (rest.every (λ f. NotAfter e.key f.key) (moved (λ f. NotAfter e.key f.key) low), rest.sorted);
  every = λ P a. ((split P a).0, rest.every P (moved P a));
}
  where
    kept : (p : Entry → Bool) → any_entry p (e ∷ out) ≡ any_entry p (all_entries iters)
    kept p =
        let behind = any_entry-all_entries-set p iters i s e es at first in
        unfold any_entry in ap (λ b. p e || b) (rest.same_tests p) ∙ sym behind

    split : (P : Entry → Type 0) → All (λ s. All P s.entries) iters → All P (e ∷ es)
    split P a = subst (All P) first (All-get_elem? (λ s. All P s.entries) iters i s a at)

    moved :
        (P : Entry → Type 0)
        → All (λ s. All P s.entries) iters
        → All (λ s. All P s.entries) (set iters i (record s { entries = es }))
    moved P a = All-set (λ s. All P s.entries) iters i (record s { entries = es }) a (split P a).1

IsMerge-nil : (iters : List Source) → IsHeap iters [] → IsMerge iters []
IsMerge-nil iters ih =
    let gone : all_entries iters ≡ [] = all_entries-nil iters nothing in
    record {
      complete = subst (Perm []) (sym gone) (Perm.refl []);
      counted = ap length (sym gone);
      same_tests = λ p. ap (any_entry p) (sym gone);
      sorted = tt;
      every = λ P a. tt;
    }
  where
    nothing : (i : ℕ) → is_nil (entries_at i iters) ≡ true
    nothing i = unfold has_idx in ground (arith, ih.covers i)

-- The scan from a heap that stands for the iterators.
advance-IsMerge :
    (fuel : ℕ) (iters : List Source) (h : List HeapItem) (cur : Option HeapItem)
    → IsHeap iters h
    → All IsOrderly iters
    → length (all_entries iters) < fuel
    → (out : List Entry) × (merge_scan fuel
          (advance (record { iters = iters; h = h; cur = cur; failed = false }))
        ≡ some out)
      × IsMerge iters out
unfolding advance advance_on next
advance-IsMerge zero iters h cur ih ok l = absurd (omega arith)
advance-IsMerge (suc fuel) iters [] cur ih ok l = ([], ended, IsMerge-nil iters ih)
  where
    ended :
        merge_scan (suc fuel) (record { iters = iters; h = []; cur = none; failed = false })
        ≡ some []
    ended = unfold merge_scan merge_is_valid in refl
advance-IsMerge (suc fuel) iters (x ∷ xs) cur ih ok l =
    let (s, e, es, at, first, key) = least_source iters x xs ih ok in
    let c = (pop_least x xs).0 in
    let t : Source = record s { entries = es } in
    let moved : next s ≡ t = ap (λ l. record s { entries = drop 1 l }) first in
    let good = All-get_elem? IsOrderly iters c.idx s ok at in
    let tail : KeysSorted es = (subst KeysSorted first good.0).1 in
    let shorter = length-all_entries-set iters c.idx s e es at first in
    let (out, scanned, merged) =
      advance-IsMerge fuel (set iters c.idx t) (item_of c.idx t ++ (pop_least x xs).1) (some c)
        (pushed-IsHeap iters x xs s t ih at) (All-set IsOrderly iters c.idx t ok (tail, good.1))
        (omega (arith, shorter)) in
    (
      e ∷ out,
      merge_scan_round fuel iters (pop_least x xs).1 c s at good.1
          ∙ ap
              (λ (r : Source). push (take 1 s.entries) (
                merge_scan fuel (
                  advance (record {
                    iters = set iters c.idx r;
                    h = item_of c.idx r ++ (pop_least x xs).1;
                    cur = some c;
                    failed = false;
                  }))))
              moved
          ∙ ap (push (take 1 s.entries)) scanned
          ∙ ap (λ l. push (take 1 l) (some out)) first,
      IsMerge-cons iters c.idx s e es out ok at first
          (subst (λ k. All (From k) iters) (sym key) (From-least iters x xs ih ok)) merged,
    )

pub merge_scan_all :
    (iters : List Source) (fuel : ℕ)
    → All IsOrderly iters
    → length (all_entries iters) < fuel
    → (out : List Entry) × (merge_scan fuel (new_merge_iterator iters) ≡ some out)
      × IsMerge iters out
unfolding new_merge_iterator
merge_scan_all iters fuel ok h =
    advance-IsMerge fuel iters (first_items 0 iters) none (first_items-IsHeap iters) ok h

-- On iterators in the order of their keys, none of which ends with an error, the merge gives all
-- their entries, each as often as they do, in the order of the keys, and its loop ends within one
-- round more than there are entries.
pub merge_scan-IsMerge :
    (iters : List Source) (fuel : ℕ)
    → All IsOrderly iters
    → length (all_entries iters) < fuel
    → (out : List Entry) × (merge_scan fuel (new_merge_iterator iters) ≡ some out)
      × Perm out (all_entries iters)
      × KeysSorted out
merge_scan-IsMerge iters fuel ok h =
    let (out, scanned, merged) = merge_scan_all iters fuel ok h in
    (out, scanned, merged.complete, merged.sorted)
