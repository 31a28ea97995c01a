-- ===== src/Iterator/Merge/Errors.antt =====
-- iterator/merge.go: the merge as a source for the iterator above it, with its error at the end.
use lithicdb.Common.{
  ℕ, zero, suc, ◌≡◌, refl, ap, ◌∙◌, Bool, true, false, if_both, Option, none, some, List, [], ◌∷◌,
  ◌++◌, arith, get_elem?,
}
use mathlib.Core.Path.{subst}
use lithicdb.Common.Bytes.{All}
use lithicdb.Iterator.{Entry, Source, next, err}
use lithicdb.Iterator.Merge.{
  MergeIterator, HeapItem, advance, advance_on, push, push_next, push_source, next_of,
  merge_is_valid, merge_next, merge_entry, merge_scan, new_merge_iterator,
}
use lithicdb.Iterator.Merge.Sources.{All-get_elem?, All-set}

abbrev in_front : List Entry → Option Source → Option Source
in_front es none = none
in_front es (some s) = some (record s { entries = es ++ s.entries })

-- What the merge gives, and whether its Err is set when it is no longer valid. `none`: no fuel.
unfoldable pub merged_source : ℕ → MergeIterator → Option Source
merged_source zero m = none
merged_source (suc fuel) m = elim (merge_is_valid m) [
  | true ↦ in_front (merge_entry m) (merged_source fuel (merge_next m))
  | false ↦ some (record { entries = []; fails = m.failed })
]

abbrev entries_of : Option Source → Option (List Entry)
entries_of none = none
entries_of (some s) = some s.entries

entries_of-in_front :
    (es : List Entry) (o : Option Source) → entries_of (in_front es o) ≡ push es (entries_of o)
entries_of-in_front es none = refl
entries_of-in_front es (some s) = refl

merge_scan-merged_source :
    (fuel : ℕ) (m : MergeIterator) → entries_of (merged_source fuel m) ≡ merge_scan fuel m
unfolding merged_source merge_scan
merge_scan-merged_source zero m = refl
merge_scan-merged_source (suc fuel) m =
    by_validity (merge_is_valid m) (merge_scan-merged_source fuel (merge_next m))
  where
    by_validity :
        (v : Bool)
        → entries_of (merged_source fuel (merge_next m)) ≡ merge_scan fuel (merge_next m)
        → entries_of (elim v [
          | true ↦ in_front (merge_entry m) (merged_source fuel (merge_next m))
          | false ↦ some (record { entries = []; fails = m.failed })
        ])
          ≡ (elim v [
            | true ↦ push (merge_entry m) (merge_scan fuel (merge_next m))
            | false ↦ some []
          ])
    by_validity true rest =
        entries_of-in_front (merge_entry m) (merged_source fuel (merge_next m))
        ∙ ap (push (merge_entry m)) rest
    by_validity false rest = refl

with_entries :
    (o : Option Source) (out : List Entry)
    → entries_of o ≡ some out
    → (fails : Bool) × (o ≡ some (record { entries = out; fails = fails }))
with_entries none out e = cc
with_entries (some s) out e =
    let same : s.entries ≡ out = cc in
    (s.fails, ap (λ (l : List Entry). some (record { entries = l; fails = s.fails })) same)

pub merged_source_lem :
    (fuel : ℕ) (m : MergeIterator) (out : List Entry)
    → merge_scan fuel m ≡ some out
    → (fails : Bool) × (merged_source fuel m ≡ some (record { entries = out; fails = fails }))
merged_source_lem fuel m out e =
    with_entries (merged_source fuel m) out (merge_scan-merged_source fuel m ∙ e)

-- No source ends with an error, and none has been met.
pub record IsSound (m : MergeIterator) : Type 0 where
  pub sources : All (λ s. s.fails ≡ false) m.iters
  pub no_error : m.failed ≡ false

advance-IsSound : (m : MergeIterator) → IsSound m → IsSound (advance m)
unfolding advance advance_on
advance-IsSound m h = on m.h
  where
    on : (xs : List HeapItem) → IsSound (advance_on m xs)
    on [] = record { sources = h.sources; no_error = h.no_error }
    on (x ∷ xs) = record { sources = h.sources; no_error = h.no_error }

push_source-IsSound :
    (m : MergeIterator) (i : ℕ) (it : Source)
    → IsSound m
    → it.fails ≡ false
    → IsSound (push_source m i it)
unfolding err
push_source-IsSound m i it h sound =
    let kept = All-set (λ s. s.fails ≡ false) m.iters i it h.sources sound in
    let clean : err it ≡ false = ground (arith, sound) in
    rw clean (record { sources = kept; no_error = h.no_error })

push_next-IsSound : (m : MergeIterator) (i : ℕ) → IsSound m → IsSound (push_next m i)
unfolding push_next next
push_next-IsSound m i h = at (get_elem? m.iters i) refl
  where
    at :
        (o : Option Source)
        → get_elem? m.iters i ≡ o
        → IsSound (elim o [ none ↦ m | some it ↦ push_source m i (next it) ])
    at none e = h
    at (some it) e =
        push_source-IsSound m i (next it) h
          (All-get_elem? (λ s. s.fails ≡ false) m.iters i it h.sources e)

next_of-IsSound : (m : MergeIterator) (c : Option HeapItem) → IsSound m → IsSound (next_of m c)
unfolding next_of
next_of-IsSound m none h = h
next_of-IsSound m (some c) h =
    let pushed = push_next-IsSound m c.idx h in
    if_both IsSound m.failed h (
      if_both IsSound (push_next m c.idx).failed pushed
        (advance-IsSound (push_next m c.idx) pushed))

abbrev EndsWell : Option Source → Type 0
EndsWell none = Unit
EndsWell (some s) = s.fails ≡ false

in_front-EndsWell : (es : List Entry) (o : Option Source) → EndsWell o → EndsWell (in_front es o)
in_front-EndsWell es none h = tt
in_front-EndsWell es (some s) h = h

merged_source-EndsWell :
    (fuel : ℕ) (m : MergeIterator) → IsSound m → EndsWell (merged_source fuel m)
unfolding merged_source merge_next
merged_source-EndsWell zero m h = tt
merged_source-EndsWell (suc fuel) m h =
    by_validity (merge_is_valid m)
      (merged_source-EndsWell fuel (merge_next m) (next_of-IsSound m m.cur h))
  where
    by_validity :
        (v : Bool)
        → EndsWell (merged_source fuel (merge_next m))
        → EndsWell (elim v [
          | true ↦ in_front (merge_entry m) (merged_source fuel (merge_next m))
          | false ↦ some (record { entries = []; fails = m.failed })
        ])
    by_validity true rest = in_front-EndsWell (merge_entry m) _ rest
    by_validity false rest = h.no_error

new_merge_iterator-IsSound :
    (iters : List Source) → All (λ s. s.fails ≡ false) iters → IsSound (new_merge_iterator iters)
unfolding new_merge_iterator
new_merge_iterator-IsSound iters h = advance-IsSound _ (record { sources = h; no_error = refl })

-- A merge of sources without errors ends without one.
pub merged_source_sound :
    (fuel : ℕ) (iters : List Source) (out : List Entry)
    → All (λ s. s.fails ≡ false) iters
    → merge_scan fuel (new_merge_iterator iters) ≡ some out
    → merged_source fuel (new_merge_iterator iters) ≡ some (record { entries = out; fails = false })
merged_source_sound fuel iters out h e =
    let (fails, given) = merged_source_lem fuel (new_merge_iterator iters) out e in
    let well : fails ≡ false = subst EndsWell given (
      merged_source-EndsWell fuel (new_merge_iterator iters)
        (new_merge_iterator-IsSound iters h)) in
    given ∙ ap (λ (b : Bool). some (record { entries = out; fails = b })) well
