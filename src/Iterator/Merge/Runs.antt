-- ===== src/Iterator/Merge/Runs.antt =====
-- iterator/merge.go: a run over two iterators.
use mathlib.Core.List.{Perm}
use lithicdb.Common.{ℕ, ◌≡◌, refl, false, none, some, List, [], ◌∷◌, arith}
use lithicdb.Common.Bytes.{All, compare_bytes}
use lithicdb.Iterator.{Entry, Source, next, err}
use lithicdb.Iterator.Merge.{
  new_merge_iterator, merge_scan, merge_is_valid, merge_entry, merge_next, next_of, push_next,
  advance, advance_on, first_items, pop_least, less,
}
use lithicdb.Iterator.Merge.Sources.{KeysSorted, all_entries}
use lithicdb.Iterator.Merge.Round.{IsOrderly}
use lithicdb.Iterator.Merge.Output.{merge_scan-IsMerge}

abbrev entry : ℕ → Entry
entry b = record { key = b ∷ []; value = none }

abbrev two : List Source
two =
    (record { entries = entry 2 ∷ entry 5 ∷ []; fails = false })
    ∷ (record { entries = entry 1 ∷ entry 5 ∷ entry 7 ∷ []; fails = false })
    ∷ []

two-IsOrderly : All IsOrderly two
unfolding compare_bytes
two-IsOrderly =
    ((((refl, tt), (tt, tt)), refl), ((((refl, (refl, tt)), ((refl, tt), (tt, tt))), refl), tt))

merge_scan-IsMerge_example :
    (out : List Entry) × (merge_scan 6 (new_merge_iterator two) ≡ some out)
    × Perm out (all_entries two)
    × KeysSorted out
merge_scan-IsMerge_example =
    merge_scan-IsMerge two 6 two-IsOrderly (unfold all_entries in omega arith)

merged :
    merge_scan 6 (new_merge_iterator two)
    ≡ some (entry 1 ∷ entry 2 ∷ entry 5 ∷ entry 5 ∷ entry 7 ∷ [])
unfolding merge_scan merge_is_valid merge_entry merge_next next_of push_next advance advance_on
    new_merge_iterator first_items pop_least less compare_bytes next err
merged = refl
