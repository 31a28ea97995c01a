-- ===== src/Iterator/Scans.antt =====
-- iterator/: the snapshot iterator on top of the merge, as every scan of the engine has it.
use lithicdb.Common.{
  ℕ, ◌≡◌, ap, ◌∙◌, sym, ◌<◌, Option, none, some, List, [], ◌∷◌, arith, length, inl, false,
}
use lithicdb.Common.Bytes.{All, NotAfter}
use lithicdb.Common.Names.{All-map}
use lithicdb.Iterator.{Entry, Source}
use lithicdb.Iterator.Snapshot.{new_snapshot_iterator, scan}
use lithicdb.Iterator.Visible.{user_key_of, newest_visible, HasKey}
use lithicdb.Iterator.Grouped.{IsInternal, MayPrecede, IsSorted, scan-IsSorted}
use lithicdb.Iterator.Merge.{new_merge_iterator}
use lithicdb.Iterator.Merge.Sources.{KeysSorted, all_entries}
use lithicdb.Iterator.Merge.Round.{IsOrderly}
use lithicdb.Iterator.Merge.Errors.{merged_source, merged_source_lem}
use lithicdb.Iterator.Merge.Output.{IsMerge, merge_scan_all}

abbrev pub source_of : List Entry → Source
source_of es = record { entries = es; fails = false }

-- What a client reads from a snapshot iterator at `max_seq` over the merge of the sources. Running the
-- merge to its end first gives the same, since the snapshot iterator only passes on what it reads.
unfoldable pub scan_merged : ℕ → ℕ → List Source → Option (List Entry)
scan_merged fuel max_seq sources = elim (merged_source fuel (new_merge_iterator sources)) [
  | none ↦ none
  | some merged ↦ scan fuel (new_snapshot_iterator merged max_seq)
]

-- An internal key whose user key has `n` bytes.
pub record HasWidth (n : ℕ) (e : Entry) : Type 0 where
  pub internal : IsInternal e
  pub width : length (user_key_of e) ≡ n

module _ (n : ℕ) where
  HasWidth-IsSorted : (es : List Entry) → All (HasWidth n) es → KeysSorted es → IsSorted es
  HasWidth-IsSorted [] a s = tt
  HasWidth-IsSorted (e ∷ es) a s = ((a.0).internal, both es a.1 s.0, HasWidth-IsSorted es a.1 s.1)
    where
      both :
          (fs : List Entry)
          → All (HasWidth n) fs
          → All (λ f. NotAfter e.key f.key) fs
          → All (MayPrecede e) fs
      both [] b o = tt
      both (f ∷ fs) b o =
          (record { in_order = o.0; apart = inl ((a.0).width ∙ sym (b.0).width) }, both fs b.1 o.1)

  pub scan_merged_all :
      (sources : List Source) (max_seq fuel : ℕ)
      → 0 < n
      → All IsOrderly sources
      → All (λ s. All (HasWidth n) s.entries) sources
      → length (all_entries sources) < fuel
      → (out : List Entry) × IsMerge sources out
        × (scan_merged fuel max_seq sources ≡ some (newest_visible max_seq [] out))
  unfolding scan_merged
  scan_merged_all sources max_seq fuel pos ok wide h =
      let (out, scanned, merged) = merge_scan_all sources fuel ok h in
      let (fails, ended) = merged_source_lem fuel (new_merge_iterator sources) out scanned in
      let good = merged.every (HasWidth n) wide in
      let keys : All HasKey out =
        All-map _ _ out (λ e (p : HasWidth n e). omega (arith, p.width)) good in
      let short : length out < fuel = omega (arith, merged.counted) in
      (
        out,
        merged,
        ap
              (λ (o : Option Source). elim o [
                | none ↦ none
                | some given ↦ scan fuel (new_snapshot_iterator given max_seq)
              ])
              ended
            ∙ scan-IsSorted (record { entries = out; fails = fails }) max_seq fuel keys
                (HasWidth-IsSorted out good merged.sorted) short,
      )
