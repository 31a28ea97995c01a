-- ===== src/Db/Scan/Newest.antt =====
-- db/read.go and db/transaction.go: what the scans give.
use mathlib.Core.List.{Perm, flatten}
use mathlib.Core.Path.{subst}
use lithicdb.Common.{
  ℕ, ◌<◌, ◌≡◌, refl, ap, sym, ◌∙◌, some, List, [], ◌∷◌, ◌++◌, append_assoc, length, map,
}
use lithicdb.Common.Bytes.{All}
use lithicdb.Iterator.{Entry, Source}
use lithicdb.Iterator.Visible.{newest_visible}
use lithicdb.Iterator.Merge.Sources.{KeysSorted, all_entries}
use lithicdb.Iterator.Merge.Round.{IsOrderly}
use lithicdb.Iterator.Scans.{HasWidth, scan_merged_all}
use lithicdb.Memtable.{Memtable}
use lithicdb.Memtable.Scan.{entry_of_node, scan}
use lithicdb.Db.Engine.{Engine, Table, below_l0}
use lithicdb.Db.Engine.Log.{disk_tables}
use lithicdb.Db.Scan.{raw_sources, scan_at}

-- Everything that the engine stores: the nodes of the memtables, and what each table gives.
unfoldable pub memtable_entries : List Memtable → List Entry
memtable_entries [] = []
memtable_entries (m ∷ ms) = map entry_of_node (m.sl).nodes ++ memtable_entries ms

module _ (table_scan : Table → Source) where
  unfoldable pub table_entries : List Table → List Entry
  table_entries [] = []
  table_entries (t ∷ ts) = (table_scan t).entries ++ table_entries ts

  unfoldable pub level_entries : List (List Table) → List Entry
  level_entries [] = []
  level_entries (level ∷ levels) = table_entries level ++ level_entries levels

  unfoldable pub stored_entries : Engine → List Entry
  stored_entries db =
      memtable_entries (db.active ∷ db.immutables)
      ++ (table_entries db.l0 ++ level_entries (below_l0 db.levels))

  -- A property of what every memtable and every table gives.
  pub record AllLayers (P : Source → Type 0) (db : Engine) : Type 0 where
    pub memtables : All (λ m. P (scan m)) (db.active ∷ db.immutables)
    pub l0 : All (λ t. P (table_scan t)) db.l0
    pub levels : All (λ level. All (λ t. P (table_scan t)) level) (below_l0 db.levels)

  all_entries-append :
      (xs ys : List Source) → all_entries (xs ++ ys) ≡ all_entries xs ++ all_entries ys
  unfolding all_entries
  all_entries-append [] ys = refl
  all_entries-append (x ∷ xs) ys =
      ap (λ l. x.entries ++ l) (all_entries-append xs ys)
      ∙ sym (append_assoc x.entries (all_entries xs) (all_entries ys))

  all_entries-memtables : (ms : List Memtable) → all_entries (map scan ms) ≡ memtable_entries ms
  unfolding all_entries memtable_entries scan
  all_entries-memtables [] = refl
  all_entries-memtables (m ∷ ms) =
      ap (λ l. map entry_of_node (m.sl).nodes ++ l) (all_entries-memtables ms)

  all_entries-tables : (ts : List Table) → all_entries (map table_scan ts) ≡ table_entries ts
  unfolding all_entries table_entries
  all_entries-tables [] = refl
  all_entries-tables (t ∷ ts) = ap (λ l. (table_scan t).entries ++ l) (all_entries-tables ts)

  table_entries-append :
      (xs ys : List Table) → table_entries (xs ++ ys) ≡ table_entries xs ++ table_entries ys
  unfolding table_entries
  table_entries-append [] ys = refl
  table_entries-append (x ∷ xs) ys =
      ap (λ l. (table_scan x).entries ++ l) (table_entries-append xs ys)
      ∙ sym (append_assoc (table_scan x).entries (table_entries xs) (table_entries ys))

  table_entries-flatten :
      (levels : List (List Table)) → table_entries (flatten levels) ≡ level_entries levels
  unfolding table_entries level_entries flatten
  table_entries-flatten [] = refl
  table_entries-flatten (level ∷ levels) =
      table_entries-append level (flatten levels)
      ∙ ap (λ l. table_entries level ++ l) (table_entries-flatten levels)

  all_entries-raw_sources :
      (db : Engine) → all_entries (raw_sources table_scan db) ≡ stored_entries db
  unfolding raw_sources stored_entries
  all_entries-raw_sources db =
      all_entries-append (map scan (db.active ∷ db.immutables)) (map table_scan (disk_tables db))
      ∙ ap (λ l. l ++ all_entries (map table_scan (disk_tables db)))
          (all_entries-memtables (db.active ∷ db.immutables))
      ∙ ap (λ l. memtable_entries (db.active ∷ db.immutables) ++ l)
          (all_entries-tables (disk_tables db)
            ∙ table_entries-append db.l0 (flatten (below_l0 db.levels))
            ∙ ap (λ l. table_entries db.l0 ++ l) (table_entries-flatten (below_l0 db.levels)))

  module _ (P : Source → Type 0) where
    All-append_both : (xs ys : List Source) → All P xs → All P ys → All P (xs ++ ys)
    All-append_both [] ys a b = b
    All-append_both (x ∷ xs) ys a b = (a.0, All-append_both xs ys a.1 b)

    All-memtables : (ms : List Memtable) → All (λ m. P (scan m)) ms → All P (map scan ms)
    All-memtables [] a = tt
    All-memtables (m ∷ ms) a = (a.0, All-memtables ms a.1)

    All-tables :
        (ts : List Table) (rest : List Table)
        → All (λ t. P (table_scan t)) ts
        → All P (map table_scan rest)
        → All P (map table_scan (ts ++ rest))
    All-tables [] rest a b = b
    All-tables (t ∷ ts) rest a b = (a.0, All-tables ts rest a.1 b)

    All-levels :
        (levels : List (List Table))
        → All (λ level. All (λ t. P (table_scan t)) level) levels
        → All P (map table_scan (flatten levels))
    unfolding flatten
    All-levels [] a = tt
    All-levels (level ∷ levels) a = All-tables level (flatten levels) a.0 (All-levels levels a.1)

    All-raw_sources : (db : Engine) → AllLayers P db → All P (raw_sources table_scan db)
    unfolding raw_sources
    All-raw_sources db a =
        All-append_both (map scan (db.active ∷ db.immutables)) (map table_scan (disk_tables db))
          (All-memtables (db.active ∷ db.immutables) a.memtables)
          (All-tables db.l0 (flatten (below_l0 db.levels)) a.l0
            (All-levels (below_l0 db.levels) a.levels))

-- When every memtable and every table gives internal keys in order, without errors, with user keys of
-- one length that is not 0, a scan at a sequence number gives of each user key the newest of all
-- entries that the active memtable, the immutable ones, L0 and the levels below it store whose number
-- is not above it, in the order of the keys. Its loops end within one round more than there are
-- entries.
pub scan_at-newest_visible :
    (table_scan : Table → Source) (db : Engine) (n max_seq fuel : ℕ)
    → 0 < n
    → AllLayers table_scan IsOrderly db
    → AllLayers table_scan (λ s. All (HasWidth n) s.entries) db
    → length (stored_entries table_scan db) < fuel
    → (out : List Entry) × Perm out (stored_entries table_scan db)
      × KeysSorted out
      × (scan_at table_scan fuel db max_seq ≡ some (newest_visible max_seq [] out))
unfolding scan_at
scan_at-newest_visible table_scan db n max_seq fuel pos ok wide h =
    let same = all_entries-raw_sources table_scan db in
    let short : length (all_entries (raw_sources table_scan db)) < fuel =
      subst (λ (l : List Entry). length l < fuel) (sym same) h in
    let (out, merged, given) =
      scan_merged_all n (raw_sources table_scan db) max_seq fuel pos
        (All-raw_sources table_scan IsOrderly db ok)
        (All-raw_sources table_scan (λ s. All (HasWidth n) s.entries) db wide) short in
    (out, subst (Perm out) same merged.complete, merged.sorted, given)
