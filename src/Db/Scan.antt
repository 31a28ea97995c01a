-- ===== src/Db/Scan.antt =====
-- db/read.go, db/snapshot.go and db/transaction.go: the scans over all layers.
pub mod Newest
pub mod Buffered
pub mod Ahead
mod Runs
use mathlib.Core.List.{Perm, flatten}
use lithicdb.Common.{
  ℕ, ◌+◌, ◌%◌, ◌^◌, ◌<◌, ◌≡◌, refl, ap, ◌∙◌, Option, none, some, List, [], ◌∷◌, ◌++◌, length, map,
  arith, false, Bool, true, if◌then◌else◌,
}
use lithicdb.Common.Bytes.{Bytes, All, bytes_lt}
use lithicdb.Kv.{Value, make_internal_key}
use lithicdb.Iterator.{Entry, Source, WriteBufferEntry, entry_of}
use lithicdb.Iterator.Visible.{newest_visible}
use lithicdb.Iterator.Merge.{new_merge_iterator, merge_scan}
use lithicdb.Iterator.Merge.Sources.{KeysSorted, all_entries}
use lithicdb.Iterator.Merge.Round.{IsOrderly}
use lithicdb.Iterator.Merge.Errors.{merged_source}
use lithicdb.Iterator.Scans.{source_of, scan_merged}
use lithicdb.Memtable.Scan.{scan}
use lithicdb.Db.Engine.{Engine, Table}
use lithicdb.Db.Engine.Log.{disk_tables}
use lithicdb.Db.Transaction.{Transaction, Writes}

-- `rawScan`: the active memtable, the immutable ones, L0 and the levels below. `table_scan` is what
-- `Reader.Scan` gives of a table.
unfoldable pub raw_sources : (Table → Source) → Engine → List Source
raw_sources table_scan db =
    scan db.active ∷ (map scan db.immutables ++ map table_scan (disk_tables db))

-- `Snapshot.Scan` at the snapshot's number, and `DB.Scan` at the current one.
unfoldable pub scan_at : (Table → Source) → ℕ → Engine → ℕ → Option (List Entry)
scan_at table_scan fuel db max_seq = scan_merged fuel max_seq (raw_sources table_scan db)

-- slices.SortFunc by the key.
unfoldable pub insert_entry : WriteBufferEntry → List WriteBufferEntry → List WriteBufferEntry
insert_entry e [] = e ∷ []
insert_entry e (f ∷ fs) =
    let rest = insert_entry e fs in if bytes_lt f.key e.key then f ∷ rest else e ∷ f ∷ fs

unfoldable pub sort_entries : List WriteBufferEntry → List WriteBufferEntry
sort_entries [] = []
sort_entries (e ∷ es) = insert_entry e (sort_entries es)

abbrev pub buffer_entry : ℕ → Bytes × Value → WriteBufferEntry
buffer_entry seq (k, v) = record { key = make_internal_key k seq; value = v }

unfoldable pub buffer_source : ℕ → Writes → Source
buffer_source seq ws = source_of (map entry_of (sort_entries (map (buffer_entry seq) ws)))

abbrev pub buffer_seq : Transaction → ℕ
buffer_seq tx = (tx.snapshot.seq + 1) % 2 ^ 64

-- `Transaction.Scan`: the buffer and the merge of all layers are merged once more.
unfoldable pub transaction_scan : (Table → Source) → ℕ → Engine → Transaction → Option (List Entry)
transaction_scan table_scan fuel db tx =
    elim (merged_source fuel (new_merge_iterator (raw_sources table_scan db))) [
      | none ↦ none
      | some raw ↦
          scan_merged fuel (buffer_seq tx) (buffer_source (buffer_seq tx) tx.writes ∷ raw ∷ [])
    ]
