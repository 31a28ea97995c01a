-- ===== src/Manifest/State.antt =====
-- manifest/manifest.go: the state, its operations and `Open`. What the system calls do is an
-- argument.
use lithicdb.Common.{
  ℕ, zero, suc, ◌+◌, Bool, true, false, List, [], ◌∷◌, ◌++◌, length, take, drop, ltb, ◌==◌,
  if◌then◌else◌, Option, none, some,
}
use lithicdb.Common.Bytes.{Bytes, bytes_eq}
use lithicdb.Manifest.{
  SsTableInfo, HnswSnapshotInfo, Record, sstable_added, sstable_removed, snapshot, next_ids,
  hnsw_snapshot, Error, ok, err, short_record, corrupt_record, unknown_type, encode_record,
  decode_record,
}
use lithicdb.Manifest.Keyed.{put, delete, put_all}

abbrev pub snapshot_interval : ℕ
snapshot_interval = 64

-- The part of a Manifest that a replay rebuilds. An entry carries its key, so a map is the list of
-- its values in one order.
pub record Contents : Type 0 where
  pub tables : List SsTableInfo
  pub hnsw_snapshots : List HnswSnapshotInfo
  pub next_mem_id : ℕ
  pub next_seq : ℕ

-- An open manifest, with the bytes of its file.
pub record Manifest : Type 0 where
  pub contents : Contents
  pub records_since_snapshot : ℕ
  pub file : Bytes

unfoldable pub put_table : SsTableInfo → List SsTableInfo → List SsTableInfo
put_table info ts = put (λ t. t.id) (λ a b. a == b) info ts

unfoldable pub put_hnsw : HnswSnapshotInfo → List HnswSnapshotInfo → List HnswSnapshotInfo
put_hnsw h hs = put (λ x. x.collection) bytes_eq h hs

unfoldable pub apply_record : Record → Contents → Contents
apply_record (sstable_added info) c = record c { tables = put_table info c.tables }
apply_record (sstable_removed id level) c = record c {
  tables = delete (λ t. t.id) (λ a b. a == b) id c.tables;
}
apply_record (snapshot ts hs) c = record c {
  tables = put_all (λ t. t.id) (λ a b. a == b) ts [];
  hnsw_snapshots = put_all (λ x. x.collection) bytes_eq hs [];
}
apply_record (next_ids mem seq) c = record c { next_mem_id = mem; next_seq = seq }
apply_record (hnsw_snapshot h) c = record c { hnsw_snapshots = put_hnsw h c.hnsw_snapshots }

-- What Write and Sync do: all bytes reach the file, or only some, or Sync reports an error.
pub data Write : Type 0 where
  written : Write
  torn : ℕ → Write
  unsynced : Write

-- The manifest behind a call, and whether it returned nil.
unfoldable pub write_record : Write → Record → Manifest → Manifest × Bool
write_record written r m = (
  record m {
    file = m.file ++ encode_record r;
    records_since_snapshot = m.records_since_snapshot + 1;
  },
  true,
)
write_record (torn n) r m = (record m { file = m.file ++ take n (encode_record r) }, false)
write_record unsynced r m = (record m { file = m.file ++ encode_record r }, false)

abbrev pub empty : Contents
empty = record { tables = []; hnsw_snapshots = []; next_mem_id = 0; next_seq = 0 }

-- `Create`, where the directory and the file can be made.
unfoldable pub create : Write → ℕ → ℕ → Option Manifest
create w mem seq =
    let start : Manifest = record {
      contents = record empty { next_mem_id = mem; next_seq = seq };
      records_since_snapshot = 0;
      file = [];
    } in
    let s = write_record w (next_ids mem seq) start in if s.1 then some (s.0) else none

abbrev pub snapshot_of : Contents → Record
snapshot_of c = snapshot c.tables c.hnsw_snapshots

abbrev pub ids_of : Contents → Record
ids_of c = next_ids c.next_mem_id c.next_seq

-- `w` gives the outcome of each write.
unfoldable pub maybe_snapshot : (ℕ → Write) → Manifest → Manifest × Bool
maybe_snapshot w m =
    if ltb m.records_since_snapshot snapshot_interval
    then (m, true)
    else let s = write_record (w 1) (snapshot_of m.contents) m in
      let t = write_record (w 2) (ids_of m.contents) (s.0) in
      if s.1 then (if t.1 then (record (t.0) { records_since_snapshot = 0 }, true) else t) else s

-- The update of the maps behind a record that was written.
abbrev pub applied : Record → Manifest → Manifest
applied r m = record m { contents = apply_record r m.contents }

unfoldable pub add_sstable : (ℕ → Write) → SsTableInfo → Manifest → Manifest × Bool
add_sstable w info m =
    let s = write_record (w 0) (sstable_added info) m in
    if s.1 then maybe_snapshot w (applied (sstable_added info) (s.0)) else s

unfoldable pub remove_sstable : (ℕ → Write) → ℕ → ℕ → Manifest → Manifest × Bool
remove_sstable w id level m =
    let s = write_record (w 0) (sstable_removed id level) m in
    if s.1 then maybe_snapshot w (applied (sstable_removed id level) (s.0)) else s

-- The counters change before the record is written.
unfoldable pub update_next_ids : (ℕ → Write) → ℕ → ℕ → Manifest → Manifest × Bool
update_next_ids w mem seq m = write_record (w 0) (next_ids mem seq) (applied (next_ids mem seq) m)

unfoldable pub add_hnsw_snapshot : (ℕ → Write) → HnswSnapshotInfo → Manifest → Manifest × Bool
add_hnsw_snapshot w h m =
    let s = write_record (w 0) (hnsw_snapshot h) m in
    if s.1 then (applied (hnsw_snapshot h) (s.0), true) else s

-- The replay of `Open`: the contents, or the error. `stuck` is no Go behaviour: no fuel is left.
pub data Opened : Type 0 where
  opened : Contents → Opened
  failed : Error → Opened
  stuck : Opened

-- A corrupt or short record ends the replay; another error is returned.
unfoldable pub replay : ℕ → Bytes → Contents → Opened
replay fuel [] c = opened c
replay zero (b ∷ bs) c = stuck
replay (suc fuel) (b ∷ bs) c = elim (decode_record (b ∷ bs)) [
  | ok (r, n) ↦ replay fuel (drop n (b ∷ bs)) (apply_record r c)
  | err corrupt_record ↦ opened c
  | err short_record ↦ opened c
  | err unknown_type ↦ failed unknown_type
]

unfoldable pub open_manifest : Bytes → Opened
open_manifest bs = replay (length bs) bs empty
