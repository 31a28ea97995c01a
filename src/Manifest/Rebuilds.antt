-- ===== src/Manifest/Rebuilds.antt =====
-- manifest/manifest.go: a file whose records rebuild the contents, and one more record in it.
use lithicdb.Common.{
  ℕ, ◌≡◌, refl, sym, ap, ◌∙◌, true, List, [], ◌∷◌, ◌++◌, append-nil, append_assoc, arith, ◌==◌,
}
use lithicdb.Common.Bytes.{Bytes, All, bytes_eq, bytes_eq_iff}
use mathlib.Core.Path.{subst}
use lithicdb.Manifest.{
  SsTableInfo, HnswSnapshotInfo, Record, sstable_added, sstable_removed, snapshot, next_ids,
  hnsw_snapshot, encode_record,
}
use lithicdb.Manifest.Keyed.{Distinct, put-Distinct, delete-Distinct, put_all-Distinct, put_all_lem}
use lithicdb.Manifest.RoundTrip.{IsRecord}
use lithicdb.Manifest.State.{
  Contents, snapshot_of, ids_of, put_table, put_hnsw, apply_record, empty,
}
use lithicdb.Manifest.Replay.{log_bytes, apply_all}

abbrev pub Ids : List SsTableInfo → Type 0
Ids ts = Distinct (λ t. t.id) (λ a b. a == b) ts

abbrev pub Collections : List HnswSnapshotInfo → Type 0
Collections hs = Distinct (λ x. x.collection) bytes_eq hs

id_reflects : (a b : ℕ) → (a == b) ≡ true → a ≡ b
id_reflects a b h = ground arith

collection_reflects : (a b : Bytes) → bytes_eq a b ≡ true → a ≡ b
collection_reflects a b h = (bytes_eq_iff a b).0 h

-- No map has a key twice, and the counters fit a record.
pub record IsContents (c : Contents) : Type 0 where
  pub ids : Ids c.tables
  pub collections : Collections c.hnsw_snapshots
  pub counters : IsRecord (ids_of c)

apply_record-IsContents :
    (r : Record) (c : Contents) → IsRecord r → IsContents c → IsContents (apply_record r c)
unfolding apply_record put_table put_hnsw
apply_record-IsContents (sstable_added info) c v h = record {
  ids = put-Distinct _ _ id_reflects info c.tables h.ids;
  collections = h.collections;
  counters = h.counters;
}
apply_record-IsContents (sstable_removed id level) c v h = record {
  ids = delete-Distinct _ _ id c.tables h.ids;
  collections = h.collections;
  counters = h.counters;
}
apply_record-IsContents (snapshot ts hs) c v h = record {
  ids = put_all-Distinct _ _ id_reflects ts [] tt;
  collections = put_all-Distinct _ _ collection_reflects hs [] tt;
  counters = h.counters;
}
apply_record-IsContents (next_ids mem seq) c v h = record {
  ids = h.ids;
  collections = h.collections;
  counters = v;
}
apply_record-IsContents (hnsw_snapshot s) c v h = record {
  ids = h.ids;
  collections = put-Distinct _ _ collection_reflects s c.hnsw_snapshots h.collections;
  counters = h.counters;
}

-- The file is a log of records that rebuilds the contents.
pub record Rebuilds (file : Bytes) (c : Contents) : Type 0 where
  pub log : List Record
  pub valid : All IsRecord log
  pub in_file : file ≡ log_bytes log
  pub rebuilt : apply_all log empty ≡ c
  pub sound : IsContents c

log_bytes_snoc :
    (rs : List Record) (r : Record) → log_bytes (rs ++ (r ∷ [])) ≡ log_bytes rs ++ encode_record r
unfolding log_bytes
log_bytes_snoc [] r = append-nil (encode_record r)
log_bytes_snoc (x ∷ rs) r =
    ap (λ (bs : Bytes). encode_record x ++ bs) (log_bytes_snoc rs r)
    ∙ sym (append_assoc (encode_record x) (log_bytes rs) (encode_record r))

apply_all_snoc :
    (rs : List Record) (r : Record) (c : Contents)
    → apply_all (rs ++ (r ∷ [])) c ≡ apply_record r (apply_all rs c)
unfolding apply_all
apply_all_snoc [] r c = refl
apply_all_snoc (x ∷ rs) r c = apply_all_snoc rs r (apply_record x c)

All_snoc :
    (rs : List Record) (r : Record) → All IsRecord rs → IsRecord r → All IsRecord (rs ++ (r ∷ []))
All_snoc [] r h v = (v, tt)
All_snoc (x ∷ rs) r (hx, hs) v = (hx, All_snoc rs r hs v)

pub snoc-Rebuilds :
    (file : Bytes) (c : Contents) (r : Record)
    → Rebuilds file c
    → IsRecord r
    → Rebuilds (file ++ encode_record r) (apply_record r c)
snoc-Rebuilds file c r h v = record {
  log = h.log ++ (r ∷ []);
  valid = All_snoc h.log r h.valid v;
  in_file = ap (λ (bs : Bytes). bs ++ encode_record r) h.in_file ∙ sym (log_bytes_snoc h.log r);
  rebuilt = apply_all_snoc h.log r empty ∙ ap (apply_record r) h.rebuilt;
  sound = apply_record-IsContents r c v h.sound;
}

pub snapshot_same : (c : Contents) → IsContents c → apply_record (snapshot_of c) c ≡ c
unfolding apply_record
snapshot_same c h =
    rw (put_all_lem _ _ c.tables h.ids, put_all_lem _ _ c.hnsw_snapshots h.collections) refl

pub ids_same : (c : Contents) → apply_record (ids_of c) c ≡ c
unfolding apply_record
ids_same c = refl

pub snoc_same-Rebuilds :
    (file : Bytes) (c : Contents) (r : Record)
    → Rebuilds file c
    → IsRecord r
    → apply_record r c ≡ c
    → Rebuilds (file ++ encode_record r) c
snoc_same-Rebuilds file c r h v e =
    subst (λ x. Rebuilds (file ++ encode_record r) x) e (snoc-Rebuilds file c r h v)
