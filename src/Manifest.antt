-- ===== src/Manifest.antt =====
-- manifest/: the log of the tables and counters. An offset into a record is the bytes behind it.
pub mod Keyed
pub mod State
pub mod Fields
pub mod RoundTrip
pub mod Replay
pub mod Rebuilds
pub mod Reached
mod Runs
use lithicdb.Common.{
  ℕ, zero, suc, ◌+◌, ◌-◌, ◌%◌, ◌^◌, Bool, true, false, not, List, [], ◌∷◌, ◌++◌, length, take, drop,
  ltb, ◌==◌, if◌then◌else◌,
}
use lithicdb.Common.Bytes.{Bytes}
use lithicdb.Common.Endian.{little_endian, from_little_endian}
use lithicdb.Common.Crc32.{checksum_ieee}

abbrev pub record_header_size : ℕ
record_header_size = 8

-- An id, a level and a key length.
abbrev pub min_info_size : ℕ
min_info_size = 11

-- The fixed part of an entry for a vector snapshot.
abbrev pub min_hnsw_size : ℕ
min_hnsw_size = 12

pub record SsTableInfo : Type 0 where
  pub id : ℕ
  pub level : ℕ
  pub first_key : Bytes
  pub last_key : Bytes

pub record HnswSnapshotInfo : Type 0 where
  pub collection : Bytes
  pub seq : ℕ
  pub filename : Bytes

-- A record of each type, with the fields that it uses; the map of snapshots is a list of entries.
pub data Record : Type 0 where
  sstable_added : SsTableInfo → Record
  sstable_removed : ℕ → ℕ → Record
  snapshot : List SsTableInfo → List HnswSnapshotInfo → Record
  next_ids : ℕ → ℕ → Record
  hnsw_snapshot : HnswSnapshotInfo → Record

pub data Error : Type 0 where
  corrupt_record short_record unknown_type : Error

pub data Result {ℓ} (A : Type ℓ) : Type ℓ where
  ok : A → Result A
  err : Error → Result A

infixl 5 ◌>>=◌
abbrev pub ◌>>=◌ {ℓ κ} : {A : Type ℓ} {B : Type κ} → Result A → (A → Result B) → Result B
◌>>=◌ (err why) next = err why
◌>>=◌ (ok x) next = next x

-- A field of `k` bytes, and the bytes behind it.
unfoldable pub read_uint : ℕ → Bytes → Result (ℕ × Bytes)
read_uint k bs =
    if ltb (length bs) k then err short_record else ok (from_little_endian (take k bs), drop k bs)

unfoldable pub read_bytes : ℕ → Bytes → Result (Bytes × Bytes)
read_bytes n bs = if ltb (length bs) n then err short_record else ok (take n bs, drop n bs)

unfoldable pub key_length : Bytes → Bytes
key_length key = little_endian 2 (length key % 2 ^ 16)

unfoldable pub append_sstable_info : Bytes → SsTableInfo → Bytes
append_sstable_info buf info =
    buf
    ++ (little_endian 8 info.id
        ++ (little_endian 1 info.level
            ++ (key_length info.first_key
                ++ (info.first_key ++ (key_length info.last_key ++ info.last_key)))))

unfoldable pub encode_sstable_info : SsTableInfo → Bytes
encode_sstable_info info = append_sstable_info [] info

unfoldable pub encode_sstable_removed : ℕ → ℕ → Bytes
encode_sstable_removed id level = little_endian 8 id ++ little_endian 1 level

unfoldable pub encode_next_ids : ℕ → ℕ → Bytes
encode_next_ids next_mem_id next_seq = little_endian 8 next_mem_id ++ little_endian 8 next_seq

unfoldable pub encode_hnsw_snapshot : HnswSnapshotInfo → Bytes
encode_hnsw_snapshot h =
    key_length h.collection
    ++ (h.collection ++ (little_endian 8 h.seq ++ (key_length h.filename ++ h.filename)))

unfoldable pub append_infos : Bytes → List SsTableInfo → Bytes
append_infos buf [] = buf
append_infos buf (t ∷ ts) = append_infos (append_sstable_info buf t) ts

unfoldable pub append_hnsw : Bytes → List HnswSnapshotInfo → Bytes
append_hnsw buf [] = buf
append_hnsw buf (h ∷ hs) = append_hnsw (buf ++ encode_hnsw_snapshot h) hs

unfoldable pub encode_snapshot : List SsTableInfo → List HnswSnapshotInfo → Bytes
encode_snapshot tables hnsw =
    append_hnsw
      (append_infos (little_endian 4 (length tables % 2 ^ 32)) tables
        ++ little_endian 4 (length hnsw % 2 ^ 32))
      hnsw

abbrev pub type_of : Record → ℕ
type_of (sstable_added info) = 1
type_of (sstable_removed id level) = 2
type_of (snapshot tables hnsw) = 3
type_of (next_ids next_mem_id next_seq) = 4
type_of (hnsw_snapshot h) = 5

unfoldable pub encode_payload : Record → Bytes
encode_payload (sstable_added info) = encode_sstable_info info
encode_payload (sstable_removed id level) = encode_sstable_removed id level
encode_payload (snapshot tables hnsw) = encode_snapshot tables hnsw
encode_payload (next_ids next_mem_id next_seq) = encode_next_ids next_mem_id next_seq
encode_payload (hnsw_snapshot h) = encode_hnsw_snapshot h

-- Everything after the checksum: the length, the type and the payload.
unfoldable pub checked_part : Record → Bytes
checked_part r =
    little_endian 4 ((1 + length (encode_payload r)) % 2 ^ 32)
    ++ (little_endian 1 (type_of r) ++ encode_payload r)

unfoldable pub encode_record : Record → Bytes
encode_record r = little_endian 4 (checksum_ieee (checked_part r)) ++ checked_part r

unfoldable pub decode_sstable_info : Bytes → Result (SsTableInfo × Bytes)
decode_sstable_info bs = if ltb (length bs) min_info_size then err short_record else do
  (id, bs) ← read_uint 8 bs
  (level, bs) ← read_uint 1 bs
  (first_len, bs) ← read_uint 2 bs
  (first_key, bs) ← read_bytes first_len bs
  (last_len, bs) ← read_uint 2 bs
  (last_key, bs) ← read_bytes last_len bs
  ok (record { id = id; level = level; first_key = first_key; last_key = last_key }, bs)

unfoldable pub decode_sstable_removed : Bytes → Result (ℕ × ℕ)
decode_sstable_removed bs = do
  (id, bs) ← read_uint 8 bs
  (level, bs) ← read_uint 1 bs
  ok (id, level)

unfoldable pub decode_next_ids : Bytes → Result (ℕ × ℕ)
decode_next_ids bs = do
  (next_mem_id, bs) ← read_uint 8 bs
  (next_seq, bs) ← read_uint 8 bs
  ok (next_mem_id, next_seq)

unfoldable pub decode_hnsw_snapshot : Bytes → Result (HnswSnapshotInfo × Bytes)
decode_hnsw_snapshot bs = if ltb (length bs) min_hnsw_size then err short_record else do
  (col_len, bs) ← read_uint 2 bs
  (collection, bs) ← read_bytes col_len bs
  (seq, bs) ← read_uint 8 bs
  (name_len, bs) ← read_uint 2 bs
  (filename, bs) ← read_bytes name_len bs
  ok (record { collection = collection; seq = seq; filename = filename }, bs)

unfoldable pub decode_infos : ℕ → Bytes → Result (List SsTableInfo × Bytes)
decode_infos zero bs = ok ([], bs)
decode_infos (suc count) bs = do
  (info, bs) ← decode_sstable_info bs
  (infos, bs) ← decode_infos count bs
  ok (info ∷ infos, bs)

unfoldable pub decode_hnsw_entries : ℕ → Bytes → Result (List HnswSnapshotInfo × Bytes)
decode_hnsw_entries zero bs = ok ([], bs)
decode_hnsw_entries (suc count) bs = do
  (h, bs) ← decode_hnsw_snapshot bs
  (hs, bs) ← decode_hnsw_entries count bs
  ok (h ∷ hs, bs)

-- The section of the old format is the one that is missing.
unfoldable pub decode_hnsw_section : Bytes → Result (List HnswSnapshotInfo)
decode_hnsw_section bs =
    if ltb (length bs) 4
    then ok []
    else do (count, bs) ← read_uint 4 bs; (hs, bs) ← decode_hnsw_entries count bs; ok hs

unfoldable pub decode_snapshot : Bytes → Result (List SsTableInfo × List HnswSnapshotInfo)
decode_snapshot bs = do
  (count, bs) ← read_uint 4 bs
  (infos, bs) ← decode_infos count bs
  hs ← decode_hnsw_section bs
  ok (infos, hs)

-- The switch over the type.
unfoldable pub decode_payload : ℕ → Bytes → Result Record
decode_payload type bs =
    if type == 1
    then (do (info, bs) ← decode_sstable_info bs; ok (sstable_added info))
    else if type == 2
    then (do (id, level) ← decode_sstable_removed bs; ok (sstable_removed id level))
    else if type == 3
    then (do (tables, hnsw) ← decode_snapshot bs; ok (snapshot tables hnsw))
    else if type == 4
    then (do (mem, seq) ← decode_next_ids bs; ok (next_ids mem seq))
    else if type == 5
    then (do (h, bs) ← decode_hnsw_snapshot bs; ok (hnsw_snapshot h))
    else err unknown_type

-- The record and its length, header included.
unfoldable pub decode_record : Bytes → Result (Record × ℕ)
decode_record bs =
    let payload_len = from_little_endian (take 4 (drop 4 bs)) in
    let total_len = record_header_size + payload_len in
    let checked = take (total_len - 4) (drop 4 bs) in
    if ltb (length bs) record_header_size
    then err short_record
    else if ltb payload_len 1
    then err short_record
    else if ltb (length bs) total_len
    then err short_record
    else if not (from_little_endian (take 4 bs) == checksum_ieee checked)
    then err corrupt_record
    else do
      r ← decode_payload (from_little_endian (take 1 (drop 4 checked))) (drop 5 checked)
      ok (r, total_len)
