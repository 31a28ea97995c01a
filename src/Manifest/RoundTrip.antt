-- ===== src/Manifest/RoundTrip.antt =====
-- manifest/encoding.go: `decodeRecord` after `encodeRecord`.
use lithicdb.Common.{
  ℕ, ◌+◌, ◌-◌, ◌%◌, ◌^◌, ◌<◌, ◌≡◌, refl, ap, sym, ◌∙◌, List, [], ◌++◌, append_assoc, append-nil,
  arith, length, length-append, take, drop,
}
use lithicdb.Common.Bytes.{Bytes, All}
use lithicdb.Common.Endian.{
  little_endian, from_little_endian, length-little_endian, from_little_endian_lem,
}
use lithicdb.Common.Crc32.{checksum_ieee, checksum_ieee-lt}
use lithicdb.Common.Slices.{take_append, drop_append, drop_add}
use lithicdb.Manifest.{
  SsTableInfo, HnswSnapshotInfo, Record, sstable_added, sstable_removed, snapshot, next_ids,
  hnsw_snapshot, ok, ◌>>=◌, read_uint, type_of, encode_payload, encode_snapshot,
  encode_sstable_removed, encode_next_ids, decode_sstable_info, decode_hnsw_snapshot,
  decode_hnsw_entries, encode_sstable_info, encode_hnsw_snapshot, decode_sstable_removed,
  decode_next_ids, decode_snapshot, decode_hnsw_section, decode_payload, checked_part,
  encode_record, decode_record, record_header_size,
}
use lithicdb.Manifest.Fields.{
  IsInfo, IsHnsw, read_uint_lem, decode-encode_sstable_info, decode-encode_hnsw_snapshot,
  infos_bytes, hnsw_bytes, append_infos_lem, append_hnsw_lem, decode_infos_lem,
  decode_hnsw_entries_lem, not_short,
}

pub record IsSnapshot (ts : List SsTableInfo) (hs : List HnswSnapshotInfo) : Type 0 where
  pub tables : All IsInfo ts
  pub hnsw : All IsHnsw hs
  pub table_count : length ts < 2 ^ 32
  pub hnsw_count : length hs < 2 ^ 32

-- The fields of a record fit their widths.
abbrev pub HasFields : Record → Type 0
HasFields (sstable_added info) = IsInfo info
HasFields (sstable_removed id level) = (id < 2 ^ 64) × (level < 2 ^ 8)
HasFields (snapshot ts hs) = IsSnapshot ts hs
HasFields (next_ids mem seq) = (mem < 2 ^ 64) × (seq < 2 ^ 64)
HasFields (hnsw_snapshot h) = IsHnsw h

pub record IsRecord (r : Record) : Type 0 where
  pub fields : HasFields r
  pub size_range : 1 + length (encode_payload r) < 2 ^ 32

decode_removed :
    (id level : ℕ)
    → id < 2 ^ 64
    → level < 2 ^ 8
    → decode_sstable_removed (encode_sstable_removed id level) ≡ ok (id, level)
unfolding decode_sstable_removed encode_sstable_removed
decode_removed id level hi hl =
    let one : little_endian 1 level ++ [] ≡ little_endian 1 level = append-nil _ in
    rw (read_uint_lem 8 id (little_endian 1 level) (omega (arith, hi))) (
      ap (λ bs. read_uint 1 bs >>= λ p. ok (id, p.0)) (sym one)
      ∙ rw (read_uint_lem 1 level [] (omega (arith, hl))) refl)

decode_ids :
    (mem seq : ℕ)
    → mem < 2 ^ 64
    → seq < 2 ^ 64
    → decode_next_ids (encode_next_ids mem seq) ≡ ok (mem, seq)
unfolding decode_next_ids encode_next_ids
decode_ids mem seq hm hs =
    let one : little_endian 8 seq ++ [] ≡ little_endian 8 seq = append-nil _ in
    rw (read_uint_lem 8 mem (little_endian 8 seq) (omega (arith, hm))) (
      ap (λ bs. read_uint 8 bs >>= λ p. ok (mem, p.0)) (sym one)
      ∙ rw (read_uint_lem 8 seq [] (omega (arith, hs))) refl)

module _ (ts : List SsTableInfo) (hs : List HnswSnapshotInfo) (v : IsSnapshot ts hs) where
  abbrev section : Bytes
  section = little_endian 4 (length hs) ++ hnsw_bytes hs

  snapshot_shape :
      encode_snapshot ts hs ≡ little_endian 4 (length ts) ++ (infos_bytes ts ++ section)
  unfolding encode_snapshot
  snapshot_shape =
      let et : length ts % 2 ^ 32 ≡ length ts = omega (arith, v.table_count) in
      let eh : length hs % 2 ^ 32 ≡ length hs = omega (arith, v.hnsw_count) in
      append_hnsw_lem _ hs
      ∙ rw (append_infos_lem (little_endian 4 (length ts % 2 ^ 32)) ts, et, eh) (simp append_assoc)

  section_lem : decode_hnsw_section section ≡ ok hs
  unfolding decode_hnsw_section
  section_lem =
      let short =
        not_short (little_endian 4 (length hs)) (hnsw_bytes hs) 4
          (sym (length-little_endian 4 (length hs))) in
      rw (short, read_uint_lem 4 (length hs) (hnsw_bytes hs) (omega (arith, v.hnsw_count)))
        (ap (λ bs. decode_hnsw_entries (length hs) bs >>= λ p. ok (p.0))
            (sym (append-nil (hnsw_bytes hs)))
          ∙ rw (decode_hnsw_entries_lem hs [] v.hnsw) refl)

  decode-encode_snapshot : decode_snapshot (encode_snapshot ts hs) ≡ ok (ts, hs)
  unfolding decode_snapshot
  decode-encode_snapshot =
      rw
        (
          snapshot_shape,
          read_uint_lem 4 (length ts) (infos_bytes ts ++ section) (omega (arith, v.table_count)),
          decode_infos_lem ts section v.tables,
          section_lem,
        )
        refl

decode-encode_payload :
    (r : Record) → HasFields r → decode_payload (type_of r) (encode_payload r) ≡ ok r
unfolding decode_payload encode_payload
decode-encode_payload (sstable_added info) h =
    ap (λ bs. decode_sstable_info bs >>= λ p. ok (sstable_added p.0))
      (sym (append-nil (encode_sstable_info info)))
    ∙ rw (decode-encode_sstable_info info [] h) refl
decode-encode_payload (sstable_removed id level) (hi, hl) = rw (decode_removed id level hi hl) refl
decode-encode_payload (snapshot ts hs) v = rw (decode-encode_snapshot ts hs v) refl
decode-encode_payload (next_ids mem seq) (hm, hs) = rw (decode_ids mem seq hm hs) refl
decode-encode_payload (hnsw_snapshot h) v =
    ap (λ bs. decode_hnsw_snapshot bs >>= λ p. ok (hnsw_snapshot p.0))
      (sym (append-nil (encode_hnsw_snapshot h)))
    ∙ rw (decode-encode_hnsw_snapshot h [] v) refl

type_of-lt : (r : Record) → type_of r < 256
type_of-lt (sstable_added info) = omega arith
type_of-lt (sstable_removed id level) = omega arith
type_of-lt (snapshot ts hs) = omega arith
type_of-lt (next_ids mem seq) = omega arith
type_of-lt (hnsw_snapshot h) = omega arith

pub length-checked_part : (r : Record) → length (checked_part r) ≡ 5 + length (encode_payload r)
unfolding checked_part
length-checked_part r =
    let size = (1 + length (encode_payload r)) % 2 ^ 32 in
    omega (
      arith,
      length-append (little_endian 4 size) (little_endian 1 (type_of r) ++ encode_payload r),
      length-append (little_endian 1 (type_of r)) (encode_payload r),
      length-little_endian 4 size,
      length-little_endian 1 (type_of r),
    )

pub length-encode_record : (r : Record) → length (encode_record r) ≡ 9 + length (encode_payload r)
unfolding encode_record
length-encode_record r = omega (
  arith,
  length-append (little_endian 4 (checksum_ieee (checked_part r))) (checked_part r),
  length-little_endian 4 (checksum_ieee (checked_part r)),
  length-checked_part r,
)

module _ (r : Record) (valid : IsRecord r) (rest : Bytes) where
  abbrev crc : Bytes
  crc = little_endian 4 (checksum_ieee (checked_part r))

  abbrev n : ℕ
  n = 1 + length (encode_payload r)

  size_lem : n % 2 ^ 32 ≡ n
  size_lem = omega (arith, valid.size_range)

  behind_crc : drop 4 (encode_record r ++ rest) ≡ checked_part r ++ rest
  unfolding encode_record
  behind_crc =
      rw (append_assoc crc (checked_part r) rest)
        (drop_append 4 crc (checked_part r ++ rest) (sym (length-little_endian 4 _)))

  stored_crc :
      from_little_endian (take 4 (encode_record r ++ rest)) ≡ checksum_ieee (checked_part r)
  unfolding encode_record
  stored_crc =
      rw
        (
          append_assoc crc (checked_part r) rest,
          take_append 4 crc (checked_part r ++ rest) (sym (length-little_endian 4 _)),
        )
        (from_little_endian_lem 4 _ (omega (arith, checksum_ieee-lt (checked_part r))))

  abbrev tail : Bytes
  tail = little_endian 1 (type_of r) ++ encode_payload r

  checked_shape : checked_part r ≡ little_endian 4 n ++ tail
  unfolding checked_part
  checked_shape = rw size_lem refl

  pub stored_size : from_little_endian (take 4 (drop 4 (encode_record r ++ rest))) ≡ n
  stored_size =
      rw
        (
          behind_crc,
          checked_shape,
          append_assoc (little_endian 4 n) tail rest,
          take_append 4 (little_endian 4 n) (tail ++ rest) (sym (length-little_endian 4 n)),
        )
        (from_little_endian_lem 4 n (omega (arith, valid.size_range)))

  checked_lem :
      take (record_header_size + n - 4) (drop 4 (encode_record r ++ rest)) ≡ checked_part r
  checked_lem = rw behind_crc (
      take_append (record_header_size + n - 4) (checked_part r) rest
        (omega (arith, length-checked_part r)))

  behind_size : drop 4 (checked_part r) ≡ tail
  behind_size =
      rw checked_shape (drop_append 4 (little_endian 4 n) tail (sym (length-little_endian 4 n)))

  type_lem : from_little_endian (take 1 (drop 4 (checked_part r))) ≡ type_of r
  type_lem =
      rw
        (
          behind_size,
          take_append 1 (little_endian 1 (type_of r)) (encode_payload r)
              (sym (length-little_endian 1 _)),
        )
        (from_little_endian_lem 1 (type_of r) (omega (arith, type_of-lt r)))

  payload_lem : drop 5 (checked_part r) ≡ encode_payload r
  payload_lem =
      drop_add 4 1 5 (checked_part r) refl
      ∙ rw behind_size (
          drop_append 1 (little_endian 1 (type_of r)) (encode_payload r)
            (sym (length-little_endian 1 _)))

  -- A record whose fields fit decodes to itself with its length, whatever bytes follow it.
  pub decode_record-encode_record :
      decode_record (encode_record r ++ rest) ≡ ok (r, length (encode_record r))
  unfolding decode_record
  decode_record-encode_record =
      rw
        (
          stored_size,
          stored_crc,
          checked_lem,
          type_lem,
          payload_lem,
          decode-encode_payload r valid.fields,
        )
        (ground (arith, length-append (encode_record r) rest, length-encode_record r))
