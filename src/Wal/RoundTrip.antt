-- ===== src/Wal/RoundTrip.antt =====
-- wal/encoding.go: `decodeRecord` after `encodeRecord`.
use lithicdb.Common.{
  ℕ, ◌+◌, ◌-◌, ◌%◌, ◌^◌, ◌≡◌, ◌∙◌, List, ◌++◌, append_assoc, arith, length, length-append, drop,
}
use lithicdb.Common.Bytes.{Bytes}
use lithicdb.Common.Endian.{little_endian, length-little_endian}
use lithicdb.Common.Crc32.{checksum_ieee, checksum_ieee-lt}
use lithicdb.Wal.{
  header_size, Entry, ok, encode_entries, entries_size, checked_part, encode_record, uint_at,
  decode_record,
}
use lithicdb.Wal.Encode.{IsBatch, length-encode_record, length-checked_part, length-encode_entries}
use lithicdb.Wal.Decode.{uint_at_lem, drop_field, take_field, decode_entries-encode_entries}

module _ (es : List Entry) (valid : IsBatch es) (rest : Bytes) where
  abbrev record_bytes : Bytes
  record_bytes = encode_record es ++ rest

  abbrev size : ℕ
  size = 2 + entries_size es

  at_checksum :
      drop 0 record_bytes
      ≡ little_endian 4 (checksum_ieee (checked_part es)) ++ (checked_part es ++ rest)
  unfolding encode_record
  at_checksum =
      append_assoc (little_endian 4 (checksum_ieee (checked_part es))) (checked_part es) rest

  at_checked : drop 4 record_bytes ≡ checked_part es ++ rest
  at_checked =
      drop_field record_bytes _ _ 4 0 (length-little_endian 4 _) at_checksum 4 (omega arith)

  at_size :
      drop 4 record_bytes
      ≡ little_endian 4 size ++ (little_endian 2 (length es) ++ (encode_entries es ++ rest))
  unfolding checked_part
  at_size =
      let ec : length es % 2 ^ 16 ≡ length es = omega (arith, valid.count_range) in
      let ez : (2 + entries_size es) % 2 ^ 32 ≡ 2 + entries_size es =
        omega (arith, valid.size_range) in
      at_checked ∙ rw (ec, ez) (simp append_assoc)

  at_count : drop 8 record_bytes ≡ little_endian 2 (length es) ++ (encode_entries es ++ rest)
  at_count = drop_field record_bytes _ _ 4 4 (length-little_endian 4 size) at_size 8 (omega arith)

  at_entries : drop 10 record_bytes ≡ encode_entries es ++ rest
  at_entries =
      drop_field record_bytes _ _ 2 8 (length-little_endian 2 (length es)) at_count 10 (omega arith)

  pub stored_size : uint_at 4 record_bytes 4 ≡ size
  stored_size = uint_at_lem record_bytes _ 4 4 size valid.size_range at_size

  -- A record that fits the format decodes to its batch, whatever bytes follow it.
  pub decode-encode_record :
      decode_record (encode_record es ++ rest) ≡ ok (es, length (encode_record es))
  unfolding decode_record
  decode-encode_record =
      let len = length-checked_part es in
      let w : length (checked_part es) ≡ header_size + size - 4 = omega (arith, len) in
      let whole : length record_bytes ≡ 10 + entries_size es + length rest =
        omega (arith, length-append (encode_record es) rest, length-encode_record es) in
      rw
        (
          stored_size,
          uint_at_lem record_bytes _ 4 0 (checksum_ieee (checked_part es))
              (checksum_ieee-lt (checked_part es)) at_checksum,
          uint_at_lem record_bytes _ 2 8 (length es) valid.count_range at_count,
          take_field record_bytes (checked_part es) rest (header_size + size - 4) 4 w at_checked,
        )
        (ground (
          arith,
          whole,
          length-encode_record es,
          length-encode_entries es,
          decode_entries-encode_entries es record_bytes rest 10 (header_size + size) valid.entries
              at_entries,
        ))
