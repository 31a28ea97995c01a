-- ===== src/Wal/Encode.antt =====
-- wal/encoding.go: what a record may hold, and how long it is.
use lithicdb.Common.{
  ◌+◌, ◌%◌, ◌^◌, ◌<◌, ◌≡◌, refl, true, List, [], ◌∷◌, ◌++◌, arith, length, length-append,
}
use lithicdb.Common.Bytes.{All}
use lithicdb.Common.Endian.{little_endian, length-little_endian}
use lithicdb.Common.Crc32.{checksum_ieee}
use lithicdb.Wal.{
  Entry, entry_header, stored_bytes, encode_entry, entries_size, encode_entries, checked_part,
  encode_record,
}

-- What the fixed widths of the format can hold. A tombstone carries no bytes, as `NewTombstone`
-- makes it.
pub record IsEntry (e : Entry) : Type 0 where
  pub seq_range : e.seq < 2 ^ 64
  pub key_range : length e.key < 2 ^ 16
  pub value_range : length (stored_bytes e.value) < 2 ^ 32
  pub bare_tombstone : e.value.tombstone ≡ true → e.value.bytes ≡ []

pub record IsBatch (es : List Entry) : Type 0 where
  pub entries : All IsEntry es
  pub count_range : length es < 2 ^ 16
  pub size_range : 2 + entries_size es < 2 ^ 32

pub length-encode_entry :
    (e : Entry)
    → length (encode_entry e) ≡ entry_header + length e.key + length (stored_bytes e.value)
unfolding encode_entry
length-encode_entry e =
    let v = stored_bytes e.value in
    let seq = little_endian 8 e.seq in
    let kl = little_endian 2 (length e.key % 2 ^ 16) in
    let vl = little_endian 4 (length v % 2 ^ 32) in
    omega (
      arith,
      length-append seq (kl ++ (vl ++ (e.key ++ v))),
      length-append kl (vl ++ (e.key ++ v)),
      length-append vl (e.key ++ v),
      length-append e.key v,
      length-little_endian 8 e.seq,
      length-little_endian 2 (length e.key % 2 ^ 16),
      length-little_endian 4 (length v % 2 ^ 32),
    )

pub length-encode_entries : (es : List Entry) → length (encode_entries es) ≡ entries_size es
unfolding encode_entries entries_size
length-encode_entries [] = refl
length-encode_entries (e ∷ es) = omega (
  arith,
  length-append (encode_entry e) (encode_entries es),
  length-encode_entry e,
  length-encode_entries es,
)

pub length-checked_part : (es : List Entry) → length (checked_part es) ≡ 6 + entries_size es
unfolding checked_part
length-checked_part es =
    let size = little_endian 4 ((2 + entries_size es) % 2 ^ 32) in
    let count = little_endian 2 (length es % 2 ^ 16) in
    omega (
      arith,
      length-append size (count ++ encode_entries es),
      length-append count (encode_entries es),
      length-little_endian 4 ((2 + entries_size es) % 2 ^ 32),
      length-little_endian 2 (length es % 2 ^ 16),
      length-encode_entries es,
    )

pub length-encode_record : (es : List Entry) → length (encode_record es) ≡ 10 + entries_size es
unfolding encode_record
length-encode_record es = omega (
  arith,
  length-append (little_endian 4 (checksum_ieee (checked_part es))) (checked_part es),
  length-little_endian 4 (checksum_ieee (checked_part es)),
  length-checked_part es,
)
