-- ===== src/Wal/Runs.antt =====
-- wal: runs on concrete files.
use lithicdb.Common.{
  ℕ, zero, suc, ◌^◌, ◌+◌, ◌-◌, ◌≤◌, ◌<◌, ◌≡◌, refl, ◌≢◌, ◌↔◌, inr, List, [], ◌∷◌, ◌++◌, arith,
  length, take, drop, replicate, length-replicate,
}
use lithicdb.Common.Bytes.{Bytes, All, IsByte}
use lithicdb.Common.Endian.{little_endian, from_little_endian}
use lithicdb.Common.Crc32.{checksum_ieee}
use lithicdb.Kv.{new_value, new_tombstone}
use lithicdb.Wal.{
  Entry, ok, panics, stuck, header_size, stored_bytes, encode_entry, entries_size, encode_entries,
  checked_part, encode_record, uint_at, decode_entry, decode_entries, decode_record, recover_loop,
  recover,
}
use lithicdb.Wal.Encode.{IsEntry, IsBatch}
use lithicdb.Wal.RoundTrip.{decode-encode_record}
use lithicdb.Wal.Recovery.{
  log_bytes, IsTorn, recover-ne-stuck, decode_record_panics, recover-log_bytes,
}
use lithicdb.Wal.Limits.{long_key_lost}
use mathlib.Core.List.{flatten}

abbrev put_k : Entry
put_k = record { seq = 7; key = b'k' ∷ []; value = new_value (1 ∷ 2 ∷ []) }

abbrev delete_k : Entry
delete_k = record { seq = 8; key = b'k' ∷ []; value = new_tombstone }

abbrev batch : List Entry
batch = put_k ∷ delete_k ∷ []

put_k-IsEntry : IsEntry put_k
unfolding stored_bytes
put_k-IsEntry = record {
  seq_range = omega arith;
  key_range = omega arith;
  value_range = omega arith;
  bare_tombstone = λ h. cc;
}

delete_k-IsEntry : IsEntry delete_k
unfolding stored_bytes
delete_k-IsEntry = record {
  seq_range = omega arith;
  key_range = omega arith;
  value_range = omega arith;
  bare_tombstone = λ h. refl;
}

batch-IsBatch : IsBatch batch
unfolding entries_size stored_bytes
batch-IsBatch = record {
  entries = (put_k-IsEntry, (delete_k-IsEntry, tt));
  count_range = omega arith;
  size_range = omega arith;
}

encode_put : length (encode_record (put_k ∷ [])) ≡ 28
unfolding encode_record checked_part encode_entries encode_entry entries_size stored_bytes
    little_endian checksum_ieee
encode_put = refl

recover_two : recover (encode_record (put_k ∷ []) ++ encode_record batch) ≡ ok (put_k ∷ batch)
unfolding recover recover_loop decode_record decode_entries decode_entry uint_at from_little_endian
    encode_record checked_part encode_entries encode_entry entries_size stored_bytes little_endian
    checksum_ieee
recover_two = refl

decode-encode_record_example :
    decode_record (encode_record batch ++ 9 ∷ []) ≡ ok (batch, length (encode_record batch))
decode-encode_record_example = decode-encode_record batch batch-IsBatch (9 ∷ [])

abbrev torn_record : Bytes
torn_record = take 20 (encode_record batch)

torn_record-IsTorn : IsTorn torn_record
unfolding encode_record checked_part encode_entries encode_entry entries_size stored_bytes
    little_endian checksum_ieee
torn_record-IsTorn = record {
  batch = batch;
  valid = batch-IsBatch;
  missing = drop 20 (encode_record batch);
  is_prefix = refl;
  incomplete = omega arith;
}

recover-log_bytes_example :
    recover (log_bytes (batch ∷ []) ++ torn_record) ≡ ok (flatten (batch ∷ []))
recover-log_bytes_example =
    recover-log_bytes (batch ∷ []) torn_record (batch-IsBatch, tt) (inr torn_record-IsTorn)

recover-ne-stuck_example : recover (1 ∷ 2 ∷ 3 ∷ []) ≢ stuck
recover-ne-stuck_example = recover-ne-stuck (1 ∷ 2 ∷ 3 ∷ [])

-- A header with no payload and the right checksum.
abbrev bare_header : Bytes
bare_header = 0x1c ∷ 0xdf ∷ 0x44 ∷ 0x21 ∷ 0 ∷ 0 ∷ 0 ∷ 0 ∷ []

bare_header_panics : decode_record bare_header ≡ panics
unfolding decode_record uint_at from_little_endian checksum_ieee
bare_header_panics = refl

decode_record_panics_example : (decode_record bare_header ≡ panics) ↔ (
    (header_size ≤ length bare_header)
    × (length bare_header < header_size + 2)
    × (header_size + uint_at 4 bare_header 4 ≤ length bare_header)
    × (uint_at 4 bare_header 0
        ≡ checksum_ieee (take (header_size + uint_at 4 bare_header 4 - 4) (drop 4 bare_header))))
decode_record_panics_example = decode_record_panics bare_header

-- A key of 2 ^ 16 zeros.
long_key : Bytes
long_key = replicate (2 ^ 16) 0

length-long_key : length long_key ≡ 2 ^ 16
unfolding long_key
length-long_key = length-replicate {A = ℕ} (2 ^ 16) 0

All-zeros : (n : ℕ) → All IsByte (replicate n 0)
All-zeros zero = tt
All-zeros (suc n) = (omega arith, All-zeros n)

long_key-IsByte : All IsByte long_key
unfolding long_key
long_key-IsByte = All-zeros (2 ^ 16)

long_put : Entry
long_put = record { seq = 1; key = long_key; value = new_tombstone }

long_key_lost_example : decode_record (encode_record (long_put ∷ [])) ≢ ok (long_put ∷ [], 9)
unfolding long_put
long_key_lost_example =
    long_key_lost long_put 9 (omega (arith, length-long_key)) (long_key-IsByte, tt)
