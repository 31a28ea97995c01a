-- ===== src/Wal.antt =====
-- wal/encoding.go and the loop of `Recover` in wal/reader.go: records of the write-ahead log.
pub mod Calls
pub mod Encode
pub mod Decode
pub mod RoundTrip
pub mod Recovery
pub mod Limits
mod Runs
use lithicdb.Common.{
  ℕ, zero, suc, ◌+◌, ◌-◌, ◌%◌, ◌^◌, Bool, true, false, not, List, [], ◌∷◌, ◌++◌, length, take, drop,
  ltb, ◌==◌, if◌then◌else◌,
}
use lithicdb.Common.Bytes.{Bytes}
use lithicdb.Common.Endian.{little_endian, from_little_endian}
use lithicdb.Common.Crc32.{checksum_ieee}
use lithicdb.Kv.{Value, new_value, new_tombstone}

abbrev pub header_size : ℕ
header_size = 8

abbrev pub entry_header : ℕ
entry_header = 15

pub record Entry : Type 0 where
  pub seq : ℕ
  pub key : Bytes
  pub value : Value

pub data Error : Type 0 where
  corrupt_record short_record invalid_flag : Error

-- What a call does: it returns a value, or an error, or it reads out of range and panics.
-- `stuck` is no Go behaviour: the loop of `recover` ran out of fuel.
pub data Outcome {ℓ} (A : Type ℓ) : Type ℓ where
  ok : A → Outcome A
  err : Error → Outcome A
  panics : Outcome A
  stuck : Outcome A

infixl 5 ◌>>=◌
abbrev pub ◌>>=◌ {ℓ κ} : {A : Type ℓ} {B : Type κ} → Outcome A → (A → Outcome B) → Outcome B
◌>>=◌ stuck next = stuck
◌>>=◌ panics next = panics
◌>>=◌ (err why) next = err why
◌>>=◌ (ok x) next = next x

-- The value bytes that an entry takes in the record.
unfoldable pub stored_bytes : Value → Bytes
stored_bytes v = if v.tombstone then [] else v.bytes

unfoldable pub encode_entry : Entry → Bytes
encode_entry e =
    ((if e.value.tombstone then 1 else 0) ∷ [])
    ++ (little_endian 8 e.seq
        ++ (little_endian 2 (length e.key % 2 ^ 16)
            ++ (little_endian 4 (length (stored_bytes e.value) % 2 ^ 32)
                ++ (e.key ++ stored_bytes e.value))))

unfoldable pub entries_size : List Entry → ℕ
entries_size [] = 0
entries_size (e ∷ es) =
    entry_header + length e.key + length (stored_bytes e.value) + entries_size es

unfoldable pub encode_entries : List Entry → Bytes
encode_entries [] = []
encode_entries (e ∷ es) = encode_entry e ++ encode_entries es

-- Everything after the checksum.
unfoldable pub checked_part : List Entry → Bytes
checked_part es =
    little_endian 4 ((2 + entries_size es) % 2 ^ 32)
    ++ (little_endian 2 (length es % 2 ^ 16) ++ encode_entries es)

unfoldable pub encode_record : List Entry → Bytes
encode_record es = little_endian 4 (checksum_ieee (checked_part es)) ++ checked_part es

-- binary.LittleEndian.UintN(data[offset:]), where that is in range.
unfoldable pub uint_at : ℕ → Bytes → ℕ → ℕ
uint_at width bs offset = from_little_endian (take width (drop offset bs))

-- An access that ends at `last`: `data[i]`, `UintN(data[i:])` and `data[i:last]` panic beyond the slice.
-- (A slice may be cut up to its capacity, which is taken to be its length.)
abbrev pub within {ℓ} : {A : Type ℓ} → Bytes → ℕ → Outcome A → Outcome A
within bs last next = if ltb (length bs) last then panics else next

-- One round of the loop: the entry and the offset behind it.
unfoldable pub decode_entry : Bytes → ℕ → ℕ → Outcome (Entry × ℕ)
decode_entry bs total_len offset =
    let flag = uint_at 1 bs offset in
    let seq = uint_at 8 bs (offset + 1) in
    let key_len = uint_at 2 bs (offset + 9) in
    let value_len = uint_at 4 bs (offset + 11) in
    let key = take key_len (drop (offset + 15) bs) in
    let behind_key = offset + 15 + key_len in
    if ltb total_len (offset + entry_header)
    then err short_record
    else within bs (offset + entry_header) (
        if ltb total_len behind_key
        then err short_record
        else within bs behind_key (
            if flag == 0
            then (if ltb total_len (behind_key + value_len)
                then err short_record
                else within bs (behind_key + value_len) (
                    ok (
                      record {
                        seq = seq;
                        key = key;
                        value = new_value (take value_len (drop behind_key bs));
                      },
                      behind_key + value_len,
                    )))
            else if flag == 1
            then ok (record { seq = seq; key = key; value = new_tombstone }, behind_key)
            else err invalid_flag))

unfoldable pub decode_entries : ℕ → Bytes → ℕ → ℕ → Outcome (List Entry)
decode_entries zero bs total_len offset = ok []
decode_entries (suc count) bs total_len offset = do
  (e, offset') ← decode_entry bs total_len offset
  es ← decode_entries count bs total_len offset'
  ok (e ∷ es)

-- The entries and the number of bytes consumed. The count is read with no check of its own.
unfoldable pub decode_record : Bytes → Outcome (List Entry × ℕ)
decode_record bs =
    let total_len = header_size + uint_at 4 bs 4 in
    if ltb (length bs) header_size
    then err short_record
    else if ltb (length bs) total_len
    then err short_record
    else if not (uint_at 4 bs 0 == checksum_ieee (take (total_len - 4) (drop 4 bs)))
    then err corrupt_record
    else within bs (header_size + 2)
        (do es ← decode_entries (uint_at 2 bs 8) bs total_len 10; ok (es, total_len))

-- The loop of `Recover` over the file's bytes. A corrupt or short record ends it; another error is
-- returned.
unfoldable pub recover_loop : ℕ → Bytes → List Entry → Outcome (List Entry)
recover_loop fuel [] all = ok all
recover_loop zero (b ∷ bs) all = stuck
recover_loop (suc fuel) (b ∷ bs) all = elim (decode_record (b ∷ bs)) [
  | ok (es, n) ↦ recover_loop fuel (drop n (b ∷ bs)) (all ++ es)
  | err corrupt_record ↦ ok all
  | err short_record ↦ ok all
  | err invalid_flag ↦ err invalid_flag
  | panics ↦ panics
  | stuck ↦ stuck
]

-- A record is never empty, so `length` rounds are enough.
unfoldable pub recover : Bytes → Outcome (List Entry)
recover bs = recover_loop (length bs) bs []
