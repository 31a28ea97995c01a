-- ===== src/Wal/Limits.antt =====
-- wal/encoding.go: keys that the two bytes of the key length cannot describe.
use lithicdb.Common.{
  Bool-cases, ◌%◌, ℕ, zero, suc, ◌+◌, ◌^◌, ◌≤◌, ◌<◌, ◌≡◌, ◌≢◌, List, [], ◌∷◌, inl, inr, arith,
  length, length-take, take, drop,
}
use mathlib.Core.Path.{subst}
use lithicdb.Common.Bytes.{Bytes, All, All-append, IsByte}
use lithicdb.Common.Endian.{little_endian, little_endian-IsByte, from_little_endian}
use lithicdb.Common.Crc32.{checksum_ieee}
use lithicdb.Kv.{Value}
use lithicdb.Wal.Decode.{flag-lt}
use lithicdb.Wal.{
  Entry, ok, header_size, stored_bytes, encode_entry, encode_entries, entries_size, checked_part,
  uint_at, encode_record, decode_entry, decode_entries, decode_record,
}
use lithicdb.Wal.Calls.{bind_returns}

All-take : (n : ℕ) (bs : Bytes) → All IsByte bs → All IsByte (take n bs)
All-take zero bs h = tt
All-take (suc n) [] h = tt
All-take (suc n) (b ∷ bs) (hb, hs) = (hb, All-take n bs hs)

All-drop : (n : ℕ) (bs : Bytes) → All IsByte bs → All IsByte (drop n bs)
All-drop zero bs h = h
All-drop (suc n) [] h = tt
All-drop (suc n) (b ∷ bs) (hb, hs) = All-drop n bs hs

short_number : (bs : Bytes) → All IsByte bs → length bs ≤ 2 → from_little_endian bs < 2 ^ 16
unfolding from_little_endian
short_number [] h l = omega arith
short_number (a ∷ []) h l = omega arith
short_number (a ∷ b ∷ []) h l = omega arith
short_number (a ∷ b ∷ c ∷ bs) h l = absurd (omega arith)

uint16_range : (bs : Bytes) (o : ℕ) → All IsByte bs → uint_at 2 bs o < 2 ^ 16
unfolding uint_at
uint16_range bs o h =
    short_number (take 2 (drop o bs)) (All-take 2 (drop o bs) (All-drop o bs h))
      (omega (arith, length-take 2 (drop o bs)))

decode_entry_key :
    (bs : Bytes) (total_len o n : ℕ) (e : Entry)
    → All IsByte bs
    → decode_entry bs total_len o ≡ ok (e, n)
    → length e.key < 2 ^ 16
unfolding decode_entry
decode_entry_key bs total_len o n e h k =
    ground (arith, uint16_range bs (o + 9) h, length-take (uint_at 2 bs (o + 9)) (drop (o + 15) bs))

abbrev pub ShortKey : Entry → Type 0
ShortKey e = length e.key < 2 ^ 16

ok_injective {ℓ} : {A : Type ℓ} {a b : A} → ok a ≡ ok b → a ≡ b
ok_injective e = cc

decode_entries_keys :
    (count : ℕ) (bs : Bytes) (total_len o : ℕ) (es : List Entry)
    → All IsByte bs
    → decode_entries count bs total_len o ≡ ok es
    → All ShortKey es
unfolding decode_entries
decode_entries_keys zero bs total_len o [] h k = tt
decode_entries_keys zero bs total_len o (e ∷ es) h k = cc
decode_entries_keys (suc count) bs total_len o es h k =
    let ((e, next), found, more) = bind_returns _ (decode_entry bs total_len o) k in
    let (rest, decoded, same) = bind_returns _ (decode_entries count bs total_len next) more in
    subst (All ShortKey) (ok_injective same) (
      decode_entry_key bs total_len o next e h found,
      decode_entries_keys count bs total_len next rest h decoded,
    )

abbrev pub BytesOf : Entry → Type 0
BytesOf e = All IsByte e.key × All IsByte e.value.bytes

stored_bytes-IsByte : (v : Value) → All IsByte v.bytes → All IsByte (stored_bytes v)
unfolding stored_bytes
stored_bytes-IsByte v h = elim (Bool-cases v.tombstone) [ inl t ↦ rw t tt | inr t ↦ rw t h ]

encode_entry-IsByte : (e : Entry) → BytesOf e → All IsByte (encode_entry e)
unfolding encode_entry
encode_entry-IsByte e (hk, hv) =
    let v = stored_bytes e.value in
    (
      flag-lt e,
      All-append _ (little_endian 8 e.seq) _ (little_endian-IsByte 8 e.seq) (
          All-append _ (little_endian 2 (length e.key % 2 ^ 16)) _ (little_endian-IsByte 2 _) (
            All-append _ (little_endian 4 (length v % 2 ^ 32)) _ (little_endian-IsByte 4 _)
              (All-append _ e.key v hk (stored_bytes-IsByte e.value hv)))),
    )

encode_entries-IsByte : (es : List Entry) → All BytesOf es → All IsByte (encode_entries es)
unfolding encode_entries
encode_entries-IsByte [] h = tt
encode_entries-IsByte (e ∷ es) (he, hs) =
    All-append _ (encode_entry e) _ (encode_entry-IsByte e he) (encode_entries-IsByte es hs)

-- The encoder writes bytes.
pub encode_record-IsByte : (es : List Entry) → All BytesOf es → All IsByte (encode_record es)
unfolding encode_record checked_part
encode_record-IsByte es h =
    All-append _ (little_endian 4 (checksum_ieee (checked_part es))) _ (little_endian-IsByte 4 _) (
      All-append _ (little_endian 4 ((2 + entries_size es) % 2 ^ 32)) _ (little_endian-IsByte 4 _) (
        All-append _ (little_endian 2 (length es % 2 ^ 16)) _ (little_endian-IsByte 2 _)
          (encode_entries-IsByte es h)))

-- No record decodes to an entry whose key has 2 ^ 16 bytes or more.
pub decode_record_keys :
    (bs : Bytes) (es : List Entry) (n : ℕ)
    → All IsByte bs
    → decode_record bs ≡ ok (es, n)
    → All ShortKey es
unfolding decode_record
decode_record_keys bs es n h k =
    decode_entries_keys (uint_at 2 bs 8) bs (header_size + uint_at 4 bs 4) 10 es h (ground arith)

-- Nothing that is decoded has a key of 2 ^ 16 bytes or more. A write of such a key is logged, and
-- its record, whatever becomes of it, never gives the entry back.
pub long_key_lost :
    (e : Entry) (n : ℕ)
    → 2 ^ 16 ≤ length e.key
    → BytesOf e
    → decode_record (encode_record (e ∷ [])) ≢ ok (e ∷ [], n)
long_key_lost e n long h k =
    absurd
      (omega (arith, (decode_record_keys _ (e ∷ []) n (encode_record-IsByte (e ∷ []) (h, tt)) k).0))
