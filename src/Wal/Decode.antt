-- ===== src/Wal/Decode.antt =====
-- wal/encoding.go: the decoding loop on bytes that the encoder wrote.
use lithicdb.Common.{
  Bool-cases, inl, inr, ℕ, ◌+◌, ◌%◌, ◌^◌, ◌≤◌, ◌<◌, ◌≡◌, refl, sym, ap, ◌∙◌, true, false, List, [],
  ◌∷◌, ◌++◌, append_assoc, arith, length, length-append, length-drop, take, drop, if◌then◌else◌,
}
use lithicdb.Common.Bytes.{Bytes, All}
use lithicdb.Common.Endian.{little_endian, length-little_endian, from_little_endian_lem}
use lithicdb.Common.Slices.{take_append, drop_append, drop_add}
use lithicdb.Kv.{Value, new_value, new_tombstone}
use lithicdb.Kv.{Value, new_value, new_tombstone}
use lithicdb.Wal.{
  Entry, ok, stored_bytes, encode_entry, encode_entries, uint_at, decode_entry, decode_entries,
}
use lithicdb.Wal.Encode.{IsEntry, length-encode_entry}

-- One field of `width` bytes at `offset`, and what follows it.
module _ (bs field rest : Bytes) (width offset : ℕ) (w : length field ≡ width)
    (at : drop offset bs ≡ field ++ rest) where
  pub take_field : take width (drop offset bs) ≡ field
  take_field = rw at (take_append width field rest (sym w))

  pub drop_field : (next : ℕ) → next ≡ offset + width → drop next bs ≡ rest
  drop_field next e = drop_add offset width next bs e ∙ rw at (drop_append width field rest (sym w))

pub uint_at_lem :
    (bs rest : Bytes) (width offset v : ℕ)
    → v < 256 ^ width
    → drop offset bs ≡ little_endian width v ++ rest
    → uint_at width bs offset ≡ v
unfolding uint_at
uint_at_lem bs rest width offset v h at =
    rw (take_field bs (little_endian width v) rest width offset (length-little_endian width v) at)
      (from_little_endian_lem width v h)

-- The value that the decoder rebuilds from the flag and the stored bytes.
stored_tombstone :
    (v : Value)
    → (v.tombstone ≡ true → v.bytes ≡ [])
    → v.tombstone ≡ true
    → (stored_bytes v ≡ []) × (new_tombstone ≡ v)
unfolding stored_bytes
stored_tombstone v h t = ground (arith, h t)

stored_put : (v : Value) → v.tombstone ≡ false → new_value (stored_bytes v) ≡ v
unfolding stored_bytes
stored_put v t = ground arith

abbrev pub flag : Entry → ℕ
flag e = if e.value.tombstone then 1 else 0

pub flag-lt : (e : Entry) → flag e < 256
flag-lt e = ground arith

one_byte : (v : ℕ) → v < 256 → little_endian 1 v ≡ v ∷ []
unfolding little_endian
one_byte v h = ground arith

-- The parts of an encoded entry, from each field to the end.
module _ (e : Entry) (tail : Bytes) where
  abbrev from_value : Bytes
  from_value = stored_bytes e.value ++ tail

  abbrev from_key : Bytes
  from_key = e.key ++ from_value

  abbrev from_value_len : Bytes
  from_value_len = little_endian 4 (length (stored_bytes e.value)) ++ from_key

  abbrev from_key_len : Bytes
  from_key_len = little_endian 2 (length e.key) ++ from_value_len

  abbrev from_seq : Bytes
  from_seq = little_endian 8 e.seq ++ from_key_len

module _ (e : Entry) (valid : IsEntry e) (bs tail : Bytes) (o : ℕ)
    (at : drop o bs ≡ encode_entry e ++ tail) where
  at_flag : drop o bs ≡ little_endian 1 (flag e) ++ from_seq e tail
  unfolding encode_entry
  at_flag =
      let ek : length e.key % 2 ^ 16 ≡ length e.key = omega (arith, valid.key_range) in
      let v = stored_bytes e.value in
      let ev : length v % 2 ^ 32 ≡ length v = omega (arith, valid.value_range) in
      at ∙ rw (ek, ev) (simp append_assoc (rw (one_byte (flag e) (flag-lt e))))

  at_seq : drop (o + 1) bs ≡ from_seq e tail
  at_seq = drop_field bs _ _ 1 o (length-little_endian 1 (flag e)) at_flag (o + 1) refl

  at_key_len : drop (o + 9) bs ≡ from_key_len e tail
  at_key_len =
      drop_field bs _ _ 8 (o + 1) (length-little_endian 8 e.seq) at_seq (o + 9) (omega arith)

  at_value_len : drop (o + 11) bs ≡ from_value_len e tail
  at_value_len =
      drop_field bs _ _ 2 (o + 9) (length-little_endian 2 (length e.key)) at_key_len (o + 11)
        (omega arith)

  at_key : drop (o + 15) bs ≡ from_key e tail
  at_key =
      drop_field bs _ _ 4 (o + 11) (length-little_endian 4 (length (stored_bytes e.value)))
        at_value_len (o + 15) (omega arith)

  at_value : drop (o + 15 + length e.key) bs ≡ from_value e tail
  at_value = drop_field bs e.key _ (length e.key) (o + 15) refl at_key (o + 15 + length e.key) refl

  lies_within : o + length (encode_entry e) ≤ length bs
  lies_within = omega (
    arith,
    length-encode_entry e,
    length-drop o bs,
    ap length at,
    length-append (encode_entry e) tail,
  )

  -- The loop's round reads back the entry and stops behind it.
  pub decode-encode_entry :
      (total_len : ℕ)
      → o + length (encode_entry e) ≤ total_len
      → decode_entry bs total_len o ≡ ok (e, o + length (encode_entry e))
  unfolding decode_entry
  decode-encode_entry total_len fits =
      let v = stored_bytes e.value in
      rw
        (
          uint_at_lem bs _ 1 o (flag e) (flag-lt e) at_flag,
          uint_at_lem bs _ 8 (o + 1) e.seq valid.seq_range at_seq,
          uint_at_lem bs _ 2 (o + 9) (length e.key) valid.key_range at_key_len,
          uint_at_lem bs _ 4 (o + 11) (length v) valid.value_range at_value_len,
          take_field bs e.key _ (length e.key) (o + 15) refl at_key,
          take_field bs v tail (length v) (o + 15 + length e.key) refl at_value,
        )
        (elim (Bool-cases e.value.tombstone) [
          | inl t ↦
              let (bare, same) = stored_tombstone e.value valid.bare_tombstone t in
              let n : length (stored_bytes e.value) ≡ 0 = ap length bare in
              ground (
                arith,
                length-encode_entry e,
                lies_within,
                n,
                ap (λ (x : Value). record e { value = x }) same,
              )
          | inr t ↦ ground (
            arith,
            length-encode_entry e,
            lies_within,
            ap (λ (x : Value). record e { value = x }) (stored_put e.value t),
          )
        ])

pub decode_entries-encode_entries :
    (es : List Entry) (bs tail : Bytes) (o total_len : ℕ)
    → All IsEntry es
    → drop o bs ≡ encode_entries es ++ tail
    → o + length (encode_entries es) ≤ total_len
    → decode_entries (length es) bs total_len o ≡ ok es
unfolding decode_entries encode_entries
decode_entries-encode_entries [] bs tail o total_len valid at fits = refl
decode_entries-encode_entries (e ∷ es) bs tail o total_len (ve, vs) at fits =
    let l = length-append (encode_entry e) (encode_entries es) in
    let here : drop o bs ≡ encode_entry e ++ (encode_entries es ++ tail) =
      at ∙ append_assoc (encode_entry e) (encode_entries es) tail in
    let next =
      drop_field bs (encode_entry e) _ (length (encode_entry e)) o refl here
        (o + length (encode_entry e)) refl in
    rw (
      decode-encode_entry e ve bs (encode_entries es ++ tail) o here total_len (omega (arith, l)),
      decode_entries-encode_entries es bs tail (o + length (encode_entry e)) total_len vs next
          (omega (arith, l)),
    )
