-- ===== src/Cluster/Envelope/RoundTrip.antt =====
-- cluster/envelope.go: DecodeEnvelope reads back what EncodeEnvelope wrote.
use lithicdb.Common.{
  ℕ, zero, suc, ◌+◌, ◌-◌, ◌≤◌, ◌≡◌, refl, ap, sym, ◌∙◌, Bool, true, false, not, Bool-cases, inl,
  inr, ◌⊎◌, [], ◌∷◌, ◌++◌, append-nil, arith, length, length-append, length-drop, take, drop, ltb,
  ◌==◌,
}
use lithicdb.Common.Bytes.{Bytes}
use lithicdb.Common.Endian.{from_big_endian}
use lithicdb.Common.Slices.{take_append, drop_append, drop_add}
use lithicdb.Hlc.{Timestamp, Error, Result, encode, decode_timestamp, node_id_len}
use lithicdb.Hlc.Codec.{IsTimestamp, decode-encode}
use lithicdb.Cluster.Envelope.{
  EnvelopeRecord, done, fails, bad_timestamp, encode_envelope, timestamp_end, decode_body,
  decode_envelope,
}

drop_front : (n : ℕ) (xs ys : Bytes) → n ≤ length xs → drop n (xs ++ ys) ≡ drop n xs ++ ys
drop_front zero xs ys h = refl
drop_front (suc n) [] ys h = absurd (omega arith)
drop_front (suc n) (x ∷ xs) ys h = drop_front n xs ys (omega arith)

take_front : (n : ℕ) (xs ys : Bytes) → n ≤ length xs → take n (xs ++ ys) ≡ take n xs
take_front zero xs ys h = refl
take_front (suc n) [] ys h = absurd (omega arith)
take_front (suc n) (x ∷ xs) ys h = ap (λ (l : Bytes). x ∷ l) (take_front n xs ys (omega arith))

-- A timestamp that is accepted states its own length.
length-accepted :
    (ts : Bytes) (t : Timestamp)
    → decode_timestamp ts ≡ Result.ok t
    → length ts ≡ 14 + from_big_endian 0 (take 2 (drop 12 ts))
unfolding decode_timestamp node_id_len
length-accepted ts t h = ground arith

module _ (ts v : Bytes) (t : Timestamp) (accepted : decode_timestamp ts ≡ Result.ok t)
    (flag : ℕ) where
  abbrev stored : Bytes
  stored = 1 ∷ flag ∷ (ts ++ v)

  id_len_same : take 2 (drop 12 (ts ++ v)) ≡ take 2 (drop 12 ts)
  id_len_same =
      let long = length-accepted ts t accepted in
      rw (drop_front 12 ts v (omega (arith, long)))
        (take_front 2 (drop 12 ts) v (omega (arith, long, length-drop 12 ts)))

  timestamp_end-stored : timestamp_end stored ≡ 2 + length ts
  unfolding timestamp_end
  timestamp_end-stored = rw id_len_same (omega (arith, length-accepted ts t accepted))

  length-stored : length stored ≡ 2 + (length ts + length v)
  length-stored = omega (arith, length-append ts v)

  timestamp_bytes : take (timestamp_end stored - 2) (drop 2 stored) ≡ ts
  timestamp_bytes =
      let n : timestamp_end stored - 2 ≡ length ts = omega (arith, timestamp_end-stored) in
      rw n (take_append (length ts) ts v refl)

  decode-stored :
      decode_envelope stored ≡ decode_body stored (not (flag == 0)) (timestamp_end stored) t
  unfolding decode_envelope
  decode-stored =
      let a : ltb (length stored) 2 ≡ false = ground (arith, length-stored) in
      let b : ltb (length stored) 16 ≡ false =
        ground (arith, length-stored, length-accepted ts t accepted) in
      let c : ltb (length stored) (timestamp_end stored) ≡ false =
        ground (arith, length-stored, timestamp_end-stored) in
      rw (a, b, c, timestamp_bytes, accepted, decode_envelope) refl

  value_bytes : drop (timestamp_end stored) stored ≡ v
  value_bytes =
      rw timestamp_end-stored
        (drop_add 2 (length ts) (2 + length ts) stored refl ∙ drop_append (length ts) ts v refl)

-- What Go's envelopes satisfy: the timestamp's fields are in range, and a tombstone has no value.
pub record IsEnvelope (e : EnvelopeRecord) : Type 0 where
  pub stamped : IsTimestamp e.timestamp
  pub empty : e.deleted ≡ true → e.value ≡ []

abbrev written : Bool → Bytes → Bytes → Bytes
written true value ts = 1 ∷ 1 ∷ ts
written false value ts = 1 ∷ 0 ∷ (ts ++ value)

decode-written :
    (t : Timestamp) (deleted : Bool) (value ts : Bytes)
    → (deleted ≡ true → value ≡ [])
    → decode_timestamp ts ≡ Result.ok t
    → decode_envelope (written deleted value ts)
      ≡ done (record { timestamp = t; deleted = deleted; value = value })
unfolding decode_body
decode-written t false value ts h k =
    decode-stored ts value t k 0
    ∙ ap (λ (v : Bytes). done (record { timestamp = t; deleted = false; value = v }))
        (value_bytes ts value t k 0)
decode-written t true value ts h k =
    let whole : length (stored ts [] t k 1) ≡ timestamp_end (stored ts [] t k 1) =
      omega (arith, length-stored ts [] t k 1, timestamp_end-stored ts [] t k 1) in
    ap (λ (l : Bytes). decode_envelope (1 ∷ 1 ∷ l)) (sym (append-nil ts))
    ∙ (decode-stored ts [] t k 1 ∙ rw (h refl) (ground (arith, whole)))

Result-cases {ℓ} :
    {A : Type ℓ} (r : Result A)
    → ((a : A) × (r ≡ Result.ok a)) ⊎ ((why : Error) × (r ≡ Result.err why))
Result-cases (Result.ok a) = inl (a, refl)
Result-cases (Result.err why) = inr (why, refl)

encode_envelope_ok :
    (e : EnvelopeRecord) (ts : Bytes)
    → encode e.timestamp ≡ Result.ok ts
    → encode_envelope e ≡ done (written e.deleted e.value ts)
unfolding encode_envelope
encode_envelope_ok e ts k =
    rw (k, encode_envelope) (elim (Bool-cases e.deleted) [ inl d ↦ rw d refl | inr d ↦ rw d refl ])

encode_envelope_fails :
    (e : EnvelopeRecord) (bs : Bytes) (why : Error)
    → encode e.timestamp ≡ Result.err why
    → encode_envelope e ≡ done bs
    → ⊥
unfolding encode_envelope
encode_envelope_fails e bs why k h =
    let failed : encode_envelope e ≡ fails (bad_timestamp why) = rw (k, encode_envelope) refl in
    ground (arith, failed, h)

done_injective : {x y : Bytes} → done x ≡ done y → x ≡ y
done_injective h = ground (arith, h)

-- Decoding an encoded envelope gives the envelope back, if its timestamp is in range and a
-- tombstone has no value.
pub decode-encode_envelope :
    (e : EnvelopeRecord) (bs : Bytes)
    → IsEnvelope e
    → encode_envelope e ≡ done bs
    → decode_envelope bs ≡ done e
decode-encode_envelope e bs valid h = elim (Result-cases (encode e.timestamp)) [
  | inl (ts, k) ↦ rw (sym (done_injective (sym (encode_envelope_ok e ts k) ∙ h))) (
      decode-written e.timestamp e.deleted e.value ts valid.empty
        (decode-encode e.timestamp ts valid.stamped k))
  | inr (why, k) ↦ absurd (encode_envelope_fails e bs why k h)
]
