-- ===== src/Cluster/Envelope.antt =====
-- cluster/envelope.go: a value with its timestamp, as it is stored.
pub mod RoundTrip
pub mod Newer
mod Runs
use lithicdb.Common.{
  ℕ, ◌+◌, ◌-◌, Bool, true, false, not, List, [], ◌∷◌, ◌++◌, ◌||◌, length, take, drop, get_or, ltb,
  ◌==◌, if◌then◌else◌,
}
use lithicdb.Common.Bytes.{Bytes}
use lithicdb.Common.Endian.{from_big_endian}
use lithicdb.Hlc.{
  Timestamp, Error, Result, timestamp_header_size, less, equal, encode, decode_timestamp,
}

abbrev pub envelope_version : ℕ
envelope_version = 1

abbrev pub envelope_header_size : ℕ
envelope_header_size = 2

pub record EnvelopeRecord : Type 0 where
  pub timestamp : Timestamp
  pub deleted : Bool
  pub value : Bytes

pub data EnvelopeError : Type 0 where
  unknown_version corrupt_envelope : EnvelopeError
  bad_timestamp : Error → EnvelopeError

pub data Answer {ℓ} (A : Type ℓ) : Type ℓ where
  done : A → Answer A
  fails : EnvelopeError → Answer A

unfoldable pub encode_envelope : EnvelopeRecord → Answer Bytes
encode_envelope e = elim (encode e.timestamp) [
  | Result.err why ↦ fails (bad_timestamp why)
  | Result.ok ts ↦
      if e.deleted
      then done (envelope_version ∷ 1 ∷ ts)
      else done (envelope_version ∷ 0 ∷ (ts ++ e.value))
]

-- hlc.NodeIDLenOffset is 12.
unfoldable pub timestamp_end : Bytes → ℕ
timestamp_end b =
    envelope_header_size
    + timestamp_header_size
    + from_big_endian 0 (take 2 (drop (envelope_header_size + 12) b))

unfoldable pub decode_body : Bytes → Bool → ℕ → Timestamp → Answer EnvelopeRecord
decode_body b deleted end ts =
    if deleted
    then (if not (length b == end)
        then fails corrupt_envelope
        else done (record { timestamp = ts; deleted = true; value = [] }))
    else done (record { timestamp = ts; deleted = false; value = drop end b })

unfoldable pub decode_envelope : Bytes → Answer EnvelopeRecord
decode_envelope b =
    if ltb (length b) envelope_header_size
    then fails corrupt_envelope
    else if not (get_or b 0 0 == envelope_version)
    then fails unknown_version
    else if ltb (length b) (envelope_header_size + timestamp_header_size)
    then fails corrupt_envelope
    else if ltb (length b) (timestamp_end b)
    then fails corrupt_envelope
    else elim (decode_timestamp
        (take (timestamp_end b - envelope_header_size) (drop envelope_header_size b))) [
          | Result.err why ↦ fails (bad_timestamp why)
          | Result.ok ts ↦ decode_body b (not (get_or b 1 0 == 0)) (timestamp_end b) ts
        ]

-- Last writer wins; `a` on equal timestamps.
unfoldable pub newer_envelope : EnvelopeRecord → EnvelopeRecord → EnvelopeRecord
newer_envelope a b = if less b.timestamp a.timestamp || equal a.timestamp b.timestamp then a else b
