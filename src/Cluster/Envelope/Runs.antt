-- ===== src/Cluster/Envelope/Runs.antt =====
-- cluster/envelope.go: runs on concrete envelopes.
use lithicdb.Common.{ℕ, ◌≡◌, refl, false, [], ◌∷◌, arith}
use lithicdb.Common.Int.{pos, to_u64}
use lithicdb.Common.Bytes.{Bytes}
use lithicdb.Common.Endian.{big_endian}
use lithicdb.Hlc.{Timestamp, encode}
use lithicdb.Cluster.Envelope.{
  EnvelopeRecord, done, encode_envelope, decode_envelope, newer_envelope,
}
use lithicdb.Cluster.Envelope.RoundTrip.{IsEnvelope, decode-encode_envelope}
use lithicdb.Cluster.Envelope.Newer.{newer_laws}

abbrev stamp : ℕ → Timestamp
stamp wall = record { wall_time = pos wall; logical = 1; node_id = b'n' ∷ [] }

abbrev envelope : ℕ → EnvelopeRecord
envelope wall = record { timestamp = stamp wall; deleted = false; value = b'v' ∷ [] }

envelope-IsEnvelope : IsEnvelope (envelope 5)
envelope-IsEnvelope = record {
  stamped = record { wall_range = (omega arith, omega arith); logical_range = omega arith };
  empty = λ h. ground (arith, h);
}

abbrev stored : Bytes
stored = 1 ∷ 0 ∷ 0 ∷ 0 ∷ 0 ∷ 0 ∷ 0 ∷ 0 ∷ 0 ∷ 5 ∷ 0 ∷ 0 ∷ 0 ∷ 1 ∷ 0 ∷ 1 ∷ b'n' ∷ b'v' ∷ []

encode_stored : encode_envelope (envelope 5) ≡ done stored
unfolding encode_envelope encode big_endian to_u64
encode_stored = refl

decode-encode_envelope_example : decode_envelope stored ≡ done (envelope 5)
decode-encode_envelope_example =
    decode-encode_envelope (envelope 5) stored envelope-IsEnvelope encode_stored

newer_laws_example :
    (newer_envelope (newer_envelope (envelope 5) (envelope 9)) (envelope 7)
      ≡ newer_envelope (envelope 5) (newer_envelope (envelope 9) (envelope 7)))
    × ((newer_envelope (envelope 5) (envelope 9)).timestamp
        ≡ (newer_envelope (envelope 9) (envelope 5)).timestamp)
newer_laws_example = newer_laws (envelope 5) (envelope 9) (envelope 7)
