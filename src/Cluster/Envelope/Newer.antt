-- ===== src/Cluster/Envelope/Newer.antt =====
-- cluster/envelope.go: last writer wins, whatever the order of the replies.
use lithicdb.Common.{
  ◌≡◌, refl, ap, ◌∙◌, Bool, true, false, not, ◌||◌, Bool-cases, inl, inr, arith, if◌then◌else◌,
}
use lithicdb.Hlc.{Timestamp, less, equal}
use lithicdb.Hlc.Order.{less_irrefl, less_trans, less_total, equal_iff}
use lithicdb.Cluster.Envelope.{EnvelopeRecord, newer_envelope}

-- `b` does not come after `a`.
abbrev at_most : Timestamp → Timestamp → Bool
at_most b a = less b a || equal a b

at_most-less : (a b : Timestamp) → at_most b a ≡ not (less a b)
at_most-less a b = elim (Bool-cases (equal a b)) [
  | inl e ↦ let same : a ≡ b = (equal_iff a b).0 e in ground (arith, less_irrefl b, same)
  | inr e ↦ ground (arith, less_total a b e)
]

newer-less :
    (a b : EnvelopeRecord) → newer_envelope a b ≡ (if less a.timestamp b.timestamp then b else a)
unfolding newer_envelope
newer-less a b = ground (arith, at_most-less a.timestamp b.timestamp)

-- Transitivity of the other direction.
not_less_trans : (a b c : Timestamp) → less a b ≡ false → less b c ≡ false → less a c ≡ false
not_less_trans a b c h k = elim (Bool-cases (equal a b)) [
  | inl e ↦ ap (λ (x : Timestamp). less x c) ((equal_iff a b).0 e) ∙ k
  | inr e ↦ ground (arith, less_total a b e, less_trans b a c)
]

newer_second : (a b : EnvelopeRecord) → less a.timestamp b.timestamp ≡ true → newer_envelope a b ≡ b
newer_second a b p = rw (newer-less a b, p) refl

newer_first : (a b : EnvelopeRecord) → less a.timestamp b.timestamp ≡ false → newer_envelope a b ≡ a
newer_first a b p = rw (newer-less a b, p) refl

module _ (a b c : EnvelopeRecord) where
  newer_assoc : newer_envelope (newer_envelope a b) c ≡ newer_envelope a (newer_envelope b c)
  newer_assoc = elim (Bool-cases (less a.timestamp b.timestamp)) [
    | inl p ↦ elim (Bool-cases (less b.timestamp c.timestamp)) [
      | inl q ↦
          let r = less_trans a.timestamp b.timestamp c.timestamp p q in
          cc (newer_second a b p, newer_second b c q, newer_second a c r)
      | inr q ↦ cc (newer_second a b p, newer_first b c q)
    ]
    | inr p ↦ elim (Bool-cases (less b.timestamp c.timestamp)) [
      | inl q ↦ cc (newer_first a b p, newer_second b c q)
      | inr q ↦
          let r = not_less_trans a.timestamp b.timestamp c.timestamp p q in
          cc (newer_first a b p, newer_first b c q, newer_first a c r)
    ]
  ]

  newer_comm : (newer_envelope a b).timestamp ≡ (newer_envelope b a).timestamp
  newer_comm = elim (Bool-cases (equal a.timestamp b.timestamp)) [
    | inl e ↦
        let same : a.timestamp ≡ b.timestamp = (equal_iff a.timestamp b.timestamp).0 e in
        rw (newer-less a b, newer-less b a) (ground (arith, same))
    | inr e ↦
        rw (newer-less a b, newer-less b a) (ground (arith, less_total a.timestamp b.timestamp e))
  ]

  -- The newest of three envelopes does not depend on the grouping, and the timestamp of the newest
  -- of two not on the order.
  pub newer_laws :
      (newer_envelope (newer_envelope a b) c ≡ newer_envelope a (newer_envelope b c))
      × ((newer_envelope a b).timestamp ≡ (newer_envelope b a).timestamp)
  newer_laws = (newer_assoc, newer_comm)
