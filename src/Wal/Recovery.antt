-- ===== src/Wal/Recovery.antt =====
-- wal/reader.go: recovery after a crash.
use lithicdb.Common.{
  ℕ, zero, suc, ◌+◌, ◌-◌, ◌≤◌, ◌<◌, ◌≡◌, refl, sym, ap, ◌∙◌, ◌≢◌, ◌↔◌, ◌⊎◌, inl, inr, Bool-cases,
  List, [], ◌∷◌, ◌++◌, append-nil, append_assoc, arith, ltb, length, length-append, length-drop,
  take, drop,
}
use mathlib.Core.List.{flatten}
use lithicdb.Common.Bytes.{Bytes, All}
use lithicdb.Common.Crc32.{checksum_ieee}
use lithicdb.Common.Slices.{drop_append, take_prefix, drop_prefix}
use lithicdb.Wal.{
  header_size, Entry, ok, err, panics, stuck, short_record, corrupt_record, invalid_flag,
  entries_size, encode_record, uint_at, decode_record, recover_loop, recover, decode_entry,
  decode_entries,
}
use lithicdb.Wal.Calls.{Outcome-cases}
use lithicdb.Wal.Encode.{IsBatch, length-encode_record}
use lithicdb.Wal.RoundTrip.{decode-encode_record, stored_size}

-- What the calls of `WriteEntries` have put into the file.
pub log_bytes : List (List Entry) → Bytes
log_bytes [] = []
log_bytes (es ∷ batches) = encode_record es ++ log_bytes batches

-- A proper prefix of the record of some batch: what a crash may leave of the last write.
pub record IsTorn (torn : Bytes) : Type 0 where
  pub batch : List Entry
  pub valid : IsBatch batch
  pub missing : Bytes
  pub is_prefix : torn ++ missing ≡ encode_record batch
  pub incomplete : 0 < length missing

-- A field that lies in a prefix is read from the prefix.
uint_at_prefix :
    (width o : ℕ) (xs ys : Bytes)
    → o + width ≤ length xs
    → uint_at width (xs ++ ys) o ≡ uint_at width xs o
unfolding uint_at
uint_at_prefix width o xs ys h = rw (
  drop_prefix o xs ys (omega arith),
  take_prefix width (drop o xs) ys (omega (arith, length-drop o xs)),
)

-- The decoder takes the whole record or calls it short: no proper prefix decodes.
pub decode_torn : (torn : Bytes) → IsTorn torn → decode_record torn ≡ err short_record
unfolding decode_record
decode_torn torn t =
    let whole : length torn + length t.missing ≡ 10 + entries_size t.batch =
      sym (length-append torn t.missing) ∙ ap length t.is_prefix ∙ length-encode_record t.batch in
    elim (Bool-cases (ltb (length torn) header_size)) [
      | inl short ↦ rw short
      | inr long ↦
          let stored : uint_at 4 torn 4 ≡ 2 + entries_size t.batch =
            sym (uint_at_prefix 4 4 torn t.missing (ground arith))
            ∙ ap (λ (l : Bytes). uint_at 4 l 4)
                (t.is_prefix ∙ sym (append-nil (encode_record t.batch)))
            ∙ stored_size t.batch t.valid [] in
          rw (long, stored) (ground (arith, t.incomplete))
    ]

-- A decoded record is not empty and lies in the input.
decode_record_takes :
    (bs : Bytes) (es : List Entry) (n : ℕ)
    → decode_record bs ≡ ok (es, n)
    → (header_size ≤ n) × (n ≤ length bs)
unfolding decode_record
decode_record_takes bs es n h = ground arith

decode_entry-ne-stuck : (bs : Bytes) (total_len o : ℕ) → decode_entry bs total_len o ≢ stuck
unfolding decode_entry
decode_entry-ne-stuck bs total_len o h = ground arith

-- The guards of a round keep its accesses inside of the record, which lies in the input.
decode_entry_stays :
    (bs : Bytes) (total_len o : ℕ) → total_len ≤ length bs → decode_entry bs total_len o ≢ panics
unfolding decode_entry
decode_entry_stays bs total_len o fits h = ground arith

decode_entries-ne-stuck :
    (count : ℕ) (bs : Bytes) (total_len o : ℕ) → decode_entries count bs total_len o ≢ stuck
unfolding decode_entries
decode_entries-ne-stuck zero bs total_len o = λ h. cc
decode_entries-ne-stuck (suc count) bs total_len o =
    elim (Outcome-cases (decode_entry bs total_len o)) [
      | inl ((e, next), found) ↦
          rw found (
            let rest = decode_entries-ne-stuck count bs total_len next in λ h. ground (arith, rest))
      | inr (inl (e, failed)) ↦ rw failed (λ h. cc)
      | inr (inr (inl p)) ↦ rw p (λ h. cc)
      | inr (inr (inr s)) ↦ absurd (decode_entry-ne-stuck bs total_len o s)
    ]

decode_entries_stay :
    (count : ℕ) (bs : Bytes) (total_len o : ℕ)
    → total_len ≤ length bs
    → decode_entries count bs total_len o ≢ panics
unfolding decode_entries
decode_entries_stay zero bs total_len o fits = λ h. cc
decode_entries_stay (suc count) bs total_len o fits =
    elim (Outcome-cases (decode_entry bs total_len o)) [
      | inl ((e, next), found) ↦
          rw found (
            let rest = decode_entries_stay count bs total_len next fits in
            λ h. ground (arith, rest))
      | inr (inl (e, failed)) ↦ rw failed (λ h. cc)
      | inr (inr (inl p)) ↦ absurd (decode_entry_stays bs total_len o fits p)
      | inr (inr (inr s)) ↦ absurd (decode_entry-ne-stuck bs total_len o s)
    ]

decode_record-ne-stuck : (bs : Bytes) → decode_record bs ≢ stuck
unfolding decode_record
decode_record-ne-stuck bs h =
    ground (arith, decode_entries-ne-stuck (uint_at 2 bs 8) bs (header_size + uint_at 4 bs 4) 10)

recover_loop-ne-stuck :
    (fuel : ℕ) (bs : Bytes) (all : List Entry) → length bs ≤ fuel → recover_loop fuel bs all ≢ stuck
unfolding recover_loop
recover_loop-ne-stuck fuel [] all h = λ p. cc
recover_loop-ne-stuck zero (b ∷ bs) all h = absurd (omega arith)
recover_loop-ne-stuck (suc fuel) (b ∷ bs) all h = elim (Outcome-cases (decode_record (b ∷ bs))) [
  | inl ((es, n), e) ↦
      rw (e, recover_loop)
        (recover_loop-ne-stuck fuel (drop n (b ∷ bs)) (all ++ es)
          (omega (arith, decode_record_takes (b ∷ bs) es n e, length-drop n (b ∷ bs))))
  | inr (inl (corrupt_record, e)) ↦ rw (e, recover_loop) (λ p. cc)
  | inr (inl (short_record, e)) ↦ rw (e, recover_loop) (λ p. cc)
  | inr (inl (invalid_flag, e)) ↦ rw (e, recover_loop) (λ p. cc)
  | inr (inr (inl e)) ↦ rw (e, recover_loop) (λ p. cc)
  | inr (inr (inr e)) ↦ absurd (decode_record-ne-stuck (b ∷ bs) e)
]

-- The recovery loop ends on every file: the rounds that it is given are enough.
pub recover-ne-stuck : (bs : Bytes) → recover bs ≢ stuck
unfolding recover
recover-ne-stuck bs = recover_loop-ne-stuck (length bs) bs [] (omega arith)

-- The decoder panics on exactly the inputs that end before the count although their checksum fits:
-- in the loop over the entries no access leaves the input.
pub decode_record_panics :
    (bs : Bytes)
    → (decode_record bs ≡ panics) ↔ (
        (header_size ≤ length bs)
        × (length bs < header_size + 2)
        × (header_size + uint_at 4 bs 4 ≤ length bs)
        × (uint_at 4 bs 0 ≡ checksum_ieee (take (header_size + uint_at 4 bs 4 - 4) (drop 4 bs))))
unfolding decode_record
decode_record_panics bs = (
  λ h. ground (arith, decode_entries_stay (uint_at 2 bs 8) bs (header_size + uint_at 4 bs 4) 10),
  λ h. ground arith,
)

recover_loop_step :
    (fuel : ℕ) (bs : Bytes) (all es : List Entry) (n : ℕ)
    → decode_record bs ≡ ok (es, n)
    → recover_loop (suc fuel) bs all ≡ recover_loop fuel (drop n bs) (all ++ es)
unfolding recover_loop
recover_loop_step fuel [] all es n e = unfold decode_record in ground arith
recover_loop_step fuel (b ∷ bs) all es n e = rw (e, recover_loop)

recover_loop_torn :
    (fuel : ℕ) (torn : Bytes) (all : List Entry)
    → length torn ≤ fuel
    → (torn ≡ []) ⊎ IsTorn torn
    → recover_loop fuel torn all ≡ ok all
unfolding recover_loop
recover_loop_torn fuel [] all h t = refl
recover_loop_torn zero (b ∷ bs) all h t = absurd (omega arith)
recover_loop_torn (suc fuel) (b ∷ bs) all h (inl e) = cc
recover_loop_torn (suc fuel) (b ∷ bs) all h (inr t) = rw (decode_torn (b ∷ bs) t, recover_loop)

room :
    (es : List Entry) (batches : List (List Entry)) (torn : Bytes)
    → length (log_bytes batches ++ torn) < length (log_bytes (es ∷ batches) ++ torn)
unfolding log_bytes
room es batches torn = rw (append_assoc (encode_record es) (log_bytes batches) torn) (
    omega (
      arith,
      length-append (encode_record es) (log_bytes batches ++ torn),
      length-encode_record es,
    ))

recover_loop-log_bytes :
    (batches : List (List Entry)) (fuel : ℕ) (torn : Bytes) (all : List Entry)
    → All IsBatch batches
    → length (log_bytes batches ++ torn) ≤ fuel
    → (torn ≡ []) ⊎ IsTorn torn
    → recover_loop fuel (log_bytes batches ++ torn) all ≡ ok (all ++ flatten batches)
unfolding log_bytes flatten
recover_loop-log_bytes [] fuel torn all valid h t =
    rw (recover_loop_torn fuel torn all h t) (ap ok (sym (append-nil all)))
recover_loop-log_bytes (es ∷ batches) zero torn all valid h t =
    absurd (omega (arith, room es batches torn))
recover_loop-log_bytes (es ∷ batches) (suc fuel) torn all (ve, vs) h t =
    let r = encode_record es in
    let rest = log_bytes batches ++ torn in
    rw (append_assoc r (log_bytes batches) torn) (
      recover_loop_step fuel (r ++ rest) all es (length r) (decode-encode_record es ve rest)
      ∙ rw (drop_append (length r) r rest refl) (
          recover_loop-log_bytes batches fuel torn (all ++ es) vs
            (omega (arith, room es batches torn)) t
          ∙ ap ok (append_assoc all es (flatten batches))))

-- After a crash in the middle of a write the entries of all complete writes are recovered, in
-- order, and nothing of the torn one; a clean end of the file is the case with nothing torn.
pub recover-log_bytes :
    (batches : List (List Entry)) (torn : Bytes)
    → All IsBatch batches
    → (torn ≡ []) ⊎ IsTorn torn
    → recover (log_bytes batches ++ torn) ≡ ok (flatten batches)
unfolding recover
recover-log_bytes batches torn valid t =
    recover_loop-log_bytes batches _ torn [] valid (omega arith) t
