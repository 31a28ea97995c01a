-- ===== src/Manifest/Replay.antt =====
-- manifest/manifest.go: the replay of a log of records, whole or with a torn end.
use lithicdb.Common.{
  ℕ, zero, suc, ◌+◌, ◌≤◌, ◌<◌, ◌≡◌, refl, sym, ap, ◌∙◌, Bool-cases, inl, inr, List, [], ◌∷◌, ◌++◌,
  append-nil, append_assoc, arith, ltb, length, length-append, length-drop, take, drop,
}
use lithicdb.Common.Bytes.{Bytes, All}
use lithicdb.Common.Endian.{from_little_endian}
use lithicdb.Common.Slices.{drop_append, take_prefix, drop_prefix}
use lithicdb.Manifest.{
  Record, ok, err, short_record, encode_payload, encode_record, decode_record, record_header_size,
}
use lithicdb.Manifest.RoundTrip.{
  IsRecord, decode_record-encode_record, stored_size, length-encode_record,
}
use lithicdb.Manifest.State.{Contents, apply_record, opened, replay, open_manifest, empty}

unfoldable pub log_bytes : List Record → Bytes
log_bytes [] = []
log_bytes (r ∷ rs) = encode_record r ++ log_bytes rs

-- The records applied one after the other.
unfoldable pub apply_all : List Record → Contents → Contents
apply_all [] c = c
apply_all (r ∷ rs) c = apply_all rs (apply_record r c)

-- A proper prefix of a record: what a crash may leave of a write.
pub record IsTorn (bs : Bytes) : Type 0 where
  pub rec : Record
  pub valid : IsRecord rec
  pub missing : Bytes
  pub is_prefix : bs ++ missing ≡ encode_record rec
  pub incomplete : 0 < length missing

uint_prefix : (bs ys : Bytes) → 8 ≤ length bs → take 4 (drop 4 (bs ++ ys)) ≡ take 4 (drop 4 bs)
uint_prefix bs ys h = rw (
  drop_prefix 4 bs ys (omega arith),
  take_prefix 4 (drop 4 bs) ys (omega (arith, length-drop 4 bs)),
)

pub decode_torn_record : (bs : Bytes) → IsTorn bs → decode_record bs ≡ err short_record
unfolding decode_record
decode_torn_record bs t =
    let whole : length bs + length t.missing ≡ 9 + length (encode_payload t.rec) =
      sym (length-append bs t.missing) ∙ ap length t.is_prefix ∙ length-encode_record t.rec in
    elim (Bool-cases (ltb (length bs) record_header_size)) [
      | inl short ↦ rw short refl
      | inr long ↦
          let stored : from_little_endian (take 4 (drop 4 bs)) ≡ 1 + length (encode_payload t.rec) =
            ap from_little_endian (sym (uint_prefix bs t.missing (ground arith)))
            ∙ ap (λ (l : Bytes). from_little_endian (take 4 (drop 4 l)))
                (t.is_prefix ∙ sym (append-nil (encode_record t.rec)))
            ∙ stored_size t.rec t.valid [] in
          rw (long, stored) (ground (arith, t.incomplete))
    ]

replay_step :
    (fuel : ℕ) (r : Record) (n : ℕ) (bs : Bytes) (c : Contents)
    → decode_record bs ≡ ok (r, n)
    → 0 < length bs
    → replay (suc fuel) bs c ≡ replay fuel (drop n bs) (apply_record r c)
unfolding replay
replay_step fuel r n [] c h l = absurd (omega arith)
replay_step fuel r n (b ∷ bs) c h l = rw (h, replay) refl

replay_torn :
    (fuel : ℕ) (bs : Bytes) (c : Contents)
    → IsTorn bs
    → length bs ≤ fuel
    → replay fuel bs c ≡ opened c
unfolding replay
replay_torn fuel [] c t h = refl
replay_torn zero (b ∷ bs) c t h = absurd (omega arith)
replay_torn (suc fuel) (b ∷ bs) c t h = rw (decode_torn_record (b ∷ bs) t, replay) refl

replay-log_bytes :
    (rs : List Record) (torn : Bytes) (fuel : ℕ) (c : Contents)
    → All IsRecord rs
    → IsTorn torn
    → length (log_bytes rs ++ torn) ≤ fuel
    → replay fuel (log_bytes rs ++ torn) c ≡ opened (apply_all rs c)
unfolding log_bytes apply_all
replay-log_bytes [] torn fuel c h t f = replay_torn fuel torn c t f
replay-log_bytes (r ∷ rs) torn zero c h t f = absurd (
    omega (
      arith,
      length-append (encode_record r ++ log_bytes rs) torn,
      length-append (encode_record r) (log_bytes rs),
      length-encode_record r,
    ))
replay-log_bytes (r ∷ rs) torn (suc fuel) c (hr, hs) t f =
    let rest : Bytes = log_bytes rs ++ torn in
    let a = append_assoc (encode_record r) (log_bytes rs) torn in
    let l : length (encode_record r ++ rest) ≡ length (encode_record r) + length rest =
      length-append (encode_record r) rest in
    let f' : length (encode_record r ++ rest) ≤ suc fuel = rw (sym a) f in
    let e = length-encode_record r in
    ap (λ (bs : Bytes). replay (suc fuel) bs c) a
    ∙ replay_step fuel r _ (encode_record r ++ rest) c (decode_record-encode_record r hr rest)
        (omega (arith, l, e))
    ∙ ap (λ (bs : Bytes). replay fuel bs (apply_record r c))
        (drop_append (length (encode_record r)) (encode_record r) rest refl)
    ∙ replay-log_bytes rs torn fuel (apply_record r c) hs t (omega (arith, l, e, f'))

-- `Open` on the records of a log and what a crash left behind them.
pub open-log_bytes :
    (rs : List Record) (torn : Bytes)
    → All IsRecord rs
    → IsTorn torn
    → open_manifest (log_bytes rs ++ torn) ≡ opened (apply_all rs empty)
unfolding open_manifest
open-log_bytes rs torn h t =
    replay-log_bytes rs torn (length (log_bytes rs ++ torn)) empty h t (omega arith)
