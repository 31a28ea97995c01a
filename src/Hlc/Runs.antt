-- ===== src/Hlc/Runs.antt =====
-- hlc: runs on concrete clocks.
use lithicdb.Common.{ℕ, ◌≡◌, refl, ◌⊎◌, true, none, some, List, [], ◌∷◌, arith}
use lithicdb.Common.Int.{pos, negsuc, ◌+ℤ◌, ◌-ℤ◌, ◌≤ℤ◌, wrap_i64, to_u64}
use lithicdb.Common.Bytes.{Bytes}
use lithicdb.Common.Endian.{big_endian}
use lithicdb.Hlc.{
  Timestamp, Clock, clock_drift, ok, less, encode, decode_timestamp, new_clock, update,
  too_far_ahead,
}
use lithicdb.Hlc.Codec.{decode-encode}
use lithicdb.Hlc.Progress.{update_after, update_drift}
use lithicdb.Hlc.History.{Event, sends, receives, issued, Increasing, issued-Increasing}

abbrev node : Bytes
node = b'n' ∷ b'1' ∷ []

abbrev at : ℕ → ℕ → Timestamp
at w l = record { wall_time = pos w; logical = l; node_id = node }

abbrev clock_at : ℕ → ℕ → Clock
clock_at w l = record (new_clock node) { last = at w l }

abbrev before_epoch : Timestamp
before_epoch = record { wall_time = negsuc 1; logical = 7; node_id = node }

abbrev before_epoch_bytes : Bytes
before_epoch_bytes =
    255 ∷ 255 ∷ 255 ∷ 255 ∷ 255 ∷ 255 ∷ 255 ∷ 254 ∷ 0 ∷ 0 ∷ 0 ∷ 7 ∷ 0 ∷ 2 ∷ b'n' ∷ b'1' ∷ []

encode-before_epoch : encode before_epoch ≡ ok before_epoch_bytes
unfolding encode big_endian to_u64
encode-before_epoch = refl

before_epoch_decoded : decode_timestamp before_epoch_bytes ≡ ok before_epoch
before_epoch_decoded =
    decode-encode before_epoch before_epoch_bytes
      (record { wall_range = omega arith; logical_range = omega arith }) encode-before_epoch

accepted : (update (clock_at 100 3) (at 105 9) (pos 90)).1 ≡ none
unfolding update too_far_ahead ◌-ℤ◌ wrap_i64
accepted = refl

update_after_example :
    (less (at 100 3) (update (clock_at 100 3) (at 105 9) (pos 90)).0.last ≡ true)
    × (less (at 105 9) (update (clock_at 100 3) (at 105 9) (pos 90)).0.last ≡ true)
update_after_example =
    update_after (clock_at 100 3) (at 105 9) (pos 90) accepted (omega arith) (omega arith)

abbrev far : Timestamp
far = at 60000000091 0

refused : (update (clock_at 100 3) far (pos 90)).1 ≡ some clock_drift
unfolding update too_far_ahead ◌-ℤ◌ wrap_i64
refused = refl

update_drift_example :
    ((update (clock_at 100 3) (at 105 9) (pos 90)).0.last.wall_time ≤ℤ pos 100)
    ⊎ ((update (clock_at 100 3) (at 105 9) (pos 90)).0.last.wall_time ≤ℤ pos 90 +ℤ pos 60000000000)
update_drift_example =
    update_drift (clock_at 100 3) (at 105 9) (pos 90) (omega arith) (omega arith) (omega arith)
      accepted

abbrev events : List Event
events =
    sends (pos 101)
    ∷ receives (at 105 9) (pos 90)
    ∷ sends (pos 80)
    ∷ receives far (pos 80)
    ∷ sends (pos 80)
    ∷ []

issued-Increasing_example : Increasing (at 100 3) (issued (clock_at 100 3) events)
issued-Increasing_example =
    issued-Increasing (clock_at 100 3) events 9 (omega arith) (omega arith) (omega arith)
