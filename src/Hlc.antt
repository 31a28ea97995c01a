-- ===== src/Hlc.antt =====
-- hlc/timestamp.go and hlc/clock.go: hybrid logical clocks. `int64` is ℤ with its wrap-around
-- written out, a string is its bytes, and the physical clock's reading is an argument of the call.
pub mod Order
pub mod Codec
pub mod Progress
pub mod History
mod Runs
use lithicdb.Common.{
  ℕ, ◌+◌, ◌-◌, ◌%◌, ◌^◌, ◌<◌, Bool, false, Option, none, some, [], ◌++◌, ◌&&◌, not, length, take,
  drop, ltb, ◌==◌, if◌then◌else◌,
}
use lithicdb.Common.Int.{ℤ, pos, ◌-ℤ◌, ltb_ℤ, eq_ℤ, to_u64, from_u64, wrap_i64}
use lithicdb.Common.Bytes.{Bytes, bytes_eq, bytes_lt}
use lithicdb.Common.Endian.{big_endian, from_big_endian}

pub record Timestamp : Type 0 where
  pub wall_time : ℤ
  pub logical : ℕ
  pub node_id : Bytes

abbrev pub timestamp_header_size : ℕ
timestamp_header_size = 14

abbrev pub max_node_id_len : ℕ
max_node_id_len = 2 ^ 16 - 1

unfoldable pub less : Timestamp → Timestamp → Bool
less t other =
    if not (eq_ℤ t.wall_time other.wall_time)
    then ltb_ℤ t.wall_time other.wall_time
    else if not (t.logical == other.logical)
    then ltb t.logical other.logical
    else bytes_lt t.node_id other.node_id

unfoldable pub equal : Timestamp → Timestamp → Bool
equal t other =
    eq_ℤ t.wall_time other.wall_time
    && t.logical == other.logical
    && bytes_eq t.node_id other.node_id

unfoldable pub is_zero : Timestamp → Bool
is_zero t = eq_ℤ t.wall_time (pos 0) && t.logical == 0 && bytes_eq t.node_id []

pub data Error : Type 0 where
  corrupt_timestamp node_id_too_long clock_drift : Error

pub data Result {ℓ} (A : Type ℓ) : Type ℓ where
  ok : A → Result A
  err : Error → Result A

-- The header fields fill `buf` from the front without a gap.
unfoldable pub encode : Timestamp → Result Bytes
encode t =
    if ltb max_node_id_len (length t.node_id)
    then err node_id_too_long
    else ok (
        big_endian 8 (to_u64 t.wall_time)
        ++ (big_endian 4 t.logical ++ (big_endian 2 (length t.node_id % 2 ^ 16) ++ t.node_id)))

unfoldable pub node_id_len : Bytes → ℕ
node_id_len b = from_big_endian 0 (take 2 (drop 12 b))

unfoldable pub decode_timestamp : Bytes → Result Timestamp
unfolding node_id_len
decode_timestamp b =
    if ltb (length b) timestamp_header_size
    then err corrupt_timestamp
    else let expected_len = timestamp_header_size + node_id_len b in
      if ltb (length b) expected_len
      then err corrupt_timestamp
      else if not (length b == expected_len)
      then err corrupt_timestamp
      else ok (record {
        wall_time = from_u64 (from_big_endian 0 (take 8 b));
        logical = from_big_endian 0 (take 4 (drop 8 b));
        node_id = take (node_id_len b) (drop timestamp_header_size b);
      })

pub record Clock : Type 0 where
  pub node_id : Bytes
  pub last : Timestamp
  pub max_drift : ℤ

abbrev pub zero_timestamp : Timestamp
zero_timestamp = record { wall_time = pos 0; logical = 0; node_id = [] }

-- time.Minute in nanoseconds.
abbrev pub default_max_drift : ℤ
default_max_drift = pos 60000000000

abbrev pub new_clock : Bytes → Clock
new_clock id = record { node_id = id; last = zero_timestamp; max_drift = default_max_drift }

pub set_max_drift : Clock → ℤ → Clock
set_max_drift c d = record c { max_drift = d }

-- `Now` returns the new `last`.
unfoldable pub now : Clock → ℤ → Clock
now c pt =
    if ltb_ℤ c.last.wall_time pt
    then record c { last = record { wall_time = pt; logical = 0; node_id = c.node_id } }
    else record c {
      last = record {
        wall_time = c.last.wall_time;
        logical = (c.last.logical + 1) % 2 ^ 32;
        node_id = c.node_id;
      };
    }

unfoldable pub max_wall : ℤ → ℤ → ℤ → ℤ
max_wall pt last received =
    let w = if ltb_ℤ pt last then last else pt in if ltb_ℤ w received then received else w

unfoldable pub new_logical : ℤ → Timestamp → Timestamp → ℕ
new_logical wall last received =
    if eq_ℤ wall last.wall_time && eq_ℤ wall received.wall_time
    then ((if ltb last.logical received.logical then received.logical else last.logical) + 1)
      % 2 ^ 32
    else if eq_ℤ wall last.wall_time
    then (last.logical + 1) % 2 ^ 32
    else if eq_ℤ wall received.wall_time
    then (received.logical + 1) % 2 ^ 32
    else 0

unfoldable pub too_far_ahead : Clock → Timestamp → ℤ → Bool
unfolding ◌-ℤ◌ wrap_i64
too_far_ahead c received pt =
    ltb_ℤ (pos 0) c.max_drift && ltb_ℤ c.max_drift (wrap_i64 (received.wall_time -ℤ pt))

-- The receive rule: the new clock, and the error if the timestamp is refused.
unfoldable pub update : Clock → Timestamp → ℤ → Clock × Option Error
unfolding max_wall new_logical
update c received pt =
    if too_far_ahead c received pt
    then (c, some clock_drift)
    else let wall = max_wall pt c.last.wall_time received.wall_time in
      (
        record c {
          last = record {
            wall_time = wall;
            logical = new_logical wall c.last received;
            node_id = c.node_id;
          };
        },
        none,
      )
