-- ===== src/Hlc/Progress.antt =====
-- hlc/clock.go: every timestamp that a clock issues is after the ones that it has seen.
use lithicdb.Common.{
  ℕ, ◌+◌, ◌^◌, ◌≤◌, ◌<◌, ◌≡◌, true, false, ◌⊎◌, inl, inr, none, some, arith, Bool-cases,
}
use lithicdb.Common.Int.{ℤ, pos, ◌+ℤ◌, +ℤ_parts, ◌≤ℤ◌, ◌<ℤ◌, IsI64}
use lithicdb.Common.Bytes.{Bytes}
use lithicdb.Hlc.{
  Timestamp, Clock, less, now, Error, update, too_far_ahead, max_wall, new_logical, clock_drift,
}

-- `Now` is after the last timestamp, whatever the physical clock says, until the counter wraps.
pub now_after :
    (c : Clock) (pt : ℤ) → c.last.logical + 1 < 2 ^ 32 → less c.last (now c pt).last ≡ true
unfolding now less
now_after c pt h = ground arith

-- At the end of the counter's range a clock goes back if the physical time is not ahead of its last
-- wall time.
pub now_wraps :
    (c : Clock) (pt : ℤ)
    → c.last.logical + 1 ≡ 2 ^ 32
    → pt ≤ℤ c.last.wall_time
    → less (now c pt).last c.last ≡ true
unfolding now less
now_wraps c pt h k = ground arith

max_wall_bounds :
    (pt l r : ℤ) → (l ≤ℤ max_wall pt l r) × (r ≤ℤ max_wall pt l r) × (pt ≤ℤ max_wall pt l r)
unfolding max_wall
max_wall_bounds pt l r = ground arith

abbrev stamp : ℤ → Timestamp → Timestamp → Bytes → Timestamp
stamp wall last received id = record {
  wall_time = wall;
  logical = new_logical wall last received;
  node_id = id;
}

stamp_after_last :
    (wall : ℤ) (last received : Timestamp) (id : Bytes)
    → last.wall_time ≤ℤ wall
    → last.logical + 1 < 2 ^ 32
    → received.logical + 1 < 2 ^ 32
    → less last (stamp wall last received id) ≡ true
unfolding less new_logical
stamp_after_last wall last received id h k l = ground arith

stamp_after_received :
    (wall : ℤ) (last received : Timestamp) (id : Bytes)
    → received.wall_time ≤ℤ wall
    → last.logical + 1 < 2 ^ 32
    → received.logical + 1 < 2 ^ 32
    → less received (stamp wall last received id) ≡ true
unfolding less new_logical
stamp_after_received wall last received id h k l = ground arith

update_accepted :
    (c : Clock) (received : Timestamp) (pt : ℤ)
    → (update c received pt).1 ≡ none
    → (update c received pt).0 ≡ record c {
      last = stamp (max_wall pt c.last.wall_time received.wall_time) c.last received c.node_id;
    }
unfolding update
update_accepted c received pt e = elim (Bool-cases (too_far_ahead c received pt)) [
  | inl far ↦ ground arith
  | inr near ↦ rw near
]

-- An accepted timestamp and the last one both come before the new last one, as long as neither
-- logical counter is at its end.
pub update_after :
    (c : Clock) (received : Timestamp) (pt : ℤ)
    → (update c received pt).1 ≡ none
    → c.last.logical + 1 < 2 ^ 32
    → received.logical + 1 < 2 ^ 32
    → (less c.last (update c received pt).0.last ≡ true)
      × (less received (update c received pt).0.last ≡ true)
update_after c received pt e h k =
    let w = max_wall pt c.last.wall_time received.wall_time in
    let (over_last, over_received, _) = max_wall_bounds pt c.last.wall_time received.wall_time in
    rw (update_accepted c received pt e) (
      stamp_after_last w c.last received c.node_id over_last h k,
      stamp_after_received w c.last received c.node_id over_received h k,
    )

-- A refused timestamp leaves the clock as it was.
pub update_refused :
    (c : Clock) (received : Timestamp) (pt : ℤ) (e : Error)
    → (update c received pt).1 ≡ some e
    → ((update c received pt).0 ≡ c) × (e ≡ clock_drift)
unfolding update
update_refused c received pt e h = elim (Bool-cases (too_far_ahead c received pt)) [
  | inl far ↦ ground arith
  | inr near ↦ ground arith
]

pub now_logical :
    (c : Clock) (pt : ℤ) (bound : ℕ)
    → c.last.logical ≤ bound
    → bound + 1 < 2 ^ 32
    → (now c pt).last.logical ≤ bound + 1
unfolding now
now_logical c pt bound h k = ground arith

new_logical_bound :
    (wall : ℤ) (last received : Timestamp) (bound : ℕ)
    → last.logical ≤ bound
    → received.logical ≤ bound
    → bound + 1 < 2 ^ 32
    → new_logical wall last received ≤ bound + 1
unfolding new_logical
new_logical_bound wall last received bound h k l = ground arith

pub update_logical :
    (c : Clock) (received : Timestamp) (pt : ℤ) (bound : ℕ)
    → c.last.logical ≤ bound
    → received.logical ≤ bound
    → bound + 1 < 2 ^ 32
    → (update c received pt).0.last.logical ≤ bound + 1
unfolding update
update_logical c received pt bound h k l =
    let w = max_wall pt c.last.wall_time received.wall_time in
    ground (arith, new_logical_bound w c.last received bound h k l)

near_bound :
    (c : Clock) (received : Timestamp) (pt : ℤ)
    → pos 0 <ℤ c.max_drift
    → pos 0 ≤ℤ pt
    → IsI64 received.wall_time
    → too_far_ahead c received pt ≡ false
    → received.wall_time ≤ℤ pt +ℤ c.max_drift
unfolding too_far_ahead ◌+ℤ◌
near_bound c received pt h k i e = ground arith

-- With drift checking on, and a physical time that is not negative, an accepted timestamp does not
-- move the wall time past both its last value and the physical time with the maximum drift.
pub update_drift :
    (c : Clock) (received : Timestamp) (pt : ℤ)
    → pos 0 <ℤ c.max_drift
    → pos 0 ≤ℤ pt
    → IsI64 received.wall_time
    → (update c received pt).1 ≡ none
    → ((update c received pt).0.last.wall_time ≤ℤ c.last.wall_time)
      ⊎ ((update c received pt).0.last.wall_time ≤ℤ pt +ℤ c.max_drift)
unfolding update max_wall
update_drift c received pt h k i e =
    ground (arith, near_bound c received pt h k i, +ℤ_parts pt c.max_drift)
