-- ===== src/Cluster/Membership.antt =====
-- cluster/membership.go, cluster/gossip.go and the transitions of cluster/swim.go, with the types of
-- cluster/transport.go. The map of members is a list without repeated ids. The lock makes each
-- function one step; the clock's reading is an argument. Callbacks are values that a step returns.
pub mod Merge
pub mod Lattice
pub mod Converge
pub mod RingState
mod Runs
use lithicdb.Common.{
  ℕ, zero, suc, ◌+◌, ◌-◌, ◌*◌, ◌%◌, ◌^◌, Bool, true, false, not, Option, none, some, List, [], ◌∷◌,
  ◌++◌, ◌&&◌, map, length, take, ltb, leb, ◌==◌, if◌then◌else◌,
}
use lithicdb.Common.Bytes.{Bytes, bytes_eq}
use lithicdb.Common.Names.{keep, mem}

pub data LivenessState : Type 0 where
  alive suspect dead : LivenessState

pub data RingRole : Type 0 where
  ring_none ring_joining ring_active : RingRole

-- The order of the constants.
abbrev pub rank : LivenessState → ℕ
rank alive = 0
rank suspect = 1
rank dead = 2

abbrev pub role_rank : RingRole → ℕ
role_rank ring_none = 0
role_rank ring_joining = 1
role_rank ring_active = 2

pub record MemberState : Type 0 where
  pub node_id : Bytes
  pub addr : Bytes
  pub liveness : LivenessState
  pub ring : RingRole
  pub incarnation : ℕ

pub record RingMember : Type 0 where
  pub node_id : Bytes
  pub addr : Bytes
  pub state : RingRole

pub record RingDescriptor : Type 0 where
  pub version : ℕ
  pub members : List RingMember

pub record Broadcast : Type 0 where
  pub state : MemberState
  pub retransmits : ℕ

pub record LivenessEvent : Type 0 where
  pub node_id : Bytes
  pub from : LivenessState
  pub to : LivenessState

pub record Membership : Type 0 where
  pub self_id : Bytes
  pub members : List MemberState
  pub broadcasts : List Broadcast
  pub suspect_timers : List Bytes
  -- A uint64, counted here without its wrap-around.
  pub member_gen : ℕ
  pub dead_since : List (Bytes × ℕ)
  pub ring_desc : RingDescriptor
  pub retransmit_mult : ℕ
  pub max_broadcasts : ℕ
  pub max_piggyback : ℕ

-- NewMembership, with the parts of the configuration that are used here.
unfoldable pub new_membership : Bytes → Bytes → ℕ → ℕ → ℕ → Membership
new_membership id addr mult broadcasts piggyback = record {
  self_id = id;
  members =
      record { node_id = id; addr = addr; liveness = alive; ring = ring_none; incarnation = 1 }
      ∷ [];
  broadcasts = [];
  suspect_timers = [];
  member_gen = 0;
  dead_since = [];
  ring_desc = record { version = 0; members = [] };
  retransmit_mult = mult;
  max_broadcasts = broadcasts;
  max_piggyback = piggyback;
}

unfoldable pub member_of : List MemberState → Bytes → Option MemberState
member_of [] id = none
member_of (m ∷ ms) id = if bytes_eq m.node_id id then some m else member_of ms id

-- An assignment to the map, or to what the map's pointer points to.
unfoldable pub put_member : List MemberState → MemberState → List MemberState
put_member [] s = s ∷ []
put_member (m ∷ ms) s = if bytes_eq m.node_id s.node_id then s ∷ ms else m ∷ put_member ms s

-- The smallest `k` with n <= 2 ^ k; `fuel` bounds it.
unfoldable pub ceil_log2 : ℕ → ℕ → ℕ → ℕ
ceil_log2 zero n k = k
ceil_log2 (suc fuel) n k = let more = ceil_log2 fuel n (k + 1) in if leb n (2 ^ k) then k else more

unfoldable pub retransmit_limit : Membership → ℕ
retransmit_limit m =
    let n = length m.members in
    if ltb n 2 then m.retransmit_mult else m.retransmit_mult * ceil_log2 n n 0

-- sort.Slice by descending count.
unfoldable pub insert_broadcast : Broadcast → List Broadcast → List Broadcast
insert_broadcast b [] = b ∷ []
insert_broadcast b (c ∷ cs) =
    if leb b.retransmits c.retransmits then c ∷ insert_broadcast b cs else b ∷ c ∷ cs

unfoldable pub sort_broadcasts : List Broadcast → List Broadcast → List Broadcast
sort_broadcasts sorted [] = sorted
sort_broadcasts sorted (b ∷ bs) = sort_broadcasts (insert_broadcast b sorted) bs

unfoldable pub queue_broadcast : Membership → MemberState → Membership
queue_broadcast m s =
    let all = m.broadcasts ++ (record { state = s; retransmits = retransmit_limit m } ∷ []) in
    let cap = if m.max_broadcasts == 0 then 128 else m.max_broadcasts in
    record m {
      broadcasts = if ltb cap (length all) then take cap (sort_broadcasts [] all) else all;
    }

-- The loop over the sorted buffer: `picked` counts the updates taken so far.
unfoldable pub pick_broadcasts : ℕ → ℕ → List Broadcast → List MemberState × List Broadcast
pick_broadcasts limit picked [] = ([], [])
pick_broadcasts limit picked (b ∷ bs) =
    let taken = ltb picked limit in
    let left = if taken then b.retransmits - 1 else b.retransmits in
    let rest = pick_broadcasts limit (if taken then picked + 1 else picked) bs in
    (
      if taken then b.state ∷ rest.0 else rest.0,
      if ltb 0 left then record { state = b.state; retransmits = left } ∷ rest.1 else rest.1,
    )

unfoldable pub get_broadcasts : Membership → ℕ → Membership × List MemberState
get_broadcasts m limit =
    let picked = pick_broadcasts limit 0 (sort_broadcasts [] m.broadcasts) in
    (record m { broadcasts = picked.1 }, picked.0)

abbrev pub liveness_eq : LivenessState → LivenessState → Bool
liveness_eq a b = rank a == rank b

unfoldable pub without_id : Bytes → List (Bytes × ℕ) → List (Bytes × ℕ)
without_id id entries = keep (λ (e : Bytes × ℕ). not (bytes_eq e.0 id)) entries

-- The transition of a member that is there.
unfoldable pub transition : Membership → MemberState → LivenessState → ℕ → Membership
transition m ms to time =
    let moved = record ms { liveness = to } in
    queue_broadcast
      (record m {
        members = put_member m.members moved;
        member_gen = m.member_gen + 1;
        dead_since =
            if liveness_eq to dead
            then (ms.node_id, time) ∷ without_id ms.node_id m.dead_since
            else without_id ms.node_id m.dead_since;
        suspect_timers =
            if liveness_eq ms.liveness suspect
            then keep (λ (i : Bytes). not (bytes_eq i ms.node_id)) m.suspect_timers
            else m.suspect_timers;
      })
      moved

unfoldable pub set_liveness :
    Membership → Bytes → LivenessState → ℕ → Membership × Option LivenessEvent
set_liveness m id to time = elim (member_of m.members id) [
  | none ↦ (m, none)
  | some ms ↦
      if liveness_eq ms.liveness to
      then (m, none)
      else (transition m ms to time, some (record { node_id = id; from = ms.liveness; to = to }))
]
