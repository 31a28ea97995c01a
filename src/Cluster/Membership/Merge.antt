-- ===== src/Cluster/Membership/Merge.antt =====
-- cluster/gossip.go: the merge of a gossip update, the handlers of the incoming messages, and the
-- ring description of cluster/membership.go. cluster/swim.go: the suspect timer and the reaping.
use lithicdb.Common.{
  ℕ, ◌+◌, ◌-◌, ◌%◌, ◌^◌, not, Option, none, some, List, [], ◌∷◌, ◌&&◌, ltb, leb, ◌==◌,
  if◌then◌else◌,
}
use lithicdb.Common.Bytes.{Bytes, bytes_eq}
use lithicdb.Common.Names.{keep, mem}
use lithicdb.Cluster.Membership.{
  alive, suspect, dead, RingRole, ring_none, rank, role_rank, MemberState, RingMember,
  RingDescriptor, LivenessEvent, Membership, member_of, put_member, queue_broadcast, get_broadcasts,
  liveness_eq, set_liveness, without_id,
}

-- The first entry of the descriptor for the node.
unfoldable pub role_in : List RingMember → Bytes → RingRole
role_in [] id = ring_none
role_in (r ∷ rs) id = if bytes_eq r.node_id id then r.state else role_in rs id

-- The map of the descriptor's entries, in which the last one for a node stays.
unfoldable pub last_role : List RingMember → Bytes → Option RingRole
last_role [] id = none
last_role (r ∷ rs) id =
    let later = last_role rs id in
    elim later [
      | some role ↦ some role
      | none ↦ if bytes_eq r.node_id id then some r.state else none
    ]

unfoldable pub add_member : Membership → MemberState → ℕ → Membership
add_member m remote time =
    let state = record remote { ring = role_in m.ring_desc.members remote.node_id } in
    record m {
      members = put_member m.members state;
      member_gen = m.member_gen + 1;
      dead_since =
          if liveness_eq remote.liveness dead
          then (remote.node_id, time) ∷ without_id remote.node_id m.dead_since
          else m.dead_since;
    }

-- The incarnation is a uint64.
unfoldable pub refute : Membership → MemberState → MemberState → Membership
refute m own remote =
    let refuted = record own {
      incarnation = (remote.incarnation + 1) % 2 ^ 64;
      liveness = alive;
    } in
    if leb own.incarnation remote.incarnation
    then queue_broadcast (record m { members = put_member m.members refuted }) refuted
    else m

-- A higher incarnation: the address and the incarnation first, then the liveness.
unfoldable pub renew :
    Membership → MemberState → MemberState → ℕ → Membership × Option LivenessEvent
renew m own remote time =
    let renewed = record remote { ring = own.ring; liveness = own.liveness } in
    let m' = record m { members = put_member m.members renewed; member_gen = m.member_gen + 1 } in
    if liveness_eq remote.liveness own.liveness
    then (queue_broadcast m' renewed, none)
    else set_liveness m' remote.node_id remote.liveness time

unfoldable pub merge_known :
    Membership → MemberState → MemberState → ℕ → Membership × Option LivenessEvent
merge_known m own remote time =
    if bytes_eq remote.node_id m.self_id && ltb 0 (rank remote.liveness)
    then (refute m own remote, none)
    else if ltb own.incarnation remote.incarnation
    then renew m own remote time
    else if own.incarnation == remote.incarnation && ltb (rank own.liveness) (rank remote.liveness)
    then set_liveness m remote.node_id remote.liveness time
    else (m, none)

unfoldable pub merge : Membership → MemberState → ℕ → Membership × Option LivenessEvent
merge m remote time = elim (member_of m.members remote.node_id) [
  | none ↦ (add_member m remote time, none)
  | some own ↦ merge_known m own remote time
]

unfoldable pub merge_all : Membership → List MemberState → ℕ → Membership × List LivenessEvent
merge_all m [] time = (m, [])
merge_all m (u ∷ us) time =
    let one = merge m u time in
    let rest = merge_all one.0 us time in
    (rest.0, elim one.1 [ none ↦ rest.1 | some e ↦ e ∷ rest.1 ])

-- The loop over the map of members, in the list's order.
unfoldable pub new_role : RingDescriptor → MemberState → RingRole
new_role rd ms = elim (last_role rd.members ms.node_id) [ none ↦ ring_none | some role ↦ role ]

unfoldable pub set_roles : RingDescriptor → Membership → List MemberState → Membership
set_roles rd m [] = m
set_roles rd m (ms ∷ rest) =
    let moved = record ms { ring = new_role rd ms } in
    let same = set_roles rd m rest in
    let changed =
      set_roles rd (queue_broadcast (record m { members = put_member m.members moved }) moved)
        rest in
    if role_rank ms.ring == role_rank (new_role rd ms) then same else changed

unfoldable pub apply_ring_desc : Membership → RingDescriptor → Membership
apply_ring_desc m rd = record (set_roles rd m m.members) { ring_desc = rd }

-- `ApplyRingDescriptor`: the error is always nil, also for a stale version.
unfoldable pub apply_ring_descriptor : Membership → RingDescriptor → Membership
apply_ring_descriptor m rd =
    let newer = apply_ring_desc m rd in if leb rd.version m.ring_desc.version then m else newer

unfoldable pub apply_if_newer : Membership → Option RingDescriptor → Membership
apply_if_newer m none = m
apply_if_newer m (some rd) =
    let newer = apply_ring_desc m rd in if ltb m.ring_desc.version rd.version then newer else m

abbrev pub max_piggyback_of : Membership → ℕ
max_piggyback_of m = if m.max_piggyback == 0 then 10 else m.max_piggyback

-- The new state, the updates and the descriptor of the ack, and the events.
unfoldable pub handle_ping :
    Membership
    → List MemberState
    → Option RingDescriptor
    → ℕ
    → Membership × (List MemberState × (RingDescriptor × List LivenessEvent))
handle_ping m updates rd time =
    let merged = merge_all m updates time in
    let applied = apply_if_newer merged.0 rd in
    let sent = get_broadcasts applied (max_piggyback_of applied) in
    (sent.0, (sent.1, (applied.ring_desc, merged.1)))

unfoldable pub handle_gossip_sync :
    Membership
    → List MemberState
    → Option RingDescriptor
    → ℕ
    → Membership × (List MemberState × (RingDescriptor × List LivenessEvent))
handle_gossip_sync m remote rd time =
    let merged = merge_all m remote time in
    let applied = apply_if_newer merged.0 rd in
    (applied, (applied.members, (applied.ring_desc, merged.1)))

-- The suspect timer of a node fires.
unfoldable pub suspect_timeout : Membership → Bytes → ℕ → Membership × Option LivenessEvent
suspect_timeout m id time = elim (member_of m.members id) [
  | none ↦ (m, none)
  | some ms ↦
      let fire = set_liveness m id dead time in
      if liveness_eq ms.liveness suspect then fire else (m, none)
]

unfoldable pub start_suspect_timer : Membership → Bytes → Membership
start_suspect_timer m id =
    if mem id m.suspect_timers then m else record m { suspect_timers = id ∷ m.suspect_timers }

unfoldable pub reap : Membership → Bytes → Membership
reap m id = elim (member_of m.members id) [
  | none ↦ record m { dead_since = without_id id m.dead_since }
  | some ms ↦
      if liveness_eq ms.liveness dead && role_rank ms.ring == 0
      then record m {
        members = keep (λ (s : MemberState). not (bytes_eq s.node_id id)) m.members;
        dead_since = without_id id m.dead_since;
        member_gen = m.member_gen + 1;
      }
      else m
]

-- The loop over `deadSince`; no reaping with a timeout of 0.
unfoldable pub reap_dead_nodes : ℕ → ℕ → Membership → List (Bytes × ℕ) → Membership
reap_dead_nodes timeout time m [] = m
reap_dead_nodes timeout time m ((id, since) ∷ rest) =
    let kept = reap_dead_nodes timeout time m rest in
    let reaped = reap_dead_nodes timeout time (reap m id) rest in
    if timeout == 0 then m else if ltb (time - since) timeout then kept else reaped
