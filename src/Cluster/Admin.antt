-- ===== src/Cluster/Admin.antt =====
-- cluster/admin.go: JoinRing, ActivateNode and RemoveNode. Each reads the ring descriptor under the
-- lock, decides, and applies a new descriptor under the lock again; another request may come in
-- between, so a request is two steps here.
pub mod Cas
mod Runs
use lithicdb.Common.{
  ℕ, ◌+◌, ◌%◌, ◌^◌, Bool, true, false, not, Option, none, some, List, [], ◌∷◌, ◌++◌, map, length,
  ltb, ◌==◌, if◌then◌else◌,
}
use lithicdb.Common.Bytes.{Bytes, bytes_eq}
use lithicdb.Common.Names.{mem, keep}
use lithicdb.Cluster.Membership.{
  RingRole, ring_none, ring_joining, ring_active, role_rank, MemberState, RingMember,
  RingDescriptor, Membership, member_of,
}
use lithicdb.Cluster.Membership.Merge.{apply_ring_descriptor}

pub data Refusal : Type 0 where
  invalid_argument failed_precondition already_exists not_found : Refusal

-- The descriptor to apply, or the status that the request gets.
pub data Decision : Type 0 where
  refused : Refusal → Decision
  apply : RingDescriptor → Decision

abbrev pub addr_of : Membership → Bytes → Bytes
addr_of m id = elim (member_of m.members id) [ none ↦ [] | some s ↦ s.addr ]

abbrev pub ring_ids : List RingMember → List Bytes
ring_ids rs = map (λ (r : RingMember). r.node_id) rs

-- The version is a uint64.
abbrev pub next_version : RingDescriptor → ℕ
next_version rd = (rd.version + 1) % 2 ^ 64

unfoldable pub decide_join : Membership → Bytes → Bytes → ℕ → Decision
decide_join m id addr expected =
    if length id == 0
    then refused invalid_argument
    else if length addr == 0
    then refused invalid_argument
    else if length (addr_of m id) == 0
    then refused failed_precondition
    else if not (expected == m.ring_desc.version)
    then refused failed_precondition
    else if mem id (ring_ids m.ring_desc.members)
    then refused already_exists
    else apply (record {
      version = next_version m.ring_desc;
      members =
          m.ring_desc.members ++ (record { node_id = id; addr = addr; state = ring_joining } ∷ []);
    })

-- The state of the first entry for the node, and the entries with that one active.
unfoldable pub entry_state : List RingMember → Bytes → Option RingRole
entry_state [] id = none
entry_state (r ∷ rs) id = if bytes_eq r.node_id id then some r.state else entry_state rs id

unfoldable pub activate_entry : List RingMember → Bytes → List RingMember
activate_entry [] id = []
activate_entry (r ∷ rs) id =
    if bytes_eq r.node_id id
    then record r { state = ring_active } ∷ rs
    else r ∷ activate_entry rs id

abbrev pub is_joining : RingRole → Bool
is_joining role = role_rank role == 1

unfoldable pub decide_activate : Membership → Bytes → ℕ → Decision
decide_activate m id expected =
    if length id == 0
    then refused invalid_argument
    else if not (expected == m.ring_desc.version)
    then refused failed_precondition
    else elim (entry_state m.ring_desc.members id) [
      | none ↦ refused not_found
      | some role ↦
          if is_joining role
          then apply (record {
            version = next_version m.ring_desc;
            members = activate_entry m.ring_desc.members id;
          })
          else refused failed_precondition
    ]

unfoldable pub decide_remove : Membership → Bytes → ℕ → Decision
decide_remove m id expected =
    if length id == 0
    then refused invalid_argument
    else if not (expected == m.ring_desc.version)
    then refused failed_precondition
    else if not (mem id (ring_ids m.ring_desc.members))
    then refused not_found
    else apply (record {
      version = next_version m.ring_desc;
      members = keep (λ (r : RingMember). not (bytes_eq r.node_id id)) m.ring_desc.members;
    })

-- The second step: the new state, and whether the request is answered with success.
unfoldable pub finish : Membership → Decision → Membership × Bool
finish m (refused why) = (m, false)
finish m (apply rd) = (apply_ring_descriptor m rd, true)
