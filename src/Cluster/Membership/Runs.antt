-- ===== src/Cluster/Membership/Runs.antt =====
-- cluster: the member table of node `a`, and what it makes of updates.
use lithicdb.Common.{◌≡◌, refl, false, some, [], ◌∷◌, if◌then◌else◌, if_both}
use lithicdb.Common.Bytes.{Bytes, bytes_eq, compare_bytes}
use lithicdb.Cluster.Membership.{
  alive, dead, ring_none, ring_active, MemberState, Membership, member_of, new_membership,
}
use lithicdb.Cluster.Membership.Merge.{merge, merge_all, role_in}
use lithicdb.Cluster.Membership.Lattice.{merged, merge-merged}
use lithicdb.Cluster.Membership.Converge.{view, merge_comm, SelfAlive, merge_all-SelfAlive}
use lithicdb.Cluster.Membership.RingState.{InRole, InStep, merge_all-InStep}

abbrev node_a : Bytes
node_a = b'a' ∷ []

abbrev node_b : Bytes
node_b = b'b' ∷ []

abbrev table : Membership
table = new_membership node_a (b'x' ∷ []) 4 128 10

-- A rumour that the node itself is dead, and two about `b`.
abbrev rumour : MemberState
rumour = record { node_id = node_a; addr = []; liveness = dead; ring = ring_none; incarnation = 7 }

abbrev b_alive : MemberState
b_alive = record {
  node_id = node_b;
  addr = [];
  liveness = alive;
  ring = ring_active;
  incarnation = 2;
}

abbrev b_dead : MemberState
b_dead = record {
  node_id = node_b;
  addr = [];
  liveness = dead;
  ring = ring_active;
  incarnation = 1;
}

merge-merged_example : member_of ((merge table rumour 0).0).members node_a ≡ (
    if bytes_eq node_a node_a
    then some (merged table (member_of table.members node_a) rumour)
    else member_of table.members node_a)
merge-merged_example = merge-merged table rumour 0 node_a

-- The rumour is refuted with a higher incarnation.
rumour_refuted :
    member_of ((merge table rumour 0).0).members node_a
    ≡ some (record {
      node_id = node_a;
      addr = b'x' ∷ [];
      liveness = alive;
      ring = ring_none;
      incarnation = 8;
    })
unfolding merged member_of new_membership compare_bytes
rumour_refuted = merge-merged_example

b_is_other : bytes_eq node_b table.self_id ≡ false
unfolding compare_bytes new_membership
b_is_other = refl

merge_comm_example :
    view (merge (merge table b_alive 0).0 b_dead 1).0 node_b
    ≡ view (merge (merge table b_dead 1).0 b_alive 0).0 node_b
merge_comm_example = merge_comm table b_alive b_dead 0 1 node_b b_is_other b_is_other

table-SelfAlive : SelfAlive table
unfolding new_membership member_of compare_bytes
table-SelfAlive = (
  record {
    node_id = node_a;
    addr = b'x' ∷ [];
    liveness = alive;
    ring = ring_none;
    incarnation = 1;
  },
  (refl, refl),
)

merge_all-SelfAlive_example : SelfAlive (merge_all table (rumour ∷ b_dead ∷ b_alive ∷ []) 0).0
merge_all-SelfAlive_example =
    merge_all-SelfAlive (rumour ∷ b_dead ∷ b_alive ∷ []) table 0 table-SelfAlive

table-InStep : InStep table
unfolding new_membership member_of role_in
table-InStep j = if_both (InRole [] j) (bytes_eq node_a j) refl tt

merge_all-InStep_example : InStep (merge_all table (rumour ∷ b_dead ∷ b_alive ∷ []) 0).0
merge_all-InStep_example = merge_all-InStep (rumour ∷ b_dead ∷ b_alive ∷ []) table 0 table-InStep
