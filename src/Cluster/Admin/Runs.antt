-- ===== src/Cluster/Admin/Runs.antt =====
-- cluster: two joins that overlap.
use lithicdb.Common.{◌≡◌, refl, true, false, [], ◌∷◌, arith}
use lithicdb.Common.Bytes.{Bytes, bytes_eq, compare_bytes}
use lithicdb.Common.Names.{mem}
use lithicdb.Cluster.Membership.{
  alive, ring_none, ring_joining, MemberState, RingDescriptor, Membership, member_of,
  new_membership,
}
use lithicdb.Cluster.Admin.{apply, ring_ids, decide_join, finish}
use lithicdb.Cluster.Admin.Cas.{joins, decide, second_refused, join_lost}

abbrev node_a : Bytes
node_a = b'a' ∷ []

abbrev node_b : Bytes
node_b = b'b' ∷ []

abbrev known : Bytes → MemberState
known id = record { node_id = id; addr = id; liveness = alive; ring = ring_none; incarnation = 1 }

abbrev table : Membership
table = record (new_membership node_a node_a 4 128 10) {
  members = known node_a ∷ known node_b ∷ [];
}

abbrev with_node : Bytes → RingDescriptor
with_node id = record {
  version = 1;
  members = record { node_id = id; addr = id; state = ring_joining } ∷ [];
}

join_a : decide_join table node_a node_a 0 ≡ apply (with_node node_a)
unfolding decide_join member_of compare_bytes new_membership mem
join_a = refl

join_b : decide_join table node_b node_b 0 ≡ apply (with_node node_b)
unfolding decide_join member_of compare_bytes new_membership mem
join_b = refl

b_is_other : bytes_eq node_b node_a ≡ false
unfolding compare_bytes
b_is_other = refl

join_lost_example :
    ((finish table (apply (with_node node_a))).1 ≡ true)
    × ((finish (finish table (apply (with_node node_a))).0 (apply (with_node node_b))
          ≡ ((finish table (apply (with_node node_a))).0, true))
        × (mem node_b (ring_ids ((finish table (apply (with_node node_a))).0).ring_desc.members)
            ≡ false))
join_lost_example =
    join_lost table node_a node_a node_b node_b 0 (with_node node_a) (with_node node_b)
      (unfold new_membership in omega arith) join_a join_b b_is_other

-- `b` names the version that the accepted join of `a` has used up.
second_refused_example :
    finish
      (finish table (apply (with_node node_a))).0
      (decide (finish table (apply (with_node node_a))).0 (joins node_b node_b) 0)
    ≡ ((finish table (apply (with_node node_a))).0, false)
second_refused_example =
    second_refused table (joins node_a node_a) (joins node_b node_b) 0 (with_node node_a)
      (unfold new_membership in omega arith) (unfold decide in join_a)
