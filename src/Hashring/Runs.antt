-- ===== src/Hashring/Runs.antt =====
-- hashring: runs on three nodes of one virtual node each, with a simple hash.
use lithicdb.Common.{ℕ, ◌%◌, ◌≡◌, refl, true, false, some, [], ◌∷◌, map, length, take}
use Prim.Native.Nat.{min}
use lithicdb.Common.Bytes.{Bytes, compare_bytes}
use lithicdb.Common.Endian.{from_big_endian}
use lithicdb.Common.Search.{search}
use lithicdb.Common.Names.{mem, IsDistinct}
use lithicdb.Hashring.{
  Node, Ring, hash_key, search_ring, collect, sort_vnodes, sort_onto, insert_vnode, new_vnodes,
  hash_vnode, vnode_name, append_int, node_ids, new_ring, add_node, remove_node, get_nodes, lookup,
}
use lithicdb.Hashring.Members.{IsRing}
use lithicdb.Hashring.Invariant.{new_ring-IsRing, add_node-IsRing}
use lithicdb.Hashring.Owners.{owners, get_nodes-owners}
use lithicdb.Hashring.Replicas.{get_nodes-IsDistinct}
use lithicdb.Hashring.Disruption.{get_nodes-remove_node}

abbrev simple_sum : Bytes → ℕ
simple_sum b = from_big_endian 0 b % 1000

abbrev node_a : Node
node_a = record { id = b'a' ∷ []; addr = b'1' ∷ [] }

abbrev node_b : Node
node_b = record { id = b'b' ∷ []; addr = b'2' ∷ [] }

abbrev node_c : Node
node_c = record { id = b'c' ∷ []; addr = b'3' ∷ [] }

abbrev key : Bytes
key = b'k' ∷ []

abbrev ring_ab : Ring
ring_ab = add_node simple_sum (add_node simple_sum (new_ring (some 1)) node_a) node_b

ring_ab-IsRing : IsRing ring_ab
ring_ab-IsRing =
    add_node-IsRing simple_sum (add_node simple_sum (new_ring (some 1)) node_a)
      (add_node-IsRing simple_sum (new_ring (some 1)) (new_ring-IsRing (some 1)) node_a) node_b

abbrev ring_abc : Ring
ring_abc = add_node simple_sum ring_ab node_c

add_node-IsRing_example : IsRing ring_abc
add_node-IsRing_example = add_node-IsRing simple_sum ring_ab ring_ab-IsRing node_c

c_is_new : mem node_c.id (node_ids ring_ab.nodes) ≡ false
unfolding mem add_node new_ring compare_bytes
c_is_new = refl

get_nodes-owners_example :
    get_nodes simple_sum ring_abc key 2
    ≡ map (lookup ring_abc.nodes) (take 2 (owners ring_abc (simple_sum key)))
get_nodes-owners_example = get_nodes-owners simple_sum ring_abc add_node-IsRing_example key 2

get_nodes-IsDistinct_example :
    IsDistinct (node_ids (get_nodes simple_sum ring_abc key 2))
    × (length (get_nodes simple_sum ring_abc key 2) ≡ min 2 (length ring_abc.nodes))
get_nodes-IsDistinct_example =
    get_nodes-IsDistinct simple_sum ring_abc add_node-IsRing_example key 2

b_is_there : mem node_b.id (node_ids ring_abc.nodes) ≡ true
unfolding mem add_node new_ring compare_bytes
b_is_there = refl

-- The key's two owners on the ring of three.
two_owners : get_nodes simple_sum ring_abc key 2 ≡ node_a ∷ node_c ∷ []
unfolding get_nodes hash_key search_ring collect add_node new_ring sort_vnodes sort_onto
    insert_vnode new_vnodes hash_vnode vnode_name append_int lookup mem compare_bytes search
    from_big_endian
two_owners = refl

b_is_no_owner : mem node_b.id (node_ids (get_nodes simple_sum ring_abc key 2)) ≡ false
unfolding mem compare_bytes
b_is_no_owner = rw two_owners refl

get_nodes-remove_node_example :
    get_nodes simple_sum (remove_node ring_abc node_b.id) key 2
    ≡ get_nodes simple_sum ring_abc key 2
get_nodes-remove_node_example =
    get_nodes-remove_node simple_sum ring_abc node_b.id key 2 add_node-IsRing_example b_is_there
      b_is_no_owner
