-- ===== src/Hashring/Members.antt =====
-- hashring/ring.go: AddNode and RemoveNode.
use lithicdb.Common.{
  ℕ, zero, suc, ◌+◌, ◌≤◌, ◌≡◌, ◌⊎◌, refl, ap, ◌∙◌, Bool, true, false, not, Bool-cases, inl, inr,
  List, [], ◌∷◌, ◌++◌, arith,
}
use lithicdb.Common.Bytes.{Bytes, All, bytes_eq, compare_bytes_refl}
use lithicdb.Common.Names.{mem, keep, keep_all, IsDistinct, mem_head, eq_of_bytes_eq, bytes_eq_sym}
use lithicdb.Hashring.{
  Node, VNode, Ring, node_ids, owner_ids, new_vnodes, sort_vnodes, add_node, remove_node,
}
use lithicdb.Hashring.Order.{IsSorted, keep-sort_onto, sort_vnodes-append}

-- What every ring keeps: the virtual nodes are sorted, the ids are distinct, each virtual node
-- belongs to a node and each node has one.
pub record IsRing (r : Ring) : Type 0 where
  pub sorted : IsSorted r.vnodes
  pub ids : IsDistinct (node_ids r.nodes)
  pub owned : All (λ v. mem v.node_id (node_ids r.nodes) ≡ true) r.vnodes
  pub present : All (λ n. mem n.id (owner_ids r.vnodes) ≡ true) r.nodes
  pub positive : 1 ≤ r.vnodes_per_node

abbrev pub foreign : Bytes → VNode → Bool
foreign id v = not (bytes_eq v.node_id id)

-- A missing node has no virtual nodes.
foreign-All :
    (id : Bytes) (ids : List Bytes) (vs : List VNode)
    → mem id ids ≡ false
    → All (λ v. mem v.node_id ids ≡ true) vs
    → All (λ v. foreign id v ≡ true) vs
foreign-All id ids [] h a = tt
foreign-All id ids (v ∷ vs) h a =
    (other (Bool-cases (bytes_eq v.node_id id)), foreign-All id ids vs h a.1)
  where
    other : (bytes_eq v.node_id id ≡ true) ⊎ (bytes_eq v.node_id id ≡ false) → foreign id v ≡ true
    other (inr e) = rw e
    other (inl e) = cc (a.0, h, eq_of_bytes_eq v.node_id id e)

nodes_absent :
    (id : Bytes) (ns : List Node)
    → mem id (node_ids ns) ≡ false
    → keep (λ (n : Node). not (bytes_eq n.id id)) ns ≡ ns
unfolding keep mem
nodes_absent id [] h = refl
nodes_absent id (n ∷ ns) h = elim (Bool-cases (bytes_eq id n.id)) [
  | inl e ↦ ground (arith, h)
  | inr e ↦
      rw (bytes_eq_sym n.id id, e)
        (ap (λ (l : List Node). n ∷ l) (nodes_absent id ns (ground (arith, h))))
]

module _ (sum64 : Bytes → ℕ) where
  pub All-new_vnodes :
      (P : VNode → Type 0) (id : Bytes) (count start : ℕ)
      → ((h : ℕ) → P (record { hash = h; node_id = id }))
      → All P (new_vnodes sum64 id count start)
  unfolding new_vnodes
  All-new_vnodes P id zero start h = tt
  All-new_vnodes P id (suc count) start h = (h _, All-new_vnodes P id count (start + 1) h)

  -- On a well-formed ring, removing a node that was just added, with an id that was new, gives back
  -- the ring.
  pub remove-add_node :
      (r : Ring) (n : Node)
      → IsRing r
      → mem n.id (node_ids r.nodes) ≡ false
      → remove_node (add_node sum64 r n) n.id ≡ r
  unfolding remove_node add_node
  remove-add_node r n ring new =
      rw (new, mem_head n.id (node_ids r.nodes), old_vnodes, old_nodes) refl
    where
      old_vnodes :
          keep (foreign n.id) (sort_vnodes (r.vnodes ++ new_vnodes sum64 n.id r.vnodes_per_node 0))
          ≡ r.vnodes
      old_vnodes =
          ap (keep (foreign n.id))
            (sort_vnodes-append r.vnodes (new_vnodes sum64 n.id r.vnodes_per_node 0) ring.sorted)
          ∙ (keep-sort_onto (foreign n.id) (new_vnodes sum64 n.id r.vnodes_per_node 0) r.vnodes (
                All-new_vnodes (λ v. foreign n.id v ≡ false) n.id r.vnodes_per_node 0
                  (λ h. rw (compare_bytes_refl n.id) refl))
              ∙ keep_all (foreign n.id) r.vnodes
                  (foreign-All n.id (node_ids r.nodes) r.vnodes new ring.owned))

      old_nodes : keep (λ (m : Node). not (bytes_eq m.id n.id)) (n ∷ r.nodes) ≡ r.nodes
      old_nodes = unfold keep in rw (compare_bytes_refl n.id) (nodes_absent n.id r.nodes new)
