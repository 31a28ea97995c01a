-- ===== src/Hashring/Rebuild.antt =====
-- hashring/ring.go: ReplaceMembers.
use lithicdb.Common.{
  ℕ, ◌≤◌, ◌≡◌, refl, sym, ◌∙◌, true, Bool-cases, inl, inr, List, [], ◌∷◌, arith, ◌||◌,
}
use lithicdb.Common.Bytes.{Bytes, All, All-append, bytes_eq}
use lithicdb.Common.Names.{mem, IsDistinct, mem_head, eq_of_bytes_eq}
use lithicdb.Hashring.{
  Node, VNode, Ring, node_ids, owner_ids, new_vnodes, all_vnodes, sort_vnodes, set_node, set_nodes,
  replace_members,
}
use lithicdb.Hashring.Order.{sort_onto-IsSorted, All-sort_onto}
use lithicdb.Hashring.Members.{IsRing, All-new_vnodes}
use lithicdb.Hashring.Invariant.{mem-owner_ids, mem-sort_vnodes, mem-new_vnodes}

mem-set_node :
    (x : Bytes) (ms : List Node) (n : Node)
    → mem x (node_ids (set_node ms n)) ≡ (mem x (node_ids ms) || bytes_eq x n.id)
unfolding mem set_node
mem-set_node x [] n = ground arith
mem-set_node x (m ∷ ms) n = elim (Bool-cases (bytes_eq m.id n.id)) [
  | inl e ↦ rw (e, eq_of_bytes_eq m.id n.id e) (ground arith)
  | inr e ↦ rw e (ground (arith, mem-set_node x ms n))
]

set_node-IsDistinct :
    (ms : List Node) (n : Node) → IsDistinct (node_ids ms) → IsDistinct (node_ids (set_node ms n))
unfolding set_node
set_node-IsDistinct [] n d = (unfold mem in refl, tt)
set_node-IsDistinct (m ∷ ms) n d = elim (Bool-cases (bytes_eq m.id n.id)) [
  | inl e ↦ rw e ((rw (sym (eq_of_bytes_eq m.id n.id e)) (d.0), d.1))
  | inr e ↦ rw e ((rw (mem-set_node m.id ms n, d.0, e) refl, set_node-IsDistinct ms n d.1))
]

mem-set_nodes :
    (x : Bytes) (ns acc : List Node)
    → mem x (node_ids (set_nodes acc ns)) ≡ (mem x (node_ids acc) || mem x (node_ids ns))
unfolding mem set_nodes
mem-set_nodes x [] acc = ground arith
mem-set_nodes x (n ∷ ns) acc =
    ground (arith, mem-set_nodes x ns (set_node acc n), mem-set_node x acc n)

set_nodes-IsDistinct :
    (ns acc : List Node) → IsDistinct (node_ids acc) → IsDistinct (node_ids (set_nodes acc ns))
unfolding set_nodes
set_nodes-IsDistinct [] acc d = d
set_nodes-IsDistinct (n ∷ ns) acc d =
    set_nodes-IsDistinct ns (set_node acc n) (set_node-IsDistinct acc n d)

nodes-All :
    (Q : Bytes → Type 0) (ns : List Node)
    → ((x : Bytes) → mem x (node_ids ns) ≡ true → Q x)
    → All (λ n. Q n.id) ns
nodes-All Q [] f = tt
nodes-All Q (n ∷ ns) f = (
  f n.id (mem_head n.id (node_ids ns)),
  nodes-All Q ns (λ x h. f x (unfold mem in ground (arith, h))),
)

module _ (sum64 : Bytes → ℕ) (count : ℕ) where
  all_vnodes-All :
      (Q : Bytes → Type 0) (ns : List Node)
      → All (λ n. Q n.id) ns
      → All (λ v. Q v.node_id) (all_vnodes sum64 count ns)
  unfolding all_vnodes
  all_vnodes-All Q [] a = tt
  all_vnodes-All Q (n ∷ ns) a =
      All-append (λ (v : VNode). Q v.node_id) (new_vnodes sum64 n.id count 0)
        (all_vnodes sum64 count ns)
        (All-new_vnodes sum64 (λ (v : VNode). Q v.node_id) n.id count 0 (λ h. a.0))
        (all_vnodes-All Q ns a.1)

  mem-all_vnodes :
      (x : Bytes) (ns : List Node)
      → 1 ≤ count
      → mem x (node_ids ns) ≡ true
      → mem x (owner_ids (all_vnodes sum64 count ns)) ≡ true
  unfolding all_vnodes mem
  mem-all_vnodes x [] h m = ground arith
  mem-all_vnodes x (n ∷ ns) h m = elim (Bool-cases (bytes_eq x n.id)) [
    | inl e ↦
        rw
          (
            mem-owner_ids x (new_vnodes sum64 n.id count 0) (all_vnodes sum64 count ns),
            eq_of_bytes_eq x n.id e,
            mem-new_vnodes sum64 n.id count h,
          )
          refl
    | inr e ↦
        rw (mem-owner_ids x (new_vnodes sum64 n.id count 0) (all_vnodes sum64 count ns))
          (ground (arith, mem-all_vnodes x ns h (ground (arith, m))))
  ]

module _ (sum64 : Bytes → ℕ) (r : Ring) (ring : IsRing r) (ns : List Node) where
  abbrev all : List VNode
  all = all_vnodes sum64 r.vnodes_per_node ns

  abbrev table : List Node
  table = set_nodes [] ns

  mem-table : (x : Bytes) → mem x (node_ids table) ≡ mem x (node_ids ns)
  mem-table x = mem-set_nodes x ns [] ∙ unfold mem in refl

  -- ReplaceMembers leaves a ring, also when the list has an id twice, and its nodes are those of the
  -- list.
  pub replace_members-IsRing :
      IsRing (replace_members sum64 r ns)
      × ((x : Bytes) → mem x (node_ids (replace_members sum64 r ns).nodes) ≡ mem x (node_ids ns))
  unfolding replace_members
  replace_members-IsRing = (
    record {
      sorted = unfold sort_vnodes in sort_onto-IsSorted all [] tt;
      ids = set_nodes-IsDistinct ns [] tt;
      owned =
          unfold sort_vnodes in
          All-sort_onto (λ v. mem v.node_id (node_ids table) ≡ true) all [] tt
            (all_vnodes-All sum64 r.vnodes_per_node (λ x. mem x (node_ids table) ≡ true) ns
              (nodes-All (λ x. mem x (node_ids table) ≡ true) ns (λ x h. mem-table x ∙ h)));
      present =
          nodes-All (λ x. mem x (owner_ids (sort_vnodes all)) ≡ true) table
            (λ x h.
              mem-sort_vnodes x all
              ∙ (mem-all_vnodes sum64 r.vnodes_per_node x ns ring.positive
                  (sym (mem-table x) ∙ h)));
      positive = ring.positive;
    },
    mem-table,
  )
