-- ===== src/Hashring/Invariant.antt =====
-- hashring/ring.go: what AddNode and RemoveNode keep.
use lithicdb.Common.{
  ℕ, zero, suc, ◌≤◌, ◌≡◌, refl, ◌∙◌, Bool, true, not, Bool-cases, inl, inr, Option, none, some,
  List, [], ◌∷◌, ◌++◌, arith, ◌||◌,
}
use lithicdb.Common.Bytes.{Bytes, All-append, bytes_eq}
use lithicdb.Common.Names.{
  mem, keep, All-keep, All-map, map-keep, keep-All, without, mem-without, without-IsDistinct,
  mem_head,
}
use lithicdb.Hashring.{
  Node, VNode, Ring, node_ids, owner_ids, new_ring, insert_vnode, new_vnodes, sort_vnodes,
  sort_onto, add_node, remove_node,
}
use lithicdb.Hashring.Order.{IsSorted, sort_onto-IsSorted, All-sort_onto, sort_vnodes-append}
use lithicdb.Hashring.Members.{IsRing, foreign, All-new_vnodes}

-- A new ring is one, whatever number it is given.
pub new_ring-IsRing : (n : Option ℕ) → IsRing (new_ring n)
unfolding new_ring
new_ring-IsRing none = record {
  sorted = tt;
  ids = tt;
  owned = tt;
  present = tt;
  positive = omega arith;
}
new_ring-IsRing (some n) = record {
  sorted = tt;
  ids = tt;
  owned = tt;
  present = tt;
  positive = ground arith;
}

mem-insert_vnode :
    (x : Bytes) (v : VNode) (ws : List VNode)
    → mem x (owner_ids (insert_vnode v ws)) ≡ (bytes_eq x v.node_id || mem x (owner_ids ws))
unfolding mem insert_vnode
mem-insert_vnode x v [] = refl
mem-insert_vnode x v (w ∷ ws) = ground (arith, mem-insert_vnode x v ws)

pub mem-sort_onto :
    (x : Bytes) (vs sorted : List VNode)
    → mem x (owner_ids (sort_onto sorted vs)) ≡ (mem x (owner_ids sorted) || mem x (owner_ids vs))
unfolding mem sort_onto
mem-sort_onto x [] sorted = ground arith
mem-sort_onto x (v ∷ vs) sorted =
    ground (arith, mem-sort_onto x vs (insert_vnode v sorted), mem-insert_vnode x v sorted)

pub mem-sort_vnodes :
    (x : Bytes) (vs : List VNode) → mem x (owner_ids (sort_vnodes vs)) ≡ mem x (owner_ids vs)
unfolding sort_vnodes mem
mem-sort_vnodes x vs = mem-sort_onto x vs []

module _ (sum64 : Bytes → ℕ) where
  pub mem-new_vnodes :
      (id : Bytes) (count : ℕ) → 1 ≤ count → mem id (owner_ids (new_vnodes sum64 id count 0)) ≡ true
  unfolding new_vnodes
  mem-new_vnodes id zero h = absurd (omega arith)
  mem-new_vnodes id (suc count) h = mem_head id _

pub mem-owner_ids :
    (x : Bytes) (us ws : List VNode)
    → mem x (owner_ids (us ++ ws)) ≡ (mem x (owner_ids us) || mem x (owner_ids ws))
unfolding mem
mem-owner_ids x [] ws = refl
mem-owner_ids x (u ∷ us) ws = ground (arith, mem-owner_ids x us ws)

module _ (sum64 : Bytes → ℕ) (r : Ring) (ring : IsRing r) where
  -- AddNode keeps the ring one.
  pub add_node-IsRing : (n : Node) → IsRing (add_node sum64 r n)
  unfolding add_node
  add_node-IsRing n = elim (Bool-cases (mem n.id (node_ids r.nodes))) [
    | inl there ↦ rw there ring
    | inr new ↦ rw new (record {
      sorted = unfold sort_vnodes in sort_onto-IsSorted (r.vnodes ++ added) [] tt;
      ids = (new, ring.ids);
      owned =
          unfold sort_vnodes in
          All-sort_onto Owned (r.vnodes ++ added) [] tt (
            All-append Owned r.vnodes added
              (All-map (λ (v : VNode). mem v.node_id (node_ids r.nodes) ≡ true) Owned r.vnodes
                (λ v h. unfold mem in ground (arith, h)) ring.owned)
              (All-new_vnodes sum64 Owned n.id r.vnodes_per_node 0
                (λ h. mem_head n.id (node_ids r.nodes))));
      present = (
        rw (sort_vnodes-append r.vnodes added ring.sorted, mem-sort_onto n.id added r.vnodes)
            (ground (arith, mem-new_vnodes sum64 n.id r.vnodes_per_node ring.positive)),
        All-map (λ (m : Node). mem m.id (owner_ids r.vnodes) ≡ true)
            (λ (m : Node). mem m.id (owner_ids (sort_vnodes (r.vnodes ++ added))) ≡ true) r.nodes
            (λ m h.
              rw
                (
                  sort_vnodes-append r.vnodes added ring.sorted,
                  mem-sort_onto m.id added r.vnodes,
                  h,
                )
                refl)
            ring.present,
      );
      positive = ring.positive;
    })
  ]
    where
      added : List VNode
      added = new_vnodes sum64 n.id r.vnodes_per_node 0

      Owned : VNode → Type 0
      Owned v = mem v.node_id (n.id ∷ node_ids r.nodes) ≡ true

keep-IsSorted : (p : VNode → Bool) (vs : List VNode) → IsSorted vs → IsSorted (keep p vs)
unfolding keep
keep-IsSorted p [] s = tt
keep-IsSorted p (v ∷ vs) s = elim (Bool-cases (p v)) [
  | inr h ↦ rw h (keep-IsSorted p vs s.1)
  | inl h ↦ rw h ((keep-All p (λ (w : VNode). v.hash ≤ w.hash) vs s.0, keep-IsSorted p vs s.1))
]

mem_stays :
    (x id : Bytes) (ids : List Bytes)
    → (mem x ids ≡ true) × (not (bytes_eq x id) ≡ true)
    → mem x (without id ids) ≡ true
mem_stays x id ids h = mem-without x id ids ∙ rw (h.0, h.1) refl

module _ (r : Ring) (ring : IsRing r) where
  -- RemoveNode keeps the ring one.
  pub remove_node-IsRing : (id : Bytes) → IsRing (remove_node r id)
  unfolding remove_node
  remove_node-IsRing id = elim (Bool-cases (mem id (node_ids r.nodes))) [
    | inr missing ↦ rw missing ring
    | inl there ↦ rw there (record {
      sorted = keep-IsSorted (foreign id) r.vnodes ring.sorted;
      ids =
          rw (map-keep (λ (n : Node). n.id) id r.nodes)
            (without-IsDistinct id (node_ids r.nodes) ring.ids);
      owned = rw (map-keep (λ (n : Node). n.id) id r.nodes) (
          All-map _ (λ (v : VNode). mem v.node_id (without id (node_ids r.nodes)) ≡ true)
            (keep (foreign id) r.vnodes) (λ v h. mem_stays v.node_id id (node_ids r.nodes) h)
            (All-keep (foreign id) (λ v. mem v.node_id (node_ids r.nodes) ≡ true) r.vnodes
              ring.owned));
      present = rw (map-keep (λ (v : VNode). v.node_id) id r.vnodes) (
          All-map _ (λ (n : Node). mem n.id (without id (owner_ids r.vnodes)) ≡ true)
            (keep (λ (n : Node). not (bytes_eq n.id id)) r.nodes)
            (λ n h. mem_stays n.id id (owner_ids r.vnodes) h)
            (All-keep (λ n. not (bytes_eq n.id id)) (λ n. mem n.id (owner_ids r.vnodes) ≡ true)
              r.nodes ring.present));
      positive = ring.positive;
    })
  ]
