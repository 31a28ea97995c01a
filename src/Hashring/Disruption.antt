-- ===== src/Hashring/Disruption.antt =====
-- hashring/ring.go: removing a node moves only the keys that it owned.
use lithicdb.Common.{
  ℕ, zero, suc, ◌≡◌, refl, ap, sym, ◌∙◌, Bool, true, false, not, Bool-cases, inl, inr, List, [],
  ◌∷◌, map, take, arith, ◌||◌,
}
use lithicdb.Common.Bytes.{Bytes, bytes_eq}
use lithicdb.Common.Names.{
  mem, keep, keep-append, keep_swap, map-keep, distinct, without, eq_of_bytes_eq, bytes_eq_sym,
}
use lithicdb.Hashring.{Node, VNode, Ring, node_ids, owner_ids, lookup, remove_node, get_nodes}
use lithicdb.Hashring.Order.{clockwise, at_or_after, before}
use lithicdb.Hashring.Members.{IsRing, foreign}
use lithicdb.Hashring.Invariant.{remove_node-IsRing}
use lithicdb.Hashring.Owners.{owners, get_nodes-owners}
use lithicdb.Hashring.Replicas.{get_nodes-ids}

module _ (x : Bytes) where
  mem_other :
      (z n : Bytes) (t : List Bytes)
      → bytes_eq z x ≡ false
      → bytes_eq n x ≡ true
      → mem z t ≡ mem z (n ∷ t)
  unfolding mem
  mem_other z n t ne e = rw (eq_of_bytes_eq n x e, ne)

  distinct-without :
      (ids s t : List Bytes)
      → ((z : Bytes) → bytes_eq z x ≡ false → mem z s ≡ mem z t)
      → distinct s (without x ids) ≡ without x (distinct t ids)
  unfolding distinct keep
  distinct-without [] s t h = refl
  distinct-without (n ∷ ids) s t h = elim (Bool-cases (bytes_eq n x)) [
    | inl e ↦ elim (Bool-cases (mem n t)) [
      | inl old ↦ rw (e, old) (distinct-without ids s t h)
      | inr new ↦
          rw (e, new, e) (distinct-without ids s (n ∷ t) (λ z ne. h z ne ∙ mem_other z n t ne e))
    ]
    | inr e ↦ elim (Bool-cases (mem n t)) [
      | inl old ↦ rw (e, h n e, old) (distinct-without ids s t h)
      | inr new ↦
          rw (e, h n e, new, e)
            (ap (λ (l : List Bytes). n ∷ l)
              (distinct-without ids (n ∷ s) (n ∷ t)
                (λ z ne. unfold mem in ap (λ (b : Bool). bytes_eq z n || b) (h z ne))))
    ]
  ]

clockwise-keep :
    (p : VNode → Bool) (h : ℕ) (vs : List VNode) → clockwise h (keep p vs) ≡ keep p (clockwise h vs)
clockwise-keep p h vs =
    rw (keep_swap (at_or_after h) p vs, keep_swap (before h) p vs)
      (sym (keep-append p (keep (at_or_after h) vs) (keep (before h) vs)))

-- The owners after the removal of a node are the owners before without it, in the same order.
pub owners-remove_node :
    (r : Ring) (id : Bytes) (h : ℕ)
    → mem id (node_ids r.nodes) ≡ true
    → owners (remove_node r id) h ≡ without id (owners r h)
unfolding owners remove_node
owners-remove_node r id h there =
    rw
      (
        there,
        clockwise-keep (foreign id) h r.vnodes,
        map-keep (λ (v : VNode). v.node_id) id (clockwise h r.vnodes),
      )
      (distinct-without id (owner_ids (clockwise h r.vnodes)) [] [] (λ z _. refl))

take-without :
    (x : Bytes) (n : ℕ) (ids : List Bytes)
    → mem x (take n ids) ≡ false
    → take n (without x ids) ≡ take n ids
unfolding mem keep
take-without x zero ids h = refl
take-without x (suc n) [] h = refl
take-without x (suc n) (i ∷ ids) h = elim (Bool-cases (bytes_eq x i)) [
  | inl e ↦ ground (arith, h)
  | inr e ↦
      rw (bytes_eq_sym i x, e)
        (ap (λ (l : List Bytes). i ∷ l) (take-without x n ids (ground (arith, h))))
]

lookup-keep :
    (x : Bytes) (ns : List Node) (i : Bytes)
    → bytes_eq x i ≡ false
    → lookup (keep (λ (n : Node). not (bytes_eq n.id x)) ns) i ≡ lookup ns i
unfolding lookup keep
lookup-keep x [] i h = refl
lookup-keep x (n ∷ ns) i h = elim (Bool-cases (bytes_eq n.id x)) [
  | inr e ↦ rw (e, lookup-keep x ns i h)
  | inl e ↦
      let other : bytes_eq n.id i ≡ false =
        ap (λ (y : Bytes). bytes_eq y i) (eq_of_bytes_eq n.id x e) ∙ h in
      rw (e, other, lookup-keep x ns i h)
]

map-lookup-keep :
    (x : Bytes) (ns : List Node) (ids : List Bytes)
    → mem x ids ≡ false
    → map (lookup (keep (λ (n : Node). not (bytes_eq n.id x)) ns)) ids ≡ map (lookup ns) ids
unfolding mem
map-lookup-keep x ns [] h = refl
map-lookup-keep x ns (i ∷ ids) h =
    rw (lookup-keep x ns i (ground (arith, h)), map-lookup-keep x ns ids (ground (arith, h)))

remove_node-nodes :
    (r : Ring) (id : Bytes)
    → mem id (node_ids r.nodes) ≡ true
    → (remove_node r id).nodes ≡ keep (λ (n : Node). not (bytes_eq n.id id)) r.nodes
unfolding remove_node
remove_node-nodes r id there = rw there

-- On a well-formed ring a key that the removed node is no replica of keeps all its replicas, in
-- order.
pub get_nodes-remove_node :
    (sum64 : Bytes → ℕ) (r : Ring) (id key : Bytes) (n : ℕ)
    → IsRing r
    → mem id (node_ids r.nodes) ≡ true
    → mem id (node_ids (get_nodes sum64 r key n)) ≡ false
    → get_nodes sum64 (remove_node r id) key n ≡ get_nodes sum64 r key n
get_nodes-remove_node sum64 r id key n ring there elsewhere =
    let absent : mem id (take n (owners r (sum64 key))) ≡ false =
      ap (mem id) (sym (get_nodes-ids sum64 r ring key n)) ∙ elsewhere in
    get_nodes-owners sum64 (remove_node r id) (remove_node-IsRing r ring id) key n
    ∙ (rw
          (
            owners-remove_node r id (sum64 key) there,
            remove_node-nodes r id there,
            take-without id n (owners r (sum64 key)) absent,
          )
          (map-lookup-keep id r.nodes (take n (owners r (sum64 key))) absent)
        ∙ sym (get_nodes-owners sum64 r ring key n))
