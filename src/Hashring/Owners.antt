-- ===== src/Hashring/Owners.antt =====
-- hashring/ring.go: the owners of a key, and how GetNode and GetNodes pick from them.
use lithicdb.Common.{
  ℕ, suc, ◌≤◌, ◌≡◌, refl, ap, sym, ◌∙◌, Bool, true, false, not, Bool-cases, inl, inr, List, [], ◌∷◌,
  map, length, length-map, take, get_or, arith, ltb, ◌==◌, if◌then◌else◌, ◌||◌, ◌&&◌,
}
use lithicdb.Common.Bytes.{Bytes, All, bytes_eq}
use lithicdb.Common.Slices.{take_all}
use lithicdb.Common.Names.{
  mem, distinct, mem-distinct, distinct-IsDistinct, IsDistinct, length_same_members, eq_of_bytes_eq,
  keep, bytes_eq_sym,
}
use lithicdb.Hashring.{
  Node, VNode, Ring, zero_node, zero_vnode, node_ids, owner_ids, lookup, search_ring, collect,
  hash_key, get_node, get_nodes,
}
use lithicdb.Hashring.Order.{clockwise, at_or_after, before}
use lithicdb.Hashring.Walk.{take_nil, drop-get_or, collect-distinct}
use lithicdb.Hashring.Clockwise.{search_ring-clockwise}
use lithicdb.Hashring.Members.{IsRing}
use lithicdb.Hashring.Invariant.{mem-owner_ids}

-- The specification: the ids of the virtual nodes clockwise from the hash, each once.
unfoldable pub owners : Ring → ℕ → List Bytes
owners r h = distinct [] (owner_ids (clockwise h r.vnodes))

module _ (x : Bytes) where
  mem-sides :
      (h : ℕ) (ws : List VNode)
      → (mem x (owner_ids (keep (at_or_after h) ws)) || mem x (owner_ids (keep (before h) ws)))
        ≡ mem x (owner_ids ws)
  unfolding mem keep
  mem-sides h [] = refl
  mem-sides h (w ∷ ws) = ground (arith, mem-sides h ws)

  mem-clockwise :
      (h : ℕ) (vs : List VNode) → mem x (owner_ids (clockwise h vs)) ≡ mem x (owner_ids vs)
  mem-clockwise h vs =
      mem-owner_ids x (keep (at_or_after h) vs) (keep (before h) vs) ∙ mem-sides h vs

module _ (ids : List Bytes) where
  mem_of_All :
      (x : Bytes) (vs : List VNode)
      → All (λ v. mem v.node_id ids ≡ true) vs
      → mem x (owner_ids vs) ≡ true
      → mem x ids ≡ true
  unfolding mem
  mem_of_All x [] a h = ground arith
  mem_of_All x (v ∷ vs) a h = elim (Bool-cases (bytes_eq x v.node_id)) [
    | inl e ↦ ap (λ (y : Bytes). mem y ids) (eq_of_bytes_eq x v.node_id e) ∙ a.0
    | inr e ↦ mem_of_All x vs a.1 (ground (arith, h))
  ]

  mem_of_present :
      (x : Bytes) (ns : List Node)
      → All (λ n. mem n.id ids ≡ true) ns
      → mem x (node_ids ns) ≡ true
      → mem x ids ≡ true
  unfolding mem
  mem_of_present x [] a h = ground arith
  mem_of_present x (n ∷ ns) a h = elim (Bool-cases (bytes_eq x n.id)) [
    | inl e ↦ ap (λ (y : Bytes). mem y ids) (eq_of_bytes_eq x n.id e) ∙ a.0
    | inr e ↦ mem_of_present x ns a.1 (ground (arith, h))
  ]

pub lookup-id : (ns : List Node) (id : Bytes) → mem id (node_ids ns) ≡ true → (lookup ns id).id ≡ id
unfolding lookup mem
lookup-id [] id h = ground arith
lookup-id (n ∷ ns) id h = elim (Bool-cases (bytes_eq n.id id)) [
  | inl e ↦ rw e (eq_of_bytes_eq n.id id e)
  | inr e ↦ rw e (lookup-id ns id (ground (arith, h, bytes_eq_sym n.id id)))
]

Bool-ext : (a b : Bool) → (a ≡ true → b ≡ true) → (b ≡ true → a ≡ true) → a ≡ b
Bool-ext true b f g = sym (f refl)
Bool-ext false true f g = g refl
Bool-ext false false f g = refl

some_node :
    (vs : List VNode) (ns : List Node)
    → All (λ v. mem v.node_id (node_ids ns) ≡ true) vs
    → 1 ≤ length vs
    → 1 ≤ length ns
unfolding mem
some_node [] ns a h = absurd (omega arith)
some_node (v ∷ vs) [] a h = ground (arith, a.0)
some_node (v ∷ vs) (n ∷ ns) a h = omega arith

empty_list : (vs : List VNode) → length vs ≡ 0 → vs ≡ []
empty_list [] h = refl
empty_list (v ∷ vs) h = absurd (omega arith)

owners_empty : (r : Ring) (h : ℕ) → length r.vnodes ≡ 0 → owners r h ≡ []
unfolding owners distinct keep
owners_empty r h e = rw (empty_list r.vnodes e)

module _ (r : Ring) (ring : IsRing r) where
  mem-vnodes : (x : Bytes) → mem x (owner_ids r.vnodes) ≡ mem x (node_ids r.nodes)
  mem-vnodes x =
      Bool-ext (mem x (owner_ids r.vnodes)) (mem x (node_ids r.nodes))
        (mem_of_All (node_ids r.nodes) x r.vnodes ring.owned)
        (mem_of_present (owner_ids r.vnodes) x r.nodes ring.present)

  unseen : (x : Bytes) (b : Bool) → (b && not (mem x [])) ≡ b
  unfolding mem
  unseen x true = refl
  unseen x false = refl

  -- The owners of any hash are all the nodes of the ring.
  pub mem-owners : (x : Bytes) (h : ℕ) → mem x (owners r h) ≡ mem x (node_ids r.nodes)
  unfolding owners
  mem-owners x h =
      mem-distinct x (owner_ids (clockwise h r.vnodes)) []
      ∙ (unseen x (mem x (owner_ids (clockwise h r.vnodes)))
          ∙ (mem-clockwise x h r.vnodes ∙ mem-vnodes x))

  pub owners-IsDistinct : (h : ℕ) → IsDistinct (owners r h)
  unfolding owners
  owners-IsDistinct h = distinct-IsDistinct (owner_ids (clockwise h r.vnodes)) []

  pub length-owners : (h : ℕ) → length (owners r h) ≡ length r.nodes
  length-owners h =
      length_same_members (owners r h) (node_ids r.nodes) (owners-IsDistinct h) ring.ids
        (λ z. mem-owners z h)
      ∙ length-map r.nodes (λ (n : Node). n.id)

  nodes_there : 1 ≤ length r.vnodes → 1 ≤ length r.nodes
  nodes_there h = some_node r.vnodes r.nodes ring.owned h

  take_capped :
      (n h : ℕ)
      → take (if ltb (length r.nodes) n then length r.nodes else n) (owners r h)
        ≡ take n (owners r h)
  take_capped n h = elim (Bool-cases (ltb (length r.nodes) n)) [
    | inr fewer ↦ rw fewer
    | inl more ↦ rw (
      more,
      take_all (length r.nodes) (owners r h) (omega (arith, length-owners h)),
      take_all n (owners r h) (ground (arith, length-owners h)),
    )
  ]

module _ (sum64 : Bytes → ℕ) (r : Ring) (ring : IsRing r) (key : Bytes) where
  collect-owners :
      (n : ℕ)
      → 1 ≤ n
      → 1 ≤ length r.vnodes
      → collect (length r.vnodes) r.vnodes n (search_ring r.vnodes (sum64 key)) []
        ≡ take n (owners r (sum64 key))
  unfolding owners
  collect-owners n h l =
      let found = search_ring-clockwise r.vnodes (sum64 key) ring.sorted l in
      collect-distinct r.vnodes n (search_ring r.vnodes (sum64 key)) h found.0
      ∙ ap (λ (vs : List VNode). take n (distinct [] (owner_ids vs))) found.1

  -- On a well-formed ring GetNodes answers with the first owners of the key, each once.
  pub get_nodes-owners :
      (n : ℕ) → get_nodes sum64 r key n ≡ map (lookup r.nodes) (take n (owners r (sum64 key)))
  unfolding get_nodes hash_key
  get_nodes-owners n = elim (Bool-cases (length r.vnodes == 0)) [
    | inl e ↦ rw (e, owners_empty r (sum64 key) (ground arith), take_nil n)
    | inr e ↦ elim (Bool-cases (n == 0)) [
      | inl z ↦ let same : n ≡ 0 = ground arith in rw (e, z, same)
      | inr z ↦
          rw (e, z)
            (ap (λ (ids : List Bytes). map (lookup r.nodes) ids)
              (collect-owners (if ltb (length r.nodes) n then length r.nodes else n)
                  (ground (arith, nodes_there r ring (ground arith))) (ground arith)
                ∙ take_capped r ring n (sum64 key)))
    ]
  ]

  first_owner :
      1 ≤ length r.vnodes
      → get_or (owners r (sum64 key)) 0 []
        ≡ (get_or r.vnodes (search_ring r.vnodes (sum64 key)) zero_vnode).node_id
  unfolding owners distinct mem
  first_owner l =
      let found = search_ring-clockwise r.vnodes (sum64 key) ring.sorted l in
      rw (sym found.1, drop-get_or r.vnodes (search_ring r.vnodes (sum64 key)) found.0) refl

  first_of_map :
      (ids : List Bytes) (n : ℕ)
      → 1 ≤ length ids
      → get_or (map (lookup r.nodes) (take (suc n) ids)) 0 zero_node
        ≡ lookup r.nodes (get_or ids 0 [])
  first_of_map [] n h = absurd (omega arith)
  first_of_map (i ∷ ids) n h = refl

  -- GetNode answers with the first node of what GetNodes gives, the zero node on an empty ring.
  get_node-get_nodes :
      (n : ℕ) → get_node sum64 r key ≡ get_or (get_nodes sum64 r key (suc n)) 0 zero_node
  unfolding get_node hash_key
  get_node-get_nodes n = rw (get_nodes-owners (suc n)) (elim (Bool-cases (length r.vnodes == 0)) [
    | inl e ↦ rw (e, owners_empty r (sum64 key) (ground arith))
    | inr e ↦
        let l : 1 ≤ length r.vnodes = ground arith in
        rw (
          e,
          first_of_map (owners r (sum64 key)) n
              (omega (arith, length-owners r ring (sum64 key), nodes_there r ring l)),
          first_owner l,
        )
  ])
