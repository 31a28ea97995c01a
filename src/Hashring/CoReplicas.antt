-- ===== src/Hashring/CoReplicas.antt =====
-- hashring/ring.go: CoReplicas. The set of peers is kept sorted, as the result is.
use lithicdb.Common.{
  ℕ, zero, suc, ◌+◌, ◌≡◌, refl, ◌∙◌, false, not, Bool-cases, inl, inr, List, [], ◌∷◌, length, arith,
  ltb, ◌==◌, if◌then◌else◌, ◌||◌,
}
use lithicdb.Common.Bytes.{Bytes, bytes_eq, bytes_lt}
use lithicdb.Common.Names.{mem, bytes_eq_sym}
use lithicdb.Hashring.{VNode, Ring, node_ids, collect}

unfoldable pub insert_peer : Bytes → List Bytes → List Bytes
insert_peer p [] = p ∷ []
insert_peer p (q ∷ qs) =
    let rest = insert_peer p qs in
    if bytes_eq p q then q ∷ qs else if bytes_lt p q then p ∷ q ∷ qs else q ∷ rest

-- The other ids of a window that the node is in.
unfoldable pub add_peers : Bytes → List Bytes → List Bytes → List Bytes
add_peers id [] peers = peers
add_peers id (w ∷ ws) peers =
    let skip = add_peers id ws peers in
    let add = add_peers id ws (insert_peer w peers) in if bytes_eq w id then skip else add

-- The loop over the starting positions from `start` on, `rounds` of them.
unfoldable pub peers_from : ℕ → List VNode → ℕ → Bytes → ℕ → List Bytes → List Bytes
peers_from zero vs n id start peers = peers
peers_from (suc rounds) vs n id start peers =
    let window = collect (length vs) vs n start [] in
    let next = peers_from rounds vs n id (start + 1) peers in
    let more = peers_from rounds vs n id (start + 1) (add_peers id window peers) in
    if mem id window then more else next

-- The empty list is `nil` too.
unfoldable pub co_replicas : Ring → Bytes → ℕ → List Bytes
co_replicas r id n =
    let capped = if ltb (length r.nodes) n then length r.nodes else n in
    if length r.vnodes == 0 || n == 0
    then []
    else if not (mem id (node_ids r.nodes))
    then []
    else peers_from (length r.vnodes) r.vnodes capped id 0 []

mem-insert_peer :
    (x p : Bytes) (qs : List Bytes) → bytes_eq x p ≡ false → mem x (insert_peer p qs) ≡ mem x qs
unfolding mem insert_peer
mem-insert_peer x p [] h = ground (arith, h)
mem-insert_peer x p (q ∷ qs) h = ground (arith, h, mem-insert_peer x p qs h)

module _ (id : Bytes) where
  mem-add_peers :
      (ws peers : List Bytes) → mem id peers ≡ false → mem id (add_peers id ws peers) ≡ false
  unfolding add_peers
  mem-add_peers [] peers h = h
  mem-add_peers (w ∷ ws) peers h = elim (Bool-cases (bytes_eq w id)) [
    | inl e ↦ rw e (mem-add_peers ws peers h)
    | inr e ↦ rw e (
        mem-add_peers ws (insert_peer w peers)
          (mem-insert_peer id w peers (bytes_eq_sym id w ∙ e) ∙ h))
  ]

  mem-peers_from :
      (rounds : ℕ) (vs : List VNode) (n start : ℕ) (peers : List Bytes)
      → mem id peers ≡ false
      → mem id (peers_from rounds vs n id start peers) ≡ false
  unfolding peers_from
  mem-peers_from zero vs n start peers h = h
  mem-peers_from (suc rounds) vs n start peers h =
      elim (Bool-cases (mem id (collect (length vs) vs n start []))) [
        | inl e ↦ rw e (
            mem-peers_from rounds vs n (start + 1)
              (add_peers id (collect (length vs) vs n start []) peers)
              (mem-add_peers (collect (length vs) vs n start []) peers h))
        | inr e ↦ rw e (mem-peers_from rounds vs n (start + 1) peers h)
      ]

-- A node is not among its own co-replicas.
mem-co_replicas : (r : Ring) (id : Bytes) (n : ℕ) → mem id (co_replicas r id n) ≡ false
unfolding co_replicas
mem-co_replicas r id n = elim (Bool-cases (length r.vnodes == 0 || n == 0)) [
  | inl e ↦ rw e nothing
  | inr e ↦ elim (Bool-cases (mem id (node_ids r.nodes))) [
    | inl f ↦ rw (e, f) (mem-peers_from id (length r.vnodes) r.vnodes _ 0 [] nothing)
    | inr f ↦ rw (e, f) nothing
  ]
]
  where
    nothing : mem id [] ≡ false
    nothing = unfold mem in refl
