-- ===== src/Hashring/Replicas.antt =====
-- hashring/ring.go: the nodes that GetNodes answers with.
use lithicdb.Common.{
  ℕ, zero, suc, ◌≡◌, refl, ap, sym, ◌∙◌, true, false, List, [], ◌∷◌, map, length, length-map,
  length-take, take, arith,
}
use Prim.Native.Nat.{min}
use lithicdb.Common.Bytes.{Bytes}
use lithicdb.Common.Names.{mem, IsDistinct, mem_head}
use lithicdb.Hashring.{Node, Ring, node_ids, lookup, get_nodes}
use lithicdb.Hashring.Members.{IsRing}
use lithicdb.Hashring.Owners.{
  owners, mem-owners, owners-IsDistinct, length-owners, lookup-id, get_nodes-owners,
}

mem-take : (x : Bytes) (n : ℕ) (ids : List Bytes) → mem x ids ≡ false → mem x (take n ids) ≡ false
unfolding mem
mem-take x zero ids h = refl
mem-take x (suc n) [] h = refl
mem-take x (suc n) (i ∷ ids) h = ground (arith, h, mem-take x n ids)

take-IsDistinct : (n : ℕ) (ids : List Bytes) → IsDistinct ids → IsDistinct (take n ids)
take-IsDistinct zero ids d = tt
take-IsDistinct (suc n) [] d = tt
take-IsDistinct (suc n) (i ∷ ids) d = (mem-take i n ids d.0, take-IsDistinct n ids d.1)

node_ids-lookup :
    (ns : List Node) (n : ℕ) (ids : List Bytes)
    → ((x : Bytes) → mem x ids ≡ true → mem x (node_ids ns) ≡ true)
    → node_ids (map (lookup ns) (take n ids)) ≡ take n ids
node_ids-lookup ns zero ids h = refl
node_ids-lookup ns (suc n) [] h = refl
node_ids-lookup ns (suc n) (i ∷ ids) h =
    rw
      (
        lookup-id ns i (h i (mem_head i ids)),
        node_ids-lookup ns n ids (λ x m. h x (unfold mem in ground (arith, m))),
      )
      refl

module _ (sum64 : Bytes → ℕ) (r : Ring) (ring : IsRing r) (key : Bytes) (n : ℕ) where
  pub get_nodes-ids : node_ids (get_nodes sum64 r key n) ≡ take n (owners r (sum64 key))
  get_nodes-ids =
      ap node_ids (get_nodes-owners sum64 r ring key n)
      ∙ node_ids-lookup r.nodes n (owners r (sum64 key))
          (λ x h. sym (mem-owners r ring x (sum64 key)) ∙ h)

  -- On a well-formed ring GetNodes answers with nodes of different ids, as many as asked for or as
  -- there are.
  pub get_nodes-IsDistinct :
      IsDistinct (node_ids (get_nodes sum64 r key n))
      × (length (get_nodes sum64 r key n) ≡ min n (length r.nodes))
  get_nodes-IsDistinct = (
    rw get_nodes-ids
        (take-IsDistinct n (owners r (sum64 key)) (owners-IsDistinct r ring (sum64 key))),
    sym (length-map (get_nodes sum64 r key n) (λ (m : Node). m.id))
        ∙ (ap (λ (l : List Bytes). length l) get_nodes-ids
            ∙ (length-take n (owners r (sum64 key))
                ∙ ap (λ (k : ℕ). min n k) (length-owners r ring (sum64 key)))),
  )
