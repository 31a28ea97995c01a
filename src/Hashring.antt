-- ===== src/Hashring.antt =====
-- hashring/ring.go: the consistent hash ring. `sum64` is xxhash.Sum64, a third-party function. The
-- map from ids to nodes is a list without repeated ids, whose order nothing depends on. sort.Slice
-- keeps no order among equal hashes; here they keep the order in which they were appended.
pub mod Walk
pub mod Order
pub mod Clockwise
pub mod Members
pub mod Invariant
pub mod Rebuild
pub mod Owners
pub mod Replicas
pub mod Disruption
pub mod CoReplicas
mod Runs
use lithicdb.Common.{
  ℕ, zero, suc, ◌+◌, ◌/◌, ◌%◌, Bool, true, false, not, Option, none, some, List, [], ◌∷◌, ◌++◌, map,
  length, get_or, ltb, leb, ◌==◌, if◌then◌else◌,
}
use lithicdb.Common.Bytes.{Bytes, bytes_eq}
use lithicdb.Common.Names.{mem, keep}
use lithicdb.Common.Search.{search}

pub record Node : Type 0 where
  pub id : Bytes
  pub addr : Bytes

pub record VNode : Type 0 where
  pub hash : ℕ
  pub node_id : Bytes

pub record Ring : Type 0 where
  pub vnodes : List VNode
  pub nodes : List Node
  pub vnodes_per_node : ℕ

abbrev pub zero_node : Node
zero_node = record { id = []; addr = [] }

abbrev pub zero_vnode : VNode
zero_vnode = record { hash = 0; node_id = [] }

-- `none` is a number that is not positive.
unfoldable pub new_ring : Option ℕ → Ring
new_ring none = record { vnodes = []; nodes = []; vnodes_per_node = 150 }
new_ring (some n) = record { vnodes = []; nodes = []; vnodes_per_node = if n == 0 then 150 else n }

abbrev pub node_ids : List Node → List Bytes
node_ids ns = map (λ (n : Node). n.id) ns

abbrev pub owner_ids : List VNode → List Bytes
owner_ids vs = map (λ (v : VNode). v.node_id) vs

-- An assignment to the map.
unfoldable pub set_node : List Node → Node → List Node
set_node [] n = n ∷ []
set_node (m ∷ ms) n = if bytes_eq m.id n.id then n ∷ ms else m ∷ set_node ms n

unfoldable pub set_nodes : List Node → List Node → List Node
set_nodes acc [] = acc
set_nodes acc (n ∷ ns) = set_nodes (set_node acc n) ns

-- The map's entry for an id, the zero node on a missing one.
unfoldable pub lookup : List Node → Bytes → Node
lookup [] id = zero_node
lookup (n ∷ ns) id = if bytes_eq n.id id then n else lookup ns id

-- strconv.AppendInt in base 10; `fuel` bounds the number of digits.
unfoldable pub append_int : ℕ → ℕ → Bytes → Bytes
append_int zero n digits = digits
append_int (suc fuel) n digits =
    let digits' = (b'0' + n % 10) ∷ digits in
    let rest = append_int fuel (n / 10) digits' in if ltb n 10 then digits' else rest

unfoldable pub vnode_name : Bytes → ℕ → Bytes
vnode_name node_id index = node_id ++ (b'-' ∷ append_int (suc index) index [])

-- Insertion by hash, behind the equal ones.
unfoldable pub insert_vnode : VNode → List VNode → List VNode
insert_vnode v [] = v ∷ []
insert_vnode v (w ∷ ws) = if leb w.hash v.hash then w ∷ insert_vnode v ws else v ∷ w ∷ ws

unfoldable pub sort_onto : List VNode → List VNode → List VNode
sort_onto sorted [] = sorted
sort_onto sorted (v ∷ vs) = sort_onto (insert_vnode v sorted) vs

unfoldable pub sort_vnodes : List VNode → List VNode
sort_vnodes vs = sort_onto [] vs

-- The index of the first virtual node with hash >= h, 0 behind the last one.
unfoldable pub search_ring : List VNode → ℕ → ℕ
search_ring vs h =
    let idx = search (length vs) (λ i. leb h (get_or vs i zero_vnode).hash) in
    if idx == length vs then 0 else idx

-- The loop over the ring from `idx`, until `n` distinct ids are found. `window` has the ids found
-- so far and is the set `seen` too.
unfoldable pub collect : ℕ → List VNode → ℕ → ℕ → List Bytes → List Bytes
collect zero vs n idx window = window
collect (suc rounds) vs n idx window =
    let id = (get_or vs idx zero_vnode).node_id in
    let next = (idx + 1) % length vs in
    let again = collect rounds vs n next window in
    let more = collect rounds vs n next (window ++ (id ∷ [])) in
    if mem id window
    then again
    else if length (window ++ (id ∷ [])) == n
    then window ++ (id ∷ [])
    else more

module _ (sum64 : Bytes → ℕ) where
  unfoldable pub hash_vnode : Bytes → ℕ → ℕ
  hash_vnode node_id index = sum64 (vnode_name node_id index)

  unfoldable pub hash_key : Bytes → ℕ
  hash_key key = sum64 key

  -- The virtual nodes of indexes `from`, `from` + 1 and so on, `count` of them.
  unfoldable pub new_vnodes : Bytes → ℕ → ℕ → List VNode
  new_vnodes node_id zero from = []
  new_vnodes node_id (suc count) from =
      record { hash = hash_vnode node_id from; node_id = node_id }
      ∷ new_vnodes node_id count (from + 1)

  unfoldable pub add_node : Ring → Node → Ring
  add_node r node = if mem node.id (node_ids r.nodes) then r else record r {
    vnodes = sort_vnodes (r.vnodes ++ new_vnodes node.id r.vnodes_per_node 0);
    nodes = node ∷ r.nodes;
  }

  unfoldable pub all_vnodes : ℕ → List Node → List VNode
  all_vnodes count [] = []
  all_vnodes count (n ∷ ns) = new_vnodes n.id count 0 ++ all_vnodes count ns

  -- The old nodes are not kept.
  unfoldable pub replace_members : Ring → List Node → Ring
  replace_members r ns = record r {
    vnodes = sort_vnodes (all_vnodes r.vnodes_per_node ns);
    nodes = set_nodes [] ns;
  }

  unfoldable pub get_node : Ring → Bytes → Node
  get_node r key =
      if length r.vnodes == 0
      then zero_node
      else lookup r.nodes (get_or r.vnodes (search_ring r.vnodes (hash_key key)) zero_vnode).node_id

  -- The empty list is `nil` too.
  unfoldable pub get_nodes : Ring → Bytes → ℕ → List Node
  get_nodes r key n =
      let capped = if ltb (length r.nodes) n then length r.nodes else n in
      if length r.vnodes == 0
      then []
      else if n == 0
      then []
      else map (lookup r.nodes)
          (collect (length r.vnodes) r.vnodes capped (search_ring r.vnodes (hash_key key)) [])

unfoldable pub remove_node : Ring → Bytes → Ring
remove_node r node_id =
    if mem node_id (node_ids r.nodes)
    then record r {
      vnodes = keep (λ (v : VNode). not (bytes_eq v.node_id node_id)) r.vnodes;
      nodes = keep (λ (n : Node). not (bytes_eq n.id node_id)) r.nodes;
    }
    else r

pub size : Ring → ℕ
size r = length r.nodes
