-- ===== src/Memtable/Insert.antt =====
-- memtable/skiplist.go: Put inserts into the sorted sequence of the nodes.
use lithicdb.Common.{
  ℕ, ◌-◌, ◌≤◌, ◌≡◌, refl, ap, true, Bool-cases, inl, inr, List, [], ◌∷◌, ◌++◌, arith, length,
  length-append, take, if◌then◌else◌,
}
use lithicdb.Common.Bytes.{Bytes, All, bytes_lt, NotAfter, NotAfter-trans, compare_bytes-flip}
use mathlib.Core.Path.{subst}
use lithicdb.Common.Slices.{take_append}
use lithicdb.Kv.{Value}
use lithicdb.Memtable.{SkipListNode, SkipList, put, new_skip_list}
use lithicdb.Memtable.Seek.{IsOrdered, IsLinked, from, IsSkipList, find_greater_or_equal-from}

-- The specification: a new node stands before the first node that is not below it.
unfoldable pub insert_node : SkipListNode → List SkipListNode → List SkipListNode
insert_node n [] = n ∷ []
insert_node n (m ∷ ms) = if bytes_lt m.key n.key then m ∷ insert_node n ms else n ∷ m ∷ ms

below : Bytes → List SkipListNode → List SkipListNode
below target [] = []
below target (n ∷ ns) = if bytes_lt n.key target then n ∷ below target ns else []

below-from : (target : Bytes) (ns : List SkipListNode) → below target ns ++ from target ns ≡ ns
unfolding from below
below-from target [] = refl
below-from target (n ∷ ns) = elim (Bool-cases (bytes_lt n.key target)) [
  | inl h ↦ rw h (ap (λ (l : List SkipListNode). n ∷ l) (below-from target ns))
  | inr h ↦ rw h
]

insert_node-split :
    (n : SkipListNode) (ns : List SkipListNode)
    → below n.key ns ++ (n ∷ from n.key ns) ≡ insert_node n ns
unfolding from below insert_node
insert_node-split n [] = refl
insert_node-split n (m ∷ ms) = elim (Bool-cases (bytes_lt m.key n.key)) [
  | inl h ↦ rw h (ap (λ (l : List SkipListNode). m ∷ l) (insert_node-split n ms))
  | inr h ↦ rw h
]

take-below :
    (target : Bytes) (ns : List SkipListNode)
    → take (length ns - length (from target ns)) ns ≡ below target ns
take-below target ns =
    let n : length ns - length (from target ns) ≡ length (below target ns) = omega (
      arith,
      length-append (below target ns) (from target ns),
      ap (λ (l : List SkipListNode). length l) (below-from target ns),
    ) in
    rw n (
      subst (λ l. take (length (below target ns)) l ≡ below target ns) (below-from target ns)
        (take_append (length (below target ns)) (below target ns) (from target ns) refl))

bytes_lt-NotAfter : (a b : Bytes) → bytes_lt a b ≡ true → NotAfter a b
bytes_lt-NotAfter a b h = ground (arith, compare_bytes-flip a b)

module _ (n : SkipListNode) where
  pub insert_node-All :
      (P : SkipListNode → Type 0) (ns : List SkipListNode)
      → P n
      → All P ns
      → All P (insert_node n ns)
  unfolding insert_node
  insert_node-All P [] h a = (h, tt)
  insert_node-All P (m ∷ ms) h a = elim (Bool-cases (bytes_lt m.key n.key)) [
    | inl t ↦ rw t ((a.0, insert_node-All P ms h a.1))
    | inr t ↦ rw t ((h, a))
  ]

  NotAfter-All :
      (m : SkipListNode) (ms : List SkipListNode)
      → NotAfter n.key m.key
      → All (λ p. NotAfter m.key p.key) ms
      → All (λ p. NotAfter n.key p.key) ms
  NotAfter-All m [] h a = tt
  NotAfter-All m (p ∷ ps) h a = (NotAfter-trans n.key m.key p.key h a.0, NotAfter-All m ps h a.1)

  insert_node-IsOrdered : (ns : List SkipListNode) → IsOrdered ns → IsOrdered (insert_node n ns)
  unfolding insert_node
  insert_node-IsOrdered [] o = (tt, tt)
  insert_node-IsOrdered (m ∷ ms) o = elim (Bool-cases (bytes_lt m.key n.key)) [
    | inl t ↦ rw t (
        (
          insert_node-All (λ p. NotAfter m.key p.key) ms (bytes_lt-NotAfter m.key n.key t) o.0,
          insert_node-IsOrdered ms o.1,
        ))
    | inr t ↦ rw t (((t, NotAfter-All m ms t o.0), o))
  ]

module _ (s : SkipList) (k : Bytes) (v : Value) (h : ℕ) (sound : IsSkipList s) where
  abbrev node : SkipListNode
  node = record { key = k; value = v; height = h }

  -- On a skip list in key order Put inserts the node at its place in the order.
  pub put-insert_node : (put s k v h).nodes ≡ insert_node node s.nodes
  unfolding put
  put-insert_node =
      rw (find_greater_or_equal-from s k sound, take-below k s.nodes)
        (insert_node-split node s.nodes)

  -- Put keeps the skip list in key order and every node on level 0, for any height from 1 on.
  pub put-IsSkipList : 1 ≤ h → IsSkipList (put s k v h)
  put-IsSkipList hh = record {
    ordered = rw put-insert_node (insert_node-IsOrdered node s.nodes sound.ordered);
    linked = rw put-insert_node (insert_node-All node IsLinked s.nodes hh sound.linked);
    levels = unfold put in ground (arith, sound.levels);
  }

pub new_skip_list-IsSkipList : IsSkipList new_skip_list
new_skip_list-IsSkipList = record { ordered = tt; linked = tt; levels = omega arith }
