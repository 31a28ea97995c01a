-- ===== src/Memtable/Versions.antt =====
-- memtable/skiplist.go: the versions of a user key among the nodes, on keys of which none is a prefix
-- of another.
use Prim.Native.Nat.{compare}
use lithicdb.Common.{
  ℕ, ◌≤◌, ◌≡◌, ap, ◌∙◌, true, false, Bool-cases, inl, inr, Option, none, some, List, [], ◌∷◌, arith,
  ltb, leb, if◌then◌else◌, ◌&&◌,
}
use lithicdb.Common.Bytes.{
  Bytes, bytes_lt, bytes_eq, NotAfter, compare_bytes, then_compare, compare_bytes-flip,
  eq_of_compare_bytes,
}
use lithicdb.Kv.{Value, IsSeq, max_seq_num, make_internal_key, make_search_key, user_key, seq_num}
use lithicdb.Kv.KeyOrder.{Comparable, compare-make_internal_key}
use lithicdb.Memtable.{SkipListNode}

-- The newer of a version and what the rest has, the version itself on a tie.
abbrev pub newer : Value → ℕ → Option (Value × ℕ) → Option (Value × ℕ)
newer v s none = some (v, s)
newer v s (some (w, t)) = if ltb s t then some (w, t) else some (v, s)

-- The specification: the newest version of the key at or below `max_seq`, in any order of nodes.
unfoldable pub newest_node : Bytes → ℕ → List SkipListNode → Option (Value × ℕ)
newest_node u max_seq [] = none
newest_node u max_seq (n ∷ ns) =
    let rest = newest_node u max_seq ns in
    if bytes_eq (user_key n.key) u && leb (seq_num n.key) max_seq
    then newer n.value (seq_num n.key) rest
    else rest

-- The node holds an internal key whose user key can stand beside `u`.
pub record IsVersion (u : Bytes) (n : SkipListNode) : Type 0 where
  pub made : n.key ≡ make_internal_key (user_key n.key) (seq_num n.key)
  pub bounded : IsSeq (seq_num n.key)
  pub apart : Comparable (user_key n.key) u

module _ (u : Bytes) where
  pub compare-version :
      (n : SkipListNode) (s : ℕ)
      → IsVersion u n
      → IsSeq s
      → compare_bytes n.key (make_internal_key u s)
        ≡ then_compare (compare_bytes (user_key n.key) u) (compare s (seq_num n.key))
  compare-version n s v hs =
      ap (λ (k : Bytes). compare_bytes k (make_internal_key u s)) v.made
      ∙ compare-make_internal_key (user_key n.key) u (seq_num n.key) s v.apart v.bounded hs

  -- A node before the search key is no version of the key.
  pub skipped :
      (n : SkipListNode)
      → IsVersion u n
      → bytes_lt n.key (make_search_key u) ≡ true
      → bytes_eq (user_key n.key) u ≡ false
  unfolding make_search_key
  skipped n v h = ground (arith, compare-version n max_seq_num v (omega arith), v.bounded)

  -- Two versions of the key stand newest first.
  pub descending :
      (n m : SkipListNode)
      → IsVersion u n
      → IsVersion u m
      → NotAfter n.key m.key
      → bytes_eq (user_key n.key) u ≡ true
      → bytes_eq (user_key m.key) u ≡ true
      → seq_num m.key ≤ seq_num n.key
  descending n m vn vm h en em =
      let e : user_key m.key ≡ u = eq_of_compare_bytes (user_key m.key) u (ground arith) in
      let k : m.key ≡ make_internal_key u (seq_num m.key) =
        vm.made ∙ ap (λ (w : Bytes). make_internal_key w (seq_num m.key)) e in
      ground
        (arith, k, compare-version n (seq_num m.key) vn vm.bounded, compare_bytes-flip n.key m.key)

  -- Behind a node of a greater key there is no version.
  pub none_behind :
      (n m : SkipListNode)
      → IsVersion u n
      → IsVersion u m
      → NotAfter n.key m.key
      → bytes_lt n.key (make_search_key u) ≡ false
      → bytes_eq (user_key n.key) u ≡ false
      → bytes_eq (user_key m.key) u ≡ false
  unfolding make_search_key
  none_behind n m vn vm h start en = elim (Bool-cases (bytes_eq (user_key m.key) u)) [
    | inr other ↦ other
    | inl em ↦
        let e : user_key m.key ≡ u = eq_of_compare_bytes (user_key m.key) u (ground arith) in
        let k : m.key ≡ make_internal_key u (seq_num m.key) =
          vm.made ∙ ap (λ (w : Bytes). make_internal_key w (seq_num m.key)) e in
        ground (
          arith,
          k,
          compare-version n max_seq_num vn (omega arith),
          compare-version n (seq_num m.key) vn vm.bounded,
          compare_bytes-flip n.key m.key,
        )
  ]
