-- ===== src/Memtable/Log.antt =====
-- memtable/memtable.go: a memtable that a sequence of writes has filled, and what it answers.
use lithicdb.Common.{
  ℕ, ◌≤◌, ◌≡◌, ◌≢◌, refl, ap, ◌∙◌, true, Bool-cases, inl, inr, Option, none, some, List, [], ◌∷◌,
  arith, leb, if◌then◌else◌, ◌&&◌,
}
use lithicdb.Common.Bytes.{Bytes, All, bytes_lt, bytes_eq, compare_bytes_refl, eq_of_compare_bytes}
use lithicdb.Kv.{Value, IsSeq, max_seq_num, make_internal_key, user_key, seq_num}
use lithicdb.Kv.Key.{user_key-make_internal_key, seq_num-make_internal_key}
use lithicdb.Kv.KeyOrder.{Comparable}
use lithicdb.Memtable.{
  SkipListNode, SkipList, new_skip_list, put, value_of, get, get_newest, get_at,
}
use lithicdb.Memtable.Seek.{IsSkipList}
use lithicdb.Memtable.Insert.{
  insert_node, insert_node-All, put-insert_node, put-IsSkipList, new_skip_list-IsSkipList,
}
use lithicdb.Memtable.Versions.{newer, newest_node, IsVersion}
use lithicdb.Memtable.Reads.{get_at-newest_node, get_newest-newest_node, get-newest_node}

pub record Write : Type 0 where
  pub key : Bytes
  pub seq : ℕ
  pub value : Value
  pub height : ℕ

-- The skip list after a sequence of writes, the last write first.
unfoldable pub written : List Write → SkipList
written [] = new_skip_list
written (w ∷ ws) = put (written ws) (make_internal_key w.key w.seq) w.value w.height

-- The specification: the newest write of the key at or below `max_seq`, the last one on a tie.
unfoldable pub newest_write : Bytes → ℕ → List Write → Option (Value × ℕ)
newest_write u max_seq [] = none
newest_write u max_seq (w ∷ ws) =
    let rest = newest_write u max_seq ws in
    if bytes_eq w.key u && leb w.seq max_seq then newer w.value w.seq rest else rest

pub record IsWrite (u : Bytes) (w : Write) : Type 0 where
  pub bounded : IsSeq w.seq
  pub apart : Comparable w.key u
  pub linked : 1 ≤ w.height

newer_swap :
    (v w : Value) (s t : ℕ) (rest : Option (Value × ℕ))
    → s ≢ t
    → newer v s (newer w t rest) ≡ newer w t (newer v s rest)
newer_swap v w s t none ne = ground arith
newer_swap v w s t (some (x, r)) ne = ground arith

module _ (u : Bytes) where
  -- Of two versions of the key the one below has another sequence number.
  below_other :
      (m n : SkipListNode)
      → IsVersion u m
      → IsVersion u n
      → bytes_lt m.key n.key ≡ true
      → bytes_eq (user_key m.key) u ≡ true
      → bytes_eq (user_key n.key) u ≡ true
      → seq_num m.key ≢ seq_num n.key
  below_other m n vm vn h em en same =
      let fm : user_key m.key ≡ u = eq_of_compare_bytes (user_key m.key) u (ground arith) in
      let fn : user_key n.key ≡ u = eq_of_compare_bytes (user_key n.key) u (ground arith) in
      let k : m.key ≡ n.key = cc (vm.made, vn.made, fm, fn, same) in
      ground (arith, k, compare_bytes_refl n.key)

  newest_node-insert_node :
      (max_seq : ℕ) (n : SkipListNode) (ns : List SkipListNode)
      → IsVersion u n
      → All (IsVersion u) ns
      → newest_node u max_seq (insert_node n ns) ≡ newest_node u max_seq (n ∷ ns)
  unfolding newest_node insert_node
  newest_node-insert_node max_seq n [] vn a = refl
  newest_node-insert_node max_seq n (m ∷ ms) vn a = elim (Bool-cases (bytes_lt m.key n.key)) [
    | inr h ↦ rw h
    | inl h ↦
        rw (h, newest_node-insert_node max_seq n ms vn a.1)
          (ground (
            arith,
            below_other m n a.0 vn h,
            newer_swap m.value n.value (seq_num m.key) (seq_num n.key) (newest_node u max_seq ms),
          ))
  ]

  module _ (w : Write) (good : IsWrite u w) where
    abbrev node_of : SkipListNode
    node_of = record { key = make_internal_key w.key w.seq; value = w.value; height = w.height }

    IsVersion-node_of : IsVersion u node_of
    IsVersion-node_of = record {
      made = rw (
        user_key-make_internal_key w.key w.seq,
        seq_num-make_internal_key w.key w.seq good.bounded,
      );
      bounded = rw (seq_num-make_internal_key w.key w.seq good.bounded) good.bounded;
      apart = rw (user_key-make_internal_key w.key w.seq) good.apart;
    }

  written-IsSkipList : (ws : List Write) → All (IsWrite u) ws → IsSkipList (written ws)
  unfolding written
  written-IsSkipList [] a = new_skip_list-IsSkipList
  written-IsSkipList (w ∷ ws) a =
      put-IsSkipList (written ws) (make_internal_key w.key w.seq) w.value w.height
        (written-IsSkipList ws a.1) (a.0).linked

  written-insert_node :
      (w : Write) (ws : List Write) (a : All (IsWrite u) (w ∷ ws))
      → (written (w ∷ ws)).nodes ≡ insert_node (node_of w a.0) (written ws).nodes
  unfolding written
  written-insert_node w ws a =
      put-insert_node (written ws) (make_internal_key w.key w.seq) w.value w.height
        (written-IsSkipList ws a.1)

  written-IsVersion : (ws : List Write) → All (IsWrite u) ws → All (IsVersion u) (written ws).nodes
  unfolding written
  written-IsVersion [] a = tt
  written-IsVersion (w ∷ ws) a = rw (written-insert_node w ws a) (
      insert_node-All (node_of w a.0) (IsVersion u) (written ws).nodes (IsVersion-node_of w a.0)
        (written-IsVersion ws a.1))

  newest_node-written :
      (max_seq : ℕ) (ws : List Write)
      → All (IsWrite u) ws
      → newest_node u max_seq (written ws).nodes ≡ newest_write u max_seq ws
  unfolding written newest_node newest_write
  newest_node-written max_seq [] a = refl
  newest_node-written max_seq (w ∷ ws) a =
      ap (newest_node u max_seq) (written-insert_node w ws a)
      ∙ newest_node-insert_node max_seq (node_of w a.0) (written ws).nodes (IsVersion-node_of w a.0)
          (written-IsVersion ws a.1)
      ∙ rw (
        user_key-make_internal_key w.key w.seq,
        seq_num-make_internal_key w.key w.seq (a.0).bounded,
        newest_node-written max_seq ws a.1,
      )

  -- After any sequence of writes with uint64 sequence numbers and heights from 1 on, of which no
  -- user key is a proper prefix of the one looked up, nor the other way round, GetAt answers with
  -- the newest write of the key at or below the sequence number.
  pub get_at-written :
      (ws : List Write) (max_seq : ℕ)
      → All (IsWrite u) ws
      → get_at (written ws) u max_seq ≡ value_of (newest_write u max_seq ws)
  get_at-written ws max_seq a =
      get_at-newest_node (written ws) u (written-IsSkipList ws a) (written-IsVersion ws a) max_seq
      ∙ ap value_of (newest_node-written max_seq ws a)

  -- Under the same conditions GetNewest answers with the newest write of the key and its sequence
  -- number, and Get with its value.
  pub get_newest-written :
      (ws : List Write)
      → All (IsWrite u) ws
      → (get_newest (written ws) u ≡ newest_write u max_seq_num ws)
        × (get (written ws) u ≡ value_of (newest_write u max_seq_num ws))
  get_newest-written ws a = (
    get_newest-newest_node (written ws) u (written-IsSkipList ws a) (written-IsVersion ws a)
        ∙ newest_node-written max_seq_num ws a,
    get-newest_node (written ws) u (written-IsSkipList ws a) (written-IsVersion ws a)
        ∙ ap value_of (newest_node-written max_seq_num ws a),
  )
