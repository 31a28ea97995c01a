-- ===== src/Memtable/Reads.antt =====
-- memtable/skiplist.go: what Get, GetNewest and GetAt answer, on keys of which none is a prefix of
-- another.
use lithicdb.Common.{
  ℕ, ◌≤◌, ◌≡◌, refl, true, false, Bool-cases, inl, inr, Option, none, some, List, [], ◌∷◌, arith,
  leb,
}
use lithicdb.Common.Bytes.{Bytes, All, bytes_lt, bytes_eq, NotAfter, NotAfter-trans}
use lithicdb.Kv.{Value, max_seq_num, make_search_key, user_key, seq_num}
use lithicdb.Memtable.{
  SkipListNode, SkipList, newest_at, value_of, visible_at, get, get_newest, get_at,
}
use lithicdb.Memtable.Seek.{IsOrdered, from, IsSkipList, find_greater_or_equal-from}
use lithicdb.Memtable.Versions.{newer, newest_node, IsVersion, skipped, descending, none_behind}

module _ (u : Bytes) (max_seq : ℕ) where
  newest_node-none :
      (ns : List SkipListNode)
      → All (λ m. bytes_eq (user_key m.key) u ≡ false) ns
      → newest_node u max_seq ns ≡ none
  unfolding newest_node
  newest_node-none [] a = refl
  newest_node-none (n ∷ ns) a = rw a.0 (newest_node-none ns a.1)

  module _ (v : Value) (bound : ℕ) where
    newer-newer :
        (w : Value) (s : ℕ) (rest : Option (Value × ℕ))
        → s ≤ bound
        → newer v bound rest ≡ some (v, bound)
        → newer v bound (newer w s rest) ≡ some (v, bound)
    newer-newer w s none h e = ground arith
    newer-newer w s (some (x, t)) h e = ground arith

    newer-newest_node :
        (ns : List SkipListNode)
        → All (λ m. bytes_eq (user_key m.key) u ≡ true → seq_num m.key ≤ bound) ns
        → newer v bound (newest_node u max_seq ns) ≡ some (v, bound)
    unfolding newest_node
    newer-newest_node [] a = refl
    newer-newest_node (n ∷ ns) a = ground (
      arith,
      a.0,
      newer-newest_node ns a.1,
      newer-newer n.value (seq_num n.key) (newest_node u max_seq ns),
    )

module _ (u : Bytes) where
  abbrev AtOrAfter : SkipListNode → Type 0
  AtOrAfter n = bytes_lt n.key (make_search_key u) ≡ false

  All-descending :
      (n : SkipListNode) (ms : List SkipListNode)
      → IsVersion u n
      → bytes_eq (user_key n.key) u ≡ true
      → All (λ m. NotAfter n.key m.key) ms
      → All (IsVersion u) ms
      → All (λ m. bytes_eq (user_key m.key) u ≡ true → seq_num m.key ≤ seq_num n.key) ms
  All-descending n [] vn e o a = tt
  All-descending n (m ∷ ms) vn e o a =
      (descending u n m vn a.0 o.0 e, All-descending n ms vn e o.1 a.1)

  All-none_behind :
      (n : SkipListNode) (ms : List SkipListNode)
      → IsVersion u n
      → AtOrAfter n
      → bytes_eq (user_key n.key) u ≡ false
      → All (λ m. NotAfter n.key m.key) ms
      → All (IsVersion u) ms
      → All (λ m. bytes_eq (user_key m.key) u ≡ false) ms
  All-none_behind n [] vn s e o a = tt
  All-none_behind n (m ∷ ms) vn s e o a =
      (none_behind u n m vn a.0 o.0 s e, All-none_behind n ms vn s e o.1 a.1)

  AtOrAfter-All :
      (n : SkipListNode) (ms : List SkipListNode)
      → AtOrAfter n
      → All (λ m. NotAfter n.key m.key) ms
      → All AtOrAfter ms
  AtOrAfter-All n [] s o = tt
  AtOrAfter-All n (m ∷ ms) s o =
      (NotAfter-trans (make_search_key u) n.key m.key s o.0, AtOrAfter-All n ms s o.1)

module _ (u : Bytes) (max_seq : ℕ) where
  visible_at_lem :
      (ns : List SkipListNode)
      → IsOrdered ns
      → All (IsVersion u) ns
      → All (AtOrAfter u) ns
      → visible_at u max_seq ns ≡ value_of (newest_node u max_seq ns)
  unfolding visible_at newest_node
  visible_at_lem [] o a s = refl
  visible_at_lem (n ∷ ns) o a s = elim (Bool-cases (bytes_eq (user_key n.key) u)) [
    | inr e ↦ rw (e, newest_node-none u max_seq ns (All-none_behind u n ns a.0 s.0 e o.0 a.1))
    | inl e ↦ elim (Bool-cases (leb (seq_num n.key) max_seq)) [
      | inr h ↦ rw (e, h) (visible_at_lem ns o.1 a.1 s.1)
      | inl h ↦ rw (
        e,
        h,
        newer-newest_node u max_seq n.value (seq_num n.key) ns
            (All-descending u n ns a.0 e o.0 a.1),
      )
    ]
  ]

  visible_at-from :
      (ns : List SkipListNode)
      → IsOrdered ns
      → All (IsVersion u) ns
      → visible_at u max_seq (from (make_search_key u) ns) ≡ value_of (newest_node u max_seq ns)
  unfolding from visible_at newest_node
  visible_at-from [] o a = refl
  visible_at-from (n ∷ ns) o a = elim (Bool-cases (bytes_lt n.key (make_search_key u))) [
    | inl h ↦ rw (h, skipped u n a.0 h) (visible_at-from ns o.1 a.1)
    | inr h ↦ rw h (visible_at_lem (n ∷ ns) o a (h, AtOrAfter-All u n ns h o.0))
  ]

module _ (u : Bytes) where
  newest_at_lem :
      (ns : List SkipListNode)
      → IsOrdered ns
      → All (IsVersion u) ns
      → All (AtOrAfter u) ns
      → newest_at u ns ≡ newest_node u max_seq_num ns
  unfolding newest_at newest_node
  newest_at_lem [] o a s = refl
  newest_at_lem (n ∷ ns) o a s = elim (Bool-cases (bytes_eq (user_key n.key) u)) [
    | inr e ↦ rw (e, newest_node-none u max_seq_num ns (All-none_behind u n ns a.0 s.0 e o.0 a.1))
    | inl e ↦
        let h : leb (seq_num n.key) max_seq_num ≡ true = ground (arith, (a.0).bounded) in
        rw (
          e,
          h,
          newer-newest_node u max_seq_num n.value (seq_num n.key) ns
              (All-descending u n ns a.0 e o.0 a.1),
        )
  ]

  newest_at-from :
      (ns : List SkipListNode)
      → IsOrdered ns
      → All (IsVersion u) ns
      → newest_at u (from (make_search_key u) ns) ≡ newest_node u max_seq_num ns
  unfolding from newest_at newest_node
  newest_at-from [] o a = refl
  newest_at-from (n ∷ ns) o a = elim (Bool-cases (bytes_lt n.key (make_search_key u))) [
    | inl h ↦ rw (h, skipped u n a.0 h) (newest_at-from ns o.1 a.1)
    | inr h ↦ rw h (newest_at_lem (n ∷ ns) o a (h, AtOrAfter-All u n ns h o.0))
  ]

module _ (s : SkipList) (u : Bytes) (sound : IsSkipList s)
    (versions : All (IsVersion u) s.nodes) where
  -- GetAt finds the newest version of the key at or below the sequence number.
  pub get_at-newest_node :
      (max_seq : ℕ) → get_at s u max_seq ≡ value_of (newest_node u max_seq s.nodes)
  unfolding get_at
  get_at-newest_node max_seq =
      rw (find_greater_or_equal-from s (make_search_key u) sound)
        (visible_at-from u max_seq s.nodes sound.ordered versions)

  pub get_newest-newest_node : get_newest s u ≡ newest_node u max_seq_num s.nodes
  unfolding get_newest
  get_newest-newest_node =
      rw (find_greater_or_equal-from s (make_search_key u) sound)
        (newest_at-from u s.nodes sound.ordered versions)

  pub get-newest_node : get s u ≡ value_of (newest_node u max_seq_num s.nodes)
  unfolding get
  get-newest_node = rw (
    find_greater_or_equal-from s (make_search_key u) sound,
    newest_at-from u s.nodes sound.ordered versions,
  )
