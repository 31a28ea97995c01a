-- ===== src/Memtable/Hidden.antt =====
-- memtable/skiplist.go with the key order of kv/key.go: a key that a longer key of the table extends.
use mathlib.Core.Path.{subst}
use lithicdb.Common.{
  ℕ, ◌^◌, ◌<◌, ◌≡◌, ap, true, false, Bool-cases, inl, inr, none, List, [], ◌∷◌, ◌++◌, append_assoc,
  arith,
}
use lithicdb.Common.Bytes.{
  Bytes, All, bytes_lt, bytes_eq, NotAfter, compare_bytes, compare_bytes_prefix, compare_bytes_refl,
  compare_bytes-flip,
}
use lithicdb.Common.Endian.{big_endian}
use lithicdb.Kv.{make_internal_key, make_search_key, user_key, seq_num}
use lithicdb.Kv.KeyOrder.{prefix_disorder}
use lithicdb.Memtable.{
  SkipListNode, SkipList, newest_at, value_of, find_greater_or_equal, get, get_newest,
}
use lithicdb.Memtable.Seek.{IsOrdered, from, IsSkipList, find_greater_or_equal-from}

-- If the node is a version of the key, it is one with a sequence number below 2 ^ 56.
abbrev pub OldVersion : Bytes → SkipListNode → Type 0
OldVersion u n =
    bytes_eq (user_key n.key) u ≡ true
    → (n.key ≡ make_internal_key u (seq_num n.key)) × (seq_num n.key < 2 ^ 56)

module _ (u : Bytes) (n : SkipListNode) where
  -- If the node is a version of the key, it stands behind `n`.
  abbrev Behind : SkipListNode → Type 0
  Behind m = bytes_eq (user_key m.key) u ≡ true → bytes_lt n.key m.key ≡ true

  newest_at-hidden :
      (pre post : List SkipListNode)
      → IsOrdered (pre ++ (n ∷ post))
      → All Behind (pre ++ (n ∷ post))
      → bytes_lt n.key (make_search_key u) ≡ false
      → newest_at u (from (make_search_key u) (pre ++ (n ∷ post))) ≡ none
  unfolding newest_at from
  newest_at-hidden [] post o b h = elim (Bool-cases (bytes_eq (user_key n.key) u)) [
    | inr e ↦ rw (h, e)
    | inl e ↦ ground (arith, b.0 e, compare_bytes_refl n.key)
  ]
  newest_at-hidden (m ∷ pre) post o b h = elim (Bool-cases (bytes_lt m.key (make_search_key u))) [
    | inl skip ↦ rw skip (newest_at-hidden pre post o.1 b.1 h)
    | inr stop ↦ elim (Bool-cases (bytes_eq (user_key m.key) u)) [
      | inr e ↦ rw (stop, e)
      | inl e ↦ ground (arith, b.0 e, middle pre o.0)
    ]
  ]
    where
      middle :
          (xs : List SkipListNode)
          → All (λ p. NotAfter m.key p.key) (xs ++ (n ∷ post))
          → NotAfter m.key n.key
      middle [] a = a.0
      middle (x ∷ xs) a = middle xs a.1

module _ (u rest : Bytes) (x t : ℕ) where
  abbrev extension : Bytes
  extension = make_internal_key (u ++ x ∷ rest) t

  search_key_before : 0 < x → bytes_lt extension (make_search_key u) ≡ false
  unfolding make_search_key make_internal_key big_endian
  search_key_before h =
      rw (append_assoc, compare_bytes_prefix) (unfold compare_bytes in ground arith)

  OldVersion-Behind :
      (n : SkipListNode)
      → n.key ≡ extension
      → x < 255
      → (ms : List SkipListNode) → All (OldVersion u) ms
      → All (Behind u n) ms
  OldVersion-Behind n k h [] a = tt
  OldVersion-Behind n k h (m ∷ ms) a = (
    λ e.
        let old : (m.key ≡ make_internal_key u (seq_num m.key)) × (seq_num m.key < 2 ^ 56) =
          a.0 e in
        let d = (prefix_disorder u rest x (seq_num m.key) t h old.1).1 in
        rw (k, old.0)
          (ground (arith, d, compare_bytes-flip (make_internal_key u (seq_num m.key)) extension)),
    OldVersion-Behind n k h ms a.1,
  )

  -- A skip list that holds a key that extends `u` by a byte other than 0 and 255 has no answer for
  -- `u`: Get and GetNewest report it missing, when all versions of `u` in the list have sequence
  -- numbers below 2 ^ 56.
  pub get_newest-hidden :
      (s : SkipList) (n : SkipListNode) (pre post : List SkipListNode)
      → IsSkipList s
      → s.nodes ≡ pre ++ (n ∷ post)
      → n.key ≡ make_internal_key (u ++ x ∷ rest) t
      → 0 < x
      → x < 255
      → All (OldVersion u) s.nodes
      → (get_newest s u ≡ none) × (get s u ≡ none)
  get_newest-hidden s n pre post sound split k h0 h1 old =
      (unfold get_newest in nothing, unfold get in ap value_of nothing)
    where
      nothing : newest_at u (find_greater_or_equal s (make_search_key u)) ≡ none
      nothing =
          rw (find_greater_or_equal-from s (make_search_key u) sound, split)
            (newest_at-hidden u n pre post (subst IsOrdered split sound.ordered)
              (OldVersion-Behind n k h1 (pre ++ (n ∷ post)) (subst (All (OldVersion u)) split old))
              (rw k (search_key_before h0)))
