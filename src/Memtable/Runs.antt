-- ===== src/Memtable/Runs.antt =====
-- memtable: runs on concrete keys.
use lithicdb.Common.{◌≡◌, refl, inl, none, some, List, [], ◌∷◌, arith}
use lithicdb.Common.Bytes.{Bytes, All, compare_bytes}
use lithicdb.Common.Endian.{big_endian, from_big_endian}
use lithicdb.Kv.{new_value, new_tombstone, make_internal_key, user_key, seq_num}
use lithicdb.Memtable.{
  SkipListNode, SkipList, new_skip_list, put, value_of, get, get_newest, get_at,
  find_greater_or_equal, descend, walk_level,
}
use lithicdb.Memtable.Seek.{IsSkipList}
use lithicdb.Memtable.Insert.{
  insert_node, put-insert_node, put-IsSkipList, new_skip_list-IsSkipList,
}
use lithicdb.Memtable.Log.{Write, written, newest_write, IsWrite, get_at-written}
use lithicdb.Memtable.Hidden.{OldVersion, get_newest-hidden}

abbrev key_a : Bytes
key_a = b'a' ∷ []

abbrev key_ab : Bytes
key_ab = b'a' ∷ b'b' ∷ []

abbrev key_b : Bytes
key_b = b'b' ∷ []

-- Two writes of `a` around a write of `b`, the last first.
abbrev three_writes : List Write
three_writes =
    (record { key = key_a; seq = 3; value = new_tombstone; height = 1 })
    ∷ (record { key = key_b; seq = 2; value = new_value key_b; height = 2 })
    ∷ (record { key = key_a; seq = 1; value = new_value key_a; height = 3 })
    ∷ []

abbrev three_writes-IsWrite : All (IsWrite key_a) three_writes
three_writes-IsWrite = (
  record { bounded = omega arith; apart = inl refl; linked = omega arith },
  (
    record { bounded = omega arith; apart = inl refl; linked = omega arith },
    (record { bounded = omega arith; apart = inl refl; linked = omega arith }, tt),
  ),
)

get_at-written_example :
    get_at (written three_writes) key_a 2 ≡ value_of (newest_write key_a 2 three_writes)
get_at-written_example = get_at-written key_a three_writes 2 three_writes-IsWrite

get_at_old : get_at (written three_writes) key_a 2 ≡ some (new_value key_a)
unfolding newest_write compare_bytes
get_at_old = get_at-written_example

abbrev one_key : SkipList
one_key = put new_skip_list (make_internal_key key_a 1) (new_value key_a) 1

one_key-IsSkipList : IsSkipList one_key
one_key-IsSkipList =
    put-IsSkipList new_skip_list (make_internal_key key_a 1) (new_value key_a) 1
      new_skip_list-IsSkipList (omega arith)

-- `a` first, then `ab`, which stands before it.
abbrev two_keys : SkipList
two_keys = put one_key (make_internal_key key_ab 2) (new_value key_ab) 2

two_keys-IsSkipList : IsSkipList two_keys
two_keys-IsSkipList =
    put-IsSkipList one_key (make_internal_key key_ab 2) (new_value key_ab) 2 one_key-IsSkipList
      (omega arith)

put-insert_node_example :
    two_keys.nodes
    ≡ insert_node
        (record { key = make_internal_key key_ab 2; value = new_value key_ab; height = 2 })
        one_key.nodes
put-insert_node_example =
    put-insert_node one_key (make_internal_key key_ab 2) (new_value key_ab) 2 one_key-IsSkipList

abbrev node_a : SkipListNode
node_a = record { key = make_internal_key key_a 1; value = new_value key_a; height = 1 }

abbrev node_ab : SkipListNode
node_ab = record { key = make_internal_key key_ab 2; value = new_value key_ab; height = 2 }

two_keys-nodes : two_keys.nodes ≡ node_ab ∷ node_a ∷ []
unfolding put find_greater_or_equal descend walk_level compare_bytes make_internal_key big_endian
two_keys-nodes = refl

two_keys-OldVersion : All (OldVersion key_a) (node_ab ∷ node_a ∷ [])
unfolding compare_bytes make_internal_key big_endian user_key seq_num from_big_endian
two_keys-OldVersion = (λ e. ground arith, (λ e. (refl, omega arith), tt))

get_newest-hidden_example : (get_newest two_keys key_a ≡ none) × (get two_keys key_a ≡ none)
get_newest-hidden_example =
    get_newest-hidden key_a [] b'b' 2 two_keys node_ab [] (node_a ∷ []) two_keys-IsSkipList
      two_keys-nodes refl (omega arith) (omega arith) (rw two_keys-nodes two_keys-OldVersion)
