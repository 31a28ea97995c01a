-- ===== src/Memtable.antt =====
-- memtable/skiplist.go and memtable/memtable.go. The nodes stand in the order of level 0, each with
-- its height: a node is linked on the levels below its height, and `next[i]` is the first node
-- behind it that is linked on level `i`. A position is the list of the nodes behind it.
pub mod Seek
pub mod Insert
pub mod Versions
pub mod Reads
pub mod Log
pub mod Hidden
pub mod Scan
mod Runs
use lithicdb.Common.{
  ℕ, zero, suc, ◌+◌, ◌-◌, Bool, true, false, Option, none, some, List, [], ◌∷◌, ◌++◌, length, take,
  ltb, leb, if◌then◌else◌,
}
use lithicdb.Common.Bytes.{Bytes, bytes_eq, bytes_lt}
use lithicdb.Kv.{Value, encoded_size, make_search_key, user_key, seq_num}

pub record SkipListNode : Type 0 where
  pub key : Bytes
  pub value : Value
  pub height : ℕ

pub record SkipList : Type 0 where
  pub nodes : List SkipListNode
  pub height : ℕ
  pub size : ℕ
  pub data_size : ℕ

abbrev pub max_height : ℕ
max_height = 12

abbrev pub new_skip_list : SkipList
new_skip_list = record { nodes = []; height = 1; size = 0; data_size = 0 }

-- On level `i`, from the position `at`: `ahead` is what is left to look at.
unfoldable pub walk_level : ℕ → Bytes → List SkipListNode → List SkipListNode → List SkipListNode
walk_level i target at [] = at
walk_level i target at (n ∷ ahead) =
    let skip = walk_level i target at ahead in
    let move = walk_level i target ahead ahead in
    if leb n.height i then skip else if bytes_lt n.key target then move else at

-- The levels below `levels`, from the top down.
unfoldable pub descend : ℕ → Bytes → List SkipListNode → List SkipListNode
descend zero target at = at
descend (suc i) target at = descend i target (walk_level i target at at)

-- The first node with key >= target stands at the head.
unfoldable pub find_greater_or_equal : SkipList → Bytes → List SkipListNode
find_greater_or_equal s target = descend s.height target s.nodes

-- `height` is what `randomHeight` returns.
unfoldable pub put : SkipList → Bytes → Value → ℕ → SkipList
unfolding encoded_size
put s internal_key value h =
    let behind = find_greater_or_equal s internal_key in
    let node : SkipListNode = record { key = internal_key; value = value; height = h } in
    record {
      nodes = take (length s.nodes - length behind) s.nodes ++ (node ∷ behind);
      height = if ltb s.height h then h else s.height;
      size = s.size + 1;
      data_size = s.data_size + length internal_key + encoded_size value;
    }

unfoldable pub newest_at : Bytes → List SkipListNode → Option (Value × ℕ)
newest_at u [] = none
newest_at u (n ∷ ns) = if bytes_eq (user_key n.key) u then some (n.value, seq_num n.key) else none

abbrev pub value_of : Option (Value × ℕ) → Option Value
value_of none = none
value_of (some (v, s)) = some v

-- `none` is the answer `false`.
unfoldable pub get : SkipList → Bytes → Option Value
get s u = value_of (newest_at u (find_greater_or_equal s (make_search_key u)))

unfoldable pub get_newest : SkipList → Bytes → Option (Value × ℕ)
get_newest s u = newest_at u (find_greater_or_equal s (make_search_key u))

-- The walk over the versions of the key.
unfoldable pub visible_at : Bytes → ℕ → List SkipListNode → Option Value
visible_at u max_seq [] = none
visible_at u max_seq (n ∷ ns) =
    let older = visible_at u max_seq ns in
    if bytes_eq (user_key n.key) u
    then (if leb (seq_num n.key) max_seq then some n.value else older)
    else none

unfoldable pub get_at : SkipList → Bytes → ℕ → Option Value
get_at s u max_seq = visible_at u max_seq (find_greater_or_equal s (make_search_key u))

pub record Memtable : Type 0 where
  pub sl : SkipList
  pub frozen : Bool
  pub id : ℕ

abbrev pub new_memtable : ℕ → Memtable
new_memtable id = record { sl = new_skip_list; frozen = false; id = id }

unfoldable pub freeze : Memtable → Memtable
freeze m = record m { frozen = true }

unfoldable pub put_memtable : Memtable → Bytes → Value → ℕ → Memtable
put_memtable m key value h = record m { sl = put m.sl key value h }
