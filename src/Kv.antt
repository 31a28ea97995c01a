-- ===== src/Kv.antt =====
-- kv/key.go and kv/value.go: internal keys, and values with tombstones. A slice is a list of
-- bytes, and a value that is put is not nil: a nil one is found until its memtable is flushed, which
-- makes a tombstone of it, and is outside of what is modelled.
pub mod Key
pub mod KeyOrder
mod Runs
use lithicdb.Common.{
  ℕ, ◌+◌, ◌-◌, ◌^◌, ◌<◌, Bool, true, false, Option, none, some, [], ◌++◌, length, take, drop, ltb,
  leb, if◌then◌else◌,
}
use lithicdb.Common.Bytes.{Bytes, bytes_eq}
use lithicdb.Common.Endian.{big_endian, from_big_endian}

abbrev pub seq_size : ℕ
seq_size = 8

abbrev pub max_seq_num : ℕ
max_seq_num = 2 ^ 64 - 1

abbrev pub IsSeq : ℕ → Type 0
IsSeq s = s < 2 ^ 64

pub record Value : Type 0 where
  pub bytes : Bytes
  pub tombstone : Bool

abbrev pub new_value : Bytes → Value
new_value bs = record { bytes = bs; tombstone = false }

abbrev pub new_tombstone : Value
new_tombstone = record { bytes = []; tombstone = true }

unfoldable pub encoded_size : Value → ℕ
encoded_size v = length v.bytes + 1

unfoldable pub make_internal_key : Bytes → ℕ → Bytes
make_internal_key user_key seq = user_key ++ big_endian 8 (max_seq_num - seq)

-- `none` is the error "internal key too short".
unfoldable pub parse_internal_key : Bytes → Option (Bytes × ℕ)
parse_internal_key ikey =
    if ltb (length ikey) seq_size
    then none
    else let boundary = length ikey - seq_size in
      some (take boundary ikey, max_seq_num - from_big_endian 0 (drop boundary ikey))

unfoldable pub user_key : Bytes → Bytes
user_key ikey = if leb (length ikey) seq_size then [] else take (length ikey - seq_size) ikey

unfoldable pub seq_num : Bytes → ℕ
seq_num ikey =
    if ltb (length ikey) seq_size
    then 0
    else max_seq_num - from_big_endian 0 (drop (length ikey - seq_size) ikey)

unfoldable pub same_user_key : Bytes → Bytes → Bool
same_user_key a b = bytes_eq (user_key a) (user_key b)

unfoldable pub make_search_key : Bytes → Bytes
make_search_key key = make_internal_key key max_seq_num
