-- ===== src/Iterator/Merge.antt =====
-- iterator/merge.go: the merge of several iterators. container/heap is known by what it promises: Pop
-- takes the least item by Less, and two items differ in their index. Its layout is left open.
pub mod Least
pub mod Sources
pub mod Heaps
pub mod Round
pub mod Output
pub mod Errors
mod Runs
use Prim.Native.Nat.{Ordering}
use lithicdb.Common.{
  ℕ, zero, suc, ◌+◌, Bool, true, false, not, Option, none, some, List, [], ◌∷◌, ◌++◌, take,
  get_elem?, set, ltb, if◌then◌else◌, ◌&&◌,
}
use lithicdb.Common.Bytes.{Bytes, compare_bytes}
use lithicdb.Iterator.{Entry, Source, is_nil, is_valid, next, err}

pub record HeapItem : Type 0 where
  pub key : Bytes
  pub idx : ℕ

-- By key, and for one key by the index.
unfoldable pub less : HeapItem → HeapItem → Bool
less a b = elim (compare_bytes a.key b.key) [
  | Ordering.lt ↦ true
  | Ordering.eq ↦ ltb a.idx b.idx
  | Ordering.gt ↦ false
]

-- The least item, and the others.
unfoldable pub pop_least : HeapItem → List HeapItem → HeapItem × List HeapItem
pop_least x [] = (x, [])
pop_least x (y ∷ ys) =
    let (m, rest) = pop_least y ys in if less m x then (m, x ∷ rest) else (x, m ∷ rest)

-- `cur` is `none` for an item that is not valid.
pub record MergeIterator : Type 0 where
  pub iters : List Source
  pub h : List HeapItem
  pub cur : Option HeapItem
  pub failed : Bool

abbrev pub item_of : ℕ → Source → List HeapItem
item_of i s = elim s.entries [ [] ↦ [] | e ∷ es ↦ (record { key = e.key; idx = i }) ∷ [] ]

-- The items of the valid iterators, from index `i` on.
unfoldable pub first_items : ℕ → List Source → List HeapItem
first_items i [] = []
first_items i (s ∷ ss) = item_of i s ++ first_items (i + 1) ss

unfoldable pub advance_on : MergeIterator → List HeapItem → MergeIterator
advance_on m [] = record m { cur = none }
advance_on m (x ∷ xs) =
    let (least, rest) = pop_least x xs in record m { h = rest; cur = some least }

unfoldable pub advance : MergeIterator → MergeIterator
advance m = advance_on m m.h

unfoldable pub new_merge_iterator : List Source → MergeIterator
new_merge_iterator iters =
    advance (record { iters = iters; h = first_items 0 iters; cur = none; failed = false })

-- What the iterator at the index has left.
abbrev pub source_entries : Option Source → List Entry
source_entries none = []
source_entries (some s) = s.entries

abbrev pub entries_at : ℕ → List Source → List Entry
entries_at i iters = source_entries (get_elem? iters i)

-- `it` is the iterator at the index, moved on; heap.Push adds its item.
abbrev pub push_source : MergeIterator → ℕ → Source → MergeIterator
push_source m i it =
    let moved : MergeIterator = record m { iters = set m.iters i it } in
    if err it then record moved { failed = true } else record moved { h = item_of i it ++ m.h }

unfoldable pub push_next : MergeIterator → ℕ → MergeIterator
push_next m i = elim (get_elem? m.iters i) [ none ↦ m | some it ↦ push_source m i (next it) ]

unfoldable pub merge_is_valid : MergeIterator → Bool
merge_is_valid m = elim m.cur [ none ↦ false | some c ↦ not m.failed ]

unfoldable pub next_of : MergeIterator → Option HeapItem → MergeIterator
next_of m none = m
next_of m (some c) =
    let pushed = push_next m c.idx in
    if m.failed then m else if pushed.failed then pushed else advance pushed

unfoldable pub merge_next : MergeIterator → MergeIterator
merge_next m = next_of m m.cur

-- Key and Value: the current entry of the iterator that the current item names.
unfoldable pub merge_entry : MergeIterator → List Entry
merge_entry m = elim m.cur [ none ↦ [] | some c ↦ take 1 (entries_at c.idx m.iters) ]

abbrev pub push : List Entry → Option (List Entry) → Option (List Entry)
push es none = none
push es (some rest) = some (es ++ rest)

-- A client's loop: while valid, take the entry and call Next. `none` is no behaviour of the code:
-- the fuel ran out.
unfoldable pub merge_scan : ℕ → MergeIterator → Option (List Entry)
merge_scan zero m = none
merge_scan (suc fuel) m = elim (merge_is_valid m) [
  | true ↦ push (merge_entry m) (merge_scan fuel (merge_next m))
  | false ↦ some []
]
