-- ===== src/Memtable/Scan.antt =====
-- memtable/iterator.go and memtable/skiplist.go: the iterators over a skip list, as what they give.
use lithicdb.Common.{false, Option, none, some, List, [], ◌∷◌, map, if◌then◌else◌}
use lithicdb.Common.Bytes.{Bytes, bytes_lt}
use lithicdb.Kv.{make_search_key}
use lithicdb.Iterator.{Entry, Source}
use lithicdb.Memtable.{SkipListNode, SkipList, Memtable, find_greater_or_equal}

-- A tombstone's value is nil; no other value is, as Kv has it.
abbrev pub entry_of_node : SkipListNode → Entry
entry_of_node n = record {
  key = n.key;
  value = if (n.value).tombstone then none else some (n.value).bytes;
}

-- The nodes before the exclusive end, which `checkBound` looks at after each step.
unfoldable pub before_end : Option Bytes → List SkipListNode → List SkipListNode
before_end end_key [] = []
before_end none (n ∷ ns) = n ∷ ns
before_end (some k) (n ∷ ns) = if bytes_lt n.key k then n ∷ before_end (some k) ns else []

-- `none` is a nil bound.
unfoldable pub start_node : SkipList → Option Bytes → List SkipListNode
start_node s none = s.nodes
start_node s (some start) = find_greater_or_equal s (make_search_key start)

abbrev pub end_key_of : Option Bytes → Option Bytes
end_key_of none = none
end_key_of (some end) = some (make_search_key end)

abbrev iterator_over : List SkipListNode → Source
iterator_over ns = record { entries = map entry_of_node ns; fails = false }

unfoldable pub scan : Memtable → Source
scan m = iterator_over (m.sl).nodes

unfoldable pub scan_range : Memtable → Option Bytes → Option Bytes → Source
scan_range m start end = iterator_over (before_end (end_key_of end) (start_node m.sl start))
