-- ===== src/Db/Scan/Runs.antt =====
-- db: scans of a concrete engine.
use mathlib.Core.List.{Perm, flatten}
use lithicdb.Common.{ℕ, ◌≡◌, refl, true, false, some, List, [], ◌∷◌, arith, length, map}
use lithicdb.Common.Bytes.{Bytes, All, compare_bytes}
use lithicdb.Common.Names.{mem}
use lithicdb.Common.Endian.{big_endian, from_big_endian}
use lithicdb.Kv.{new_value, make_internal_key, user_key, seq_num}
use lithicdb.Memtable.{Memtable, SkipListNode}
use lithicdb.Iterator.{Entry, Source}
use lithicdb.Iterator.Visible.{newest_visible, user_key_of}
use lithicdb.Iterator.Merge.Sources.{KeysSorted, all_entries, any_entry}
use lithicdb.Iterator.Merge.Round.{IsOrderly}
use lithicdb.Iterator.Scans.{source_of, HasWidth}
use lithicdb.Memtable.Scan.{scan}
use lithicdb.Db.Engine.{Engine, Table}
use lithicdb.Db.Engine.Sample.{key_a, key_b, empty_engine}
use lithicdb.Db.Transaction.{Transaction}
use lithicdb.Db.Scan.{raw_sources, scan_at, transaction_scan}
use lithicdb.Db.Scan.Newest.{
  AllLayers, stored_entries, memtable_entries, table_entries, level_entries, scan_at-newest_visible,
}
use lithicdb.Db.Scan.Ahead.{is_version_at, transaction_scan_ahead}

abbrev node : Bytes → ℕ → SkipListNode
node u seq = record { key = make_internal_key u seq; value = new_value u; height = 1 }

abbrev table_with : List SkipListNode → Memtable
table_with ns = record {
  sl = record { nodes = ns; height = 1; size = 0; data_size = 0 };
  frozen = false;
  id = 1;
}

-- `a` was written as 1 and 3, `b` as 2.
abbrev layered : Engine
layered = record empty_engine {
  active = table_with (node key_a 3 ∷ node key_b 2 ∷ []);
  immutables = table_with (node key_a 1 ∷ []) ∷ [];
  next_seq = 3;
}

abbrev no_tables : Table → Source
no_tables t = source_of []

sources-IsOrderly : All IsOrderly (raw_sources no_tables layered)
unfolding raw_sources flatten scan compare_bytes make_internal_key big_endian
sources-IsOrderly = ((((refl, tt), (tt, tt)), refl), (((tt, tt), refl), tt))

sources-HasWidth : All (λ s. All (HasWidth 1) s.entries) (raw_sources no_tables layered)
unfolding raw_sources flatten scan make_internal_key big_endian user_key seq_num from_big_endian
sources-HasWidth = (
  (
    record { internal = record { made = refl; bounded = omega arith }; width = refl },
    (record { internal = record { made = refl; bounded = omega arith }; width = refl }, tt),
  ),
  ((record { internal = record { made = refl; bounded = omega arith }; width = refl }, tt), tt),
)

sources_length : length (all_entries (raw_sources no_tables layered)) ≡ 3
unfolding raw_sources flatten scan all_entries
sources_length = refl

layered-IsOrderly : AllLayers no_tables IsOrderly layered
unfolding scan compare_bytes make_internal_key big_endian
layered-IsOrderly = record {
  memtables = ((((refl, tt), (tt, tt)), refl), (((tt, tt), refl), tt));
  l0 = tt;
  levels = (tt, tt);
}

layered-HasWidth : AllLayers no_tables (λ s. All (HasWidth 1) s.entries) layered
unfolding scan make_internal_key big_endian user_key seq_num from_big_endian
layered-HasWidth = record {
  memtables = (
    (
      record { internal = record { made = refl; bounded = omega arith }; width = refl },
      (record { internal = record { made = refl; bounded = omega arith }; width = refl }, tt),
    ),
    ((record { internal = record { made = refl; bounded = omega arith }; width = refl }, tt), tt),
  );
  l0 = tt;
  levels = (tt, tt);
}

stored_length : length (stored_entries no_tables layered) ≡ 3
unfolding stored_entries memtable_entries table_entries level_entries
stored_length = refl

scan_at-newest_visible_example :
    (out : List Entry) × Perm out (stored_entries no_tables layered)
    × KeysSorted out
    × (scan_at no_tables 4 layered 2 ≡ some (newest_visible 2 [] out))
scan_at-newest_visible_example =
    scan_at-newest_visible no_tables layered 1 2 4 (omega arith) layered-IsOrderly layered-HasWidth
      (omega (arith, stored_length))

-- The transaction began after the first write of `a`.
abbrev begun : Transaction
begun = record {
  snapshot = record { seq = 1; closed = false };
  writes = (key_a, new_value key_b) ∷ [];
  closed = false;
}

version_there :
    any_entry (is_version_at key_b 2) (all_entries (raw_sources no_tables layered)) ≡ true
unfolding raw_sources flatten scan all_entries any_entry compare_bytes make_internal_key big_endian
    user_key seq_num from_big_endian
version_there = refl

-- `b` was written after the transaction began, and is shown.
transaction_scan_ahead_example :
    (given : List Entry) × (transaction_scan no_tables 5 layered begun ≡ some given)
    × (mem key_b (map user_key_of given) ≡ true)
transaction_scan_ahead_example =
    transaction_scan_ahead no_tables layered begun key_b 1 5 (omega arith) sources-IsOrderly
      sources-HasWidth (refl, tt) (omega arith) (omega (arith, sources_length)) version_there
