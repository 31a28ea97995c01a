-- ===== src/Db/Transaction/Runs.antt =====
-- db/transaction.go: runs on a concrete engine.
use mathlib.Core.List.{flatten}
use lithicdb.Common.{◌≡◌, refl, inl, true, false, some, List, [], ◌∷◌, arith}
use lithicdb.Common.Bytes.{compare_bytes}
use lithicdb.Common.Names.{mem}
use lithicdb.Common.Endian.{big_endian, from_big_endian}
use lithicdb.Kv.{
  new_value, new_tombstone, encoded_size, make_internal_key, make_search_key, user_key, seq_num,
}
use lithicdb.Memtable.{
  Memtable, put_memtable, find_greater_or_equal, descend, walk_level, get_newest,
}
use lithicdb.Memtable
use lithicdb.Db.Engine.{
  Engine, done, blocked, conflict, or_else, put, rotate_when_full, rotate_memtable, read_newest,
  has_flush_space,
}
use lithicdb.Db.Engine.Flush.{
  flush_immutables, flush_loop, flush_one, flush_from, split_last, flush_immutables-Refines,
}
use lithicdb.Db.Engine.Fresh.{committed}
use lithicdb.Db.Engine.Sample.{
  key_a, key_b, empty_engine, empty_engine-Refines, fine, fine-IsReady, table_of, table_of-ServesAs,
  one_write, one_write-Refines,
}
use lithicdb.Db.Transaction.{
  Transaction, find_write, has_conflict, any_newest, commit, apply_writes, is_empty,
}
use lithicdb.Db.Transaction.Conflicts.{any_later, any_newest-any_later}
use lithicdb.Db.Transaction.Commit.{IsWriteSet, commit_atomic}
use lithicdb.Db.Transaction.Waiting.{ended, overtaken, waiting_commit_overwrites}
use lithicdb.Db.Engine.Log.{Refines}
use lithicdb.Memtable.Log.{Write}
use lithicdb.Db.Engine.Writes.{put-Refines}

-- A transaction on the empty engine that writes `a` and deletes `b`.
abbrev begun : Transaction
begun = record {
  snapshot = record { seq = 0; closed = false };
  writes = (key_a, new_value key_a) ∷ (key_b, new_tombstone) ∷ [];
  closed = false;
}

begun-IsWriteSet : IsWriteSet begun.writes
unfolding mem compare_bytes
begun-IsWriteSet = record { distinct = (refl, (refl, tt)); made = (refl, (refl, tt)) }

commit_atomic_example :
    read_newest (commit empty_engine begun fine).0.0 key_a
    ≡ or_else
        (committed (commit empty_engine begun fine).1 (find_write begun.writes key_a))
        (read_newest empty_engine key_a)
commit_atomic_example =
    commit_atomic key_a empty_engine [] begun fine empty_engine-Refines begun-IsWriteSet
      (omega arith) (inl refl, (inl refl, tt)) fine-IsReady

any_newest-any_later_example :
    any_newest (one_write.active ∷ one_write.immutables) key_a 0
    ≡ any_later key_a 0 (flatten one_write-Refines.in_memory)
any_newest-any_later_example =
    any_newest-any_later key_a 0 (one_write.active ∷ one_write.immutables)
      one_write-Refines.in_memory one_write-Refines.memtables

-- Two writes fill the memtable, and then a writer waits.
abbrev roomy : Engine
roomy = record empty_engine { opts = record { memtable_size = 15; max_immutable_count = 1 } }

roomy-Refines : Refines key_a roomy []
roomy-Refines = record {
  in_memory = empty_engine-Refines.in_memory;
  on_disk = empty_engine-Refines.on_disk;
  memtables = empty_engine-Refines.memtables;
  tables = empty_engine-Refines.tables;
  stacked = empty_engine-Refines.stacked;
  is_log = empty_engine-Refines.is_log;
  numbered = empty_engine-Refines.numbered;
}

abbrev half : Engine
half = (put roomy key_a key_b fine).0

abbrev full : Engine
full = (put half key_a key_b fine).0

half_seq : half.next_seq ≡ 1
unfolding flush_immutables flush_loop flush_one flush_from split_last put rotate_when_full
    rotate_memtable put_memtable Memtable.put Memtable.freeze make_internal_key big_endian
    encoded_size has_conflict any_newest get_newest Memtable.newest_at find_greater_or_equal descend
    walk_level compare_bytes from_big_endian make_search_key seq_num user_key
half_seq = refl

-- What is logged when the two writes are flushed.
full_log : (log : List Write) × Refines key_a (flush_immutables table_of full) log
full_log = (
  _,
  flush_immutables-Refines key_a table_of (table_of-ServesAs key_a) full _ (
      put-Refines key_a half _
        (put-Refines key_a roomy [] roomy-Refines (omega arith) key_a key_b fine (inl refl)
          fine-IsReady)
        (omega (arith, half_seq)) key_a key_b fine (inl refl) fine-IsReady),
)

-- A transaction that began after the two writes and writes `a`.
abbrev writes_a : Transaction
writes_a = record {
  snapshot = record { seq = 2; closed = false };
  writes = (key_a, new_value key_a) ∷ [];
  closed = false;
}

writes_a-IsWriteSet : IsWriteSet writes_a.writes
unfolding mem compare_bytes
writes_a-IsWriteSet = record { distinct = (refl, tt); made = (refl, tt) }

waits :
    (has_conflict full 2 writes_a.writes ≡ false)
    × (has_flush_space full ≡ false)
    × ((flush_immutables table_of full).next_seq ≡ 2)
    × (has_flush_space (flush_immutables table_of full) ≡ true)
    × (has_flush_space (overtaken table_of full key_a key_b fine) ≡ true)
unfolding flush_immutables flush_loop flush_one flush_from split_last put rotate_when_full
    rotate_memtable put_memtable Memtable.put Memtable.freeze make_internal_key big_endian
    encoded_size has_conflict any_newest get_newest Memtable.newest_at find_greater_or_equal descend
    walk_level compare_bytes from_big_endian make_search_key seq_num user_key
waits = (refl, refl, refl, refl, refl)

waiting_commit_overwrites_example :
    (commit full writes_a fine ≡ ((full, ended writes_a), blocked))
    × ((put (flush_immutables table_of full) key_a key_b fine).1 ≡ done)
    × ((commit (overtaken table_of full key_a key_b fine) writes_a fine).1 ≡ conflict)
    × ((apply_writes (overtaken table_of full key_a key_b fine) (ended writes_a) fine).1 ≡ done)
    × (read_newest
          (apply_writes (overtaken table_of full key_a key_b fine) (ended writes_a) fine).0.0
          key_a
        ≡ some (new_value key_a))
waiting_commit_overwrites_example =
    waiting_commit_overwrites key_a key_b (new_value key_a) full table_of full_log.0 writes_a fine
      fine refl (unfold is_empty in refl) waits.0 waits.1 full_log.1 (omega (arith, waits.2))
      (unfold find_write in unfold compare_bytes in refl) writes_a-IsWriteSet (inl refl, tt)
      (omega (arith, waits.2)) fine-IsReady fine-IsReady refl refl waits.3 waits.4
