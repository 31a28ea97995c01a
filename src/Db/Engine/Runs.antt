-- ===== src/Db/Engine/Runs.antt =====
-- db: runs of the engine.
use lithicdb.Common.{◌≡◌, refl, inl, true, false, some, List, [], ◌∷◌, arith}
use lithicdb.Common.Bytes.{All, compare_bytes}
use lithicdb.Common.Endian.{big_endian}
use lithicdb.Kv.{new_tombstone, make_internal_key}
use lithicdb.Memtable.{Memtable, new_memtable, put_memtable, get_at}
use lithicdb.Memtable
use lithicdb.Db.Engine.{
  BatchOp, Engine, or_else, put, apply_batch, apply_ops, rotate_when_full, rotate_memtable, read_at,
  read_newest, has_flush_space,
}
use lithicdb.Db.Engine.Flush.{flush_immutables}
use lithicdb.Db.Engine.Isolation.{
  Command, puts, deletes, batches, commits, snapshots, IsCommand, all_numbers, numbers, run,
  read_at-run,
}
use lithicdb.Db.Transaction.{Transaction}
use lithicdb.Db.Engine.Log.{Refines}
use lithicdb.Db.Engine.Fresh.{committed, last_op, read_newest-apply_batch}
use lithicdb.Db.Engine.Drain.{flush_immutables_drained}
use lithicdb.Db.Engine.Sample.{
  key_a, key_b, empty_engine, fine, fine-IsReady, table_of, empty_engine-Refines, one_write,
  one_log, one_write-Refines,
}

one_write_state : (one_write.next_seq ≡ 1) × (one_write.opts.max_immutable_count ≡ 1)
unfolding put rotate_when_full rotate_memtable put_memtable Memtable.put make_internal_key
    big_endian
one_write_state = (refl, refl)

-- A transaction that began after the write and deletes `a`.
abbrev deletes_a : Transaction
deletes_a = record {
  snapshot = record { seq = 1; closed = false };
  writes = (key_a, new_tombstone) ∷ [];
  closed = false;
}

-- An engine with room for more, and writes of each kind.
abbrev wide : Engine
wide = record one_write { opts = record { memtable_size = 1; max_immutable_count = 9 } }

wide-Refines : Refines key_a wide one_log
wide-Refines = record {
  in_memory = one_write-Refines.in_memory;
  on_disk = one_write-Refines.on_disk;
  memtables = one_write-Refines.memtables;
  tables = one_write-Refines.tables;
  stacked = one_write-Refines.stacked;
  is_log = one_write-Refines.is_log;
  numbered = one_write-Refines.numbered;
}

abbrev commands : List Command
commands =
    commits deletes_a fine
    ∷ puts key_a key_a fine
    ∷ snapshots
    ∷ batches
        ((record { key = key_a; value = []; tombstone = true })
          ∷ (record { key = key_a; value = key_a; tombstone = false })
          ∷ [])
        fine
    ∷ deletes key_b fine
    ∷ []

commands-IsCommand : All (IsCommand key_a) commands
commands-IsCommand = (
  ((inl refl, tt), fine-IsReady),
  (
    (inl refl, fine-IsReady),
    (tt, (((inl refl, (inl refl, tt)), fine-IsReady), ((inl refl, fine-IsReady), tt))),
  ),
)

read_at-run_example : read_at (run wide commands) key_a 1 ≡ read_at wide key_a 1
read_at-run_example =
    read_at-run key_a commands wide one_log 1 wide-Refines commands-IsCommand
      (unfold all_numbers in unfold numbers in omega (arith, one_write_state))
      (omega (arith, one_write_state))

abbrev three_ops : List BatchOp
three_ops =
    (record { key = key_a; value = key_a; tombstone = false })
    ∷ (record { key = key_b; value = []; tombstone = false })
    ∷ (record { key = key_a; value = []; tombstone = true })
    ∷ []

read_newest-apply_batch_example :
    read_newest (apply_batch empty_engine three_ops fine).0 key_a
    ≡ or_else
        (committed (apply_batch empty_engine three_ops fine).1 (last_op key_a three_ops))
        (read_newest empty_engine key_a)
read_newest-apply_batch_example =
    read_newest-apply_batch key_a empty_engine [] three_ops fine empty_engine-Refines (omega arith)
      (inl refl, (inl refl, (inl refl, tt))) fine-IsReady

batch_read : read_newest (apply_batch empty_engine three_ops fine).0 key_a ≡ some new_tombstone
unfolding last_op apply_batch rotate_when_full rotate_memtable apply_ops compare_bytes put_memtable
    Memtable.put make_internal_key big_endian
batch_read = read_newest-apply_batch_example

flush_immutables_drained_example :
    ((flush_immutables table_of one_write).immutables ≡ [])
    × (has_flush_space (flush_immutables table_of one_write) ≡ true)
flush_immutables_drained_example =
    flush_immutables_drained table_of (λ m. (_, refl)) one_write (omega (arith, one_write_state))
