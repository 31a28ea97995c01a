-- ===== src/Db/Engine/Sample.antt =====
-- db: a concrete engine, for the runs.
use mathlib.Core.List.{flatten}
use lithicdb.Common.{◌≡◌, refl, inl, true, Option, none, some, List, [], ◌∷◌, arith}
use lithicdb.Common.Bytes.{Bytes}
use lithicdb.Common.Names.{keep}
use lithicdb.Kv.{Value, new_value}
use lithicdb.Memtable.{Memtable, new_memtable, get_at}
use lithicdb.Memtable.Log.{Write, written}
use lithicdb.Db.Engine.{Read, absent, found, Table, Engine, Calls, answer, put, read_tables}
use lithicdb.Db.Engine.Tables.{Stacked, Memtables, Tables}
use lithicdb.Db.Engine.Log.{Refines}
use lithicdb.Db.Engine.Writes.{IsReady, logged, put-Refines}
use lithicdb.Db.Engine.Flush.{ServesAs}

abbrev pub key_a : Bytes
key_a = b'a' ∷ []

abbrev pub key_b : Bytes
key_b = b'b' ∷ []

-- Each write fills the memtable, and one immutable memtable may wait.
abbrev pub empty_engine : Engine
empty_engine = record {
  opts = record { memtable_size = 1; max_immutable_count = 1 };
  active = new_memtable 1;
  immutables = [];
  l0 = [];
  levels = [] ∷ [] ∷ [];
  next_mem_id = 1;
  next_seq = 0;
  snapshots = [];
}

abbrev pub fine : Calls
fine = record { wal_write = true; wal_create = true; height = λ i. 1 }

abbrev pub fine-IsReady : IsReady fine
fine-IsReady = record { creates = refl; tall = λ i. omega arith }

abbrev read_of : Option Value → Read
read_of none = absent
read_of (some v) = found v

-- A table that answers as the memtable it was built from.
abbrev pub table_of : Memtable → Option Table
table_of m =
    some (record {
      id = m.id;
      may_contain = λ key. true;
      get_at = λ key s. read_of (get_at m.sl key s);
    })

answer-read_of : (o : Option Value) → answer (read_of o) none ≡ o
answer-read_of none = refl
answer-read_of (some v) = refl

pub table_of-ServesAs : (u : Bytes) (m : Memtable) → ServesAs u m (table_of m)
unfolding read_tables
table_of-ServesAs u m s = answer-read_of (get_at m.sl u s)

pub empty_engine-Refines : Refines key_a empty_engine []
unfolding flatten keep Memtables written Tables Stacked
empty_engine-Refines = record {
  in_memory = [] ∷ [];
  on_disk = [];
  memtables = (refl, tt, tt);
  tables = tt;
  stacked = (tt, tt);
  is_log = refl;
  numbered = tt;
}

-- `a` is written, and its memtable is full.
abbrev pub one_write : Engine
one_write = (put empty_engine key_a key_b fine).0

abbrev pub one_log : List Write
one_log =
    logged (put empty_engine key_a key_b fine).1
      ((record { key = key_a; seq = 1; value = new_value key_b; height = 1 }) ∷ []) []

pub one_write-Refines : Refines key_a one_write one_log
one_write-Refines =
    put-Refines key_a empty_engine [] empty_engine-Refines (omega arith) key_a key_b fine (inl refl)
      fine-IsReady
