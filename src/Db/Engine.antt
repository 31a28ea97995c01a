-- ===== src/Db/Engine.antt =====
-- db/db.go, db/read.go, db/write.go, db/batch.go and db/snapshot.go: the engine's state in memory and
-- its reads and writes. A table on disk is known by what its reader answers; `Calls` has what the
-- operating system answers and the heights that the skip list draws.
pub mod Tables
pub mod Log
pub mod Writes
pub mod Batches
pub mod Flush
pub mod Isolation
pub mod Fresh
pub mod Drain
pub mod Sample
mod Runs
use lithicdb.Common.{
  ℕ, zero, suc, ◌+◌, ◌-◌, ◌%◌, ◌^◌, Bool, true, false, Option, none, some, List, [], ◌∷◌, length,
  leb, if◌then◌else◌,
}
use lithicdb.Common.Bytes.{Bytes}
use lithicdb.Kv.{Value, new_value, new_tombstone, make_internal_key}
use lithicdb.Memtable.{Memtable, new_memtable, freeze, put_memtable, get_at}
use lithicdb.Db.Registry.{Registry, register}
use lithicdb.Db.Registry

-- What `Reader.GetAt` returns.
pub data Read : Type 0 where
  failed absent : Read
  found : Value → Read

-- An open SSTable.
pub record Table : Type 0 where
  pub id : ℕ
  pub may_contain : Bytes → Bool
  pub get_at : Bytes → ℕ → Read

pub record Options : Type 0 where
  pub memtable_size : ℕ
  pub max_immutable_count : ℕ

pub record Engine : Type 0 where
  pub opts : Options
  pub active : Memtable
  pub immutables : List Memtable
  pub l0 : List Table
  pub levels : List (List Table)
  pub next_mem_id : ℕ
  pub next_seq : ℕ
  pub snapshots : Registry

-- Whether the WAL write and the creation of the next WAL file succeed, and the height of each node.
pub record Calls : Type 0 where
  pub wal_write : Bool
  pub wal_create : Bool
  pub height : ℕ → ℕ

-- A writer that must wait for a flush is `blocked`: it has changed nothing and tries again.
pub data Status : Type 0 where
  done blocked wal_error rotate_error conflict tx_closed : Status

abbrev pub or_else {ℓ} : {A : Type ℓ} → Option A → Option A → Option A
or_else none rest = rest
or_else (some a) rest = some a

unfoldable pub read_memtables : List Memtable → Bytes → ℕ → Option Value
read_memtables [] key max_seq = none
read_memtables (m ∷ ms) key max_seq =
    or_else (get_at m.sl key max_seq) (read_memtables ms key max_seq)

-- A table that fails is skipped.
abbrev pub answer : Read → Option Value → Option Value
answer failed rest = rest
answer absent rest = rest
answer (found v) rest = some v

unfoldable pub read_tables : List Table → Bytes → ℕ → Option Value
read_tables [] key max_seq = none
read_tables (t ∷ ts) key max_seq =
    let rest = read_tables ts key max_seq in
    if t.may_contain key then answer (t.get_at key max_seq) rest else rest

unfoldable pub read_levels : List (List Table) → Bytes → ℕ → Option Value
read_levels [] key max_seq = none
read_levels (level ∷ levels) key max_seq =
    or_else (read_tables level key max_seq) (read_levels levels key max_seq)

-- `levels[1:]`: level 0 stands in `l0`.
abbrev pub below_l0 : List (List Table) → List (List Table)
below_l0 [] = []
below_l0 (level ∷ levels) = levels

-- Active, immutables, L0, then the levels below.
unfoldable pub read_at : Engine → Bytes → ℕ → Option Value
read_at db key max_seq = or_else (get_at (db.active).sl key max_seq) (
    or_else (read_memtables db.immutables key max_seq)
      (or_else (read_tables db.l0 key max_seq) (read_levels (below_l0 db.levels) key max_seq)))

unfoldable pub read_newest : Engine → Bytes → Option Value
read_newest db key = read_at db key db.next_seq

-- The number is read without the lock, but a snapshot that is taken while a Put holds it reads nothing
-- before that Put is done: every read waits for the lock.
unfoldable pub get_snapshot : Engine → Engine × Registry.Snapshot
get_snapshot db = (
  record db { snapshots = register db.snapshots db.next_seq },
  record { seq = db.next_seq; closed = false },
)

-- The file is created first; the number is used up either way.
unfoldable pub rotate_memtable : Engine → Calls → Engine × Status
rotate_memtable db calls =
    let id = (db.next_mem_id + 1) % 2 ^ 64 in
    let frozen = freeze db.active in
    let rotated : Engine = record db {
      active = frozen;
      immutables = frozen ∷ db.immutables;
      next_mem_id = id;
    } in
    if calls.wal_create
    then (record rotated { active = new_memtable id }, done)
    else (rotated, rotate_error)

unfoldable pub rotate_when_full : Engine → Calls → Engine × Status
rotate_when_full db calls =
    if leb db.opts.memtable_size (db.active).sl.data_size
    then rotate_memtable db calls
    else (db, done)

-- A batch operation.
pub record BatchOp : Type 0 where
  pub key : Bytes
  pub value : Bytes
  pub tombstone : Bool

abbrev pub value_of_op : BatchOp → Value
value_of_op op = if op.tombstone then new_tombstone else new_value op.value

abbrev pub insert_version : Engine → Bytes → ℕ → Value → ℕ → Engine
insert_version db key seq value h = record db {
  active = put_memtable db.active (make_internal_key key seq) value h;
}

-- The loop over the operations from number `i` on.
unfoldable pub apply_ops : Engine → ℕ → ℕ → List BatchOp → Calls → Engine
apply_ops db base i [] calls = db
apply_ops db base i (op ∷ ops) calls =
    apply_ops (insert_version db op.key ((base + i) % 2 ^ 64) (value_of_op op) (calls.height i))
      base (i + 1) ops calls

-- Room for one more immutable memtable.
abbrev pub has_flush_space : Engine → Bool
has_flush_space db = if leb db.opts.max_immutable_count (length db.immutables) then false else true

unfoldable pub put : Engine → Bytes → Bytes → Calls → Engine × Status
put db key value calls =
    let seq = (db.next_seq + 1) % 2 ^ 64 in
    let counted : Engine = record db { next_seq = seq } in
    if has_flush_space db
    then (if calls.wal_write
        then rotate_when_full (insert_version counted key seq (new_value value) (calls.height 0))
            calls
        else (counted, wal_error))
    else (db, blocked)

unfoldable pub delete : Engine → Bytes → Calls → Engine × Status
delete db key calls =
    let seq = (db.next_seq + 1) % 2 ^ 64 in
    let counted : Engine = record db { next_seq = seq } in
    if has_flush_space db
    then (if calls.wal_write
        then rotate_when_full (insert_version counted key seq new_tombstone (calls.height 0)) calls
        else (counted, wal_error))
    else (db, blocked)

-- `applyBatchLocked`.
unfoldable pub apply_batch : Engine → List BatchOp → Calls → Engine × Status
apply_batch db ops calls =
    let next = (db.next_seq + length ops) % 2 ^ 64 in
    let base = (next + 2 ^ 64 - length ops + 1) % 2 ^ 64 in
    let counted : Engine = record db { next_seq = next } in
    if has_flush_space db
    then (if calls.wal_write
        then rotate_when_full (apply_ops counted base 0 ops calls) calls
        else (counted, wal_error))
    else (db, blocked)
