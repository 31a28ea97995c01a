-- ===== src/Db/Transaction.antt =====
-- db/transaction.go: buffered writes over a snapshot, and the commit with its conflict check. The
-- map of writes is a list in the order in which the map is walked.
pub mod Conflicts
pub mod Commit
pub mod Waiting
mod Runs
use lithicdb.Common.{
  ℕ, ◌+◌, Bool, true, false, Option, none, some, List, [], ◌∷◌, ltb, if◌then◌else◌, ◌||◌, map,
}
use lithicdb.Common.Bytes.{Bytes, bytes_eq}
use lithicdb.Kv.{Value, new_value, new_tombstone}
use lithicdb.Memtable.{Memtable, get_newest}
use lithicdb.Db.Registry
use lithicdb.Db.Engine.{
  Engine, Calls, Status, done, blocked, conflict, tx_closed, BatchOp, read_at, get_snapshot,
  apply_batch,
}

abbrev pub Writes : Type 0
Writes = List (Bytes × Value)

pub record Transaction : Type 0 where
  pub snapshot : Registry.Snapshot
  pub writes : Writes
  pub closed : Bool

unfoldable pub find_write : Writes → Bytes → Option Value
find_write [] key = none
find_write ((k, v) ∷ ws) key = if bytes_eq k key then some v else find_write ws key

-- The assignment to the map.
unfoldable pub assign : Writes → Bytes → Value → Writes
assign [] key v = (key, v) ∷ []
assign ((k, w) ∷ ws) key v = if bytes_eq k key then (k, v) ∷ ws else (k, w) ∷ assign ws key v

unfoldable pub begin_transaction : Engine → Engine × Transaction
begin_transaction db =
    let (db', snapshot) = get_snapshot db in
    (db', record { snapshot = snapshot; writes = []; closed = false })

-- `none` is the answer `false`: a buffered deletion is reported as missing.
abbrev pub buffered : Option Value → Option Value → Option Value
buffered none read = read
buffered (some v) read = if v.tombstone then none else some v

unfoldable pub get : Engine → Transaction → Bytes → Option Value
get db tx key = buffered (find_write tx.writes key) (read_at db key tx.snapshot.seq)

unfoldable pub put : Transaction → Bytes → Bytes → Transaction × Status
put tx key value =
    if tx.closed
    then (tx, tx_closed)
    else (record tx { writes = assign tx.writes key (new_value value) }, done)

unfoldable pub delete : Transaction → Bytes → Transaction × Status
delete tx key =
    if tx.closed
    then (tx, tx_closed)
    else (record tx { writes = assign tx.writes key new_tombstone }, done)

abbrev pub later_than : ℕ → Option (Value × ℕ) → Bool
later_than seq none = false
later_than seq (some (v, s)) = ltb seq s

unfoldable pub any_newest : List Memtable → Bytes → ℕ → Bool
any_newest [] key seq = false
any_newest (m ∷ ms) key seq = later_than seq (get_newest m.sl key) || any_newest ms key seq

-- `checkConflicts`: whether it returns ErrConflict.
unfoldable pub has_conflict : Engine → ℕ → Writes → Bool
has_conflict db seq [] = false
has_conflict db seq ((k, v) ∷ ws) =
    any_newest (db.active ∷ db.immutables) k seq || has_conflict db seq ws

abbrev pub op_of : Bytes × Value → BatchOp
op_of (k, v) = record { key = k; value = v.bytes; tombstone = v.tombstone }

-- The deferred `snapshot.Close`.
unfoldable pub release : Engine → Transaction → Engine × Transaction
release db tx =
    let (seqs, snapshot) = Registry.close db.snapshots tx.snapshot in
    (record db { snapshots = seqs }, record tx { snapshot = snapshot })

-- The deferred close runs when Commit returns.
unfoldable pub end_commit : Engine → Transaction → Status → (Engine × Transaction) × Status
end_commit db tx blocked = ((db, tx), blocked)
end_commit db tx st = (release db tx, st)

-- A commit that must wait for a flush is `blocked`: its check is done and the lock given up. When it
-- is woken it goes on here, and checks nothing again.
unfoldable pub apply_writes : Engine → Transaction → Calls → (Engine × Transaction) × Status
apply_writes db tx calls =
    let (db', st) = apply_batch db (map op_of tx.writes) calls in end_commit db' tx st

unfoldable pub is_empty : Writes → Bool
is_empty [] = true
is_empty (w ∷ ws) = false

unfoldable pub commit : Engine → Transaction → Calls → (Engine × Transaction) × Status
commit db tx calls =
    let ended : Transaction = record tx { closed = true } in
    if tx.closed
    then ((db, tx), tx_closed)
    else if is_empty tx.writes
    then (release db ended, done)
    else if has_conflict db tx.snapshot.seq tx.writes
    then (release db ended, conflict)
    else apply_writes db ended calls

unfoldable pub rollback : Engine → Transaction → Engine × Transaction
rollback db tx =
    if tx.closed
    then (db, tx)
    else (let (db', tx') = release db (record tx { closed = true }) in
        (db', record tx' { writes = [] }))
