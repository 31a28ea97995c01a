-- ===== src/Db/Transaction/Waiting.antt =====
-- db/transaction.go and db/write.go: a commit that waits for a flush has its check behind it.
use mathlib.Core.List.{flatten}
use lithicdb.Common.{
  ℕ, ◌+◌, ◌%◌, ◌^◌, ◌<◌, ◌≤◌, ◌≡◌, refl, ap, ◌∙◌, Bool, true, false, Bool-cases, inl, inr, Option,
  some, List, [], ◌∷◌, arith, map, length, leb, ◌||◌,
}
use lithicdb.Common.Bytes.{Bytes, All, bytes_eq, compare_bytes_refl}
use lithicdb.Common.Names.{eq_of_bytes_eq}
use lithicdb.Kv.{Value, new_value, make_internal_key}
use lithicdb.Kv.KeyOrder.{Comparable}
use lithicdb.Memtable.{Memtable, new_memtable, freeze, get_newest}
use lithicdb.Memtable
use lithicdb.Memtable.Log.{Write, written, IsWrite}
use lithicdb.Db.Engine.{
  Engine, Table, Calls, done, blocked, conflict, or_else, has_flush_space, insert_version,
  apply_batch, rotate_when_full, rotate_memtable, put, read_newest, BatchOp,
}
use lithicdb.Db.Engine.Tables.{Memtables}
use lithicdb.Db.Engine.Log.{Refines}
use lithicdb.Db.Engine.Writes.{IsReady, put-Refines}
use lithicdb.Db.Engine.Fresh.{committed}
use lithicdb.Db.Engine.Flush.{flush_immutables}
use lithicdb.Db.Transaction.{
  Transaction, Writes, find_write, any_newest, has_conflict, op_of, end_commit, apply_writes,
  is_empty, commit,
}
use lithicdb.Db.Transaction.Conflicts.{any_later, any_newest-any_later}
use lithicdb.Db.Transaction.Commit.{IsWriteSet, apply_writes_atomic, end_commit-status}

apply_batch-done :
    (db : Engine) (ops : List BatchOp) (calls : Calls)
    → has_flush_space db ≡ true
    → calls.wal_write ≡ true
    → calls.wal_create ≡ true
    → (apply_batch db ops calls).1 ≡ done
unfolding apply_batch rotate_when_full rotate_memtable
apply_batch-done db ops calls s w c = ground (arith, s, w, c)

abbrev memtables_of : Engine → List Memtable
memtables_of db = db.active ∷ db.immutables

or_right : (a b : Bool) → b ≡ true → (a || b) ≡ true
or_right a b h = ground (arith, h)

-- A version that was inserted is found by the check, also after a rotation.
module _ (u : Bytes) (s : ℕ) where
  inserted_found :
      (db : Engine) (w : Write) (mem : List (List Write))
      → Memtables u (memtables_of db) mem
      → IsWrite u w
      → bytes_eq w.key u ≡ true
      → s < w.seq
      → any_newest (memtables_of (insert_version db w.key w.seq w.value w.height)) u s ≡ true
  unfolding Memtables written Memtable.put_memtable any_later flatten
  inserted_found db w [] ms good e h = absurd ms
  inserted_found db w (ws ∷ wss) ms good e h =
      any_newest-any_later u s (memtables_of (insert_version db w.key w.seq w.value w.height))
        ((w ∷ ws) ∷ wss)
        (
          ap (λ sl. Memtable.put sl (make_internal_key w.key w.seq) w.value w.height) ms.0,
          (good, ms.1),
          ms.2,
        )
      ∙ ground (arith, e, h)

  rotated_found :
      (db : Engine) (calls : Calls)
      → calls.wal_create ≡ true
      → any_newest (memtables_of db) u s ≡ true
      → any_newest (memtables_of (rotate_when_full db calls).0) u s ≡ true
  unfolding rotate_when_full rotate_memtable any_newest freeze
  rotated_found db calls c h =
      elim (Bool-cases (leb db.opts.memtable_size (db.active).sl.data_size)) [
        | inl full ↦ rw (full, c) (or_right _ _ h)
        | inr e ↦ rw e h
      ]

  conflict_found :
      (db : Engine) (ws : Writes) (v : Value)
      → find_write ws u ≡ some v
      → any_newest (memtables_of db) u s ≡ true
      → has_conflict db s ws ≡ true
  unfolding find_write has_conflict
  conflict_found db [] v f h = cc
  conflict_found db ((k, w) ∷ ws) v f h = elim (Bool-cases (bytes_eq k u)) [
    | inl e ↦
        let here : any_newest (memtables_of db) k s ≡ true =
          ap (λ x. any_newest (memtables_of db) x s) (eq_of_bytes_eq k u e) ∙ h in
        ground (arith, here)
    | inr e ↦ let rest = conflict_found db ws v (ground (arith, f, e)) h in ground (arith, rest)
  ]

  put_found :
      (db : Engine) (log : List Write) (value : Bytes) (calls : Calls)
      → Refines u db log
      → db.next_seq + 1 < 2 ^ 64
      → s ≤ db.next_seq
      → Comparable u u
      → IsReady calls
      → has_flush_space db ≡ true
      → calls.wal_write ≡ true
      → any_newest (memtables_of (put db u value calls).0) u s ≡ true
  unfolding put rotate_when_full rotate_memtable
  put_found db log value calls r room h apart ready space wal =
      let next : (db.next_seq + 1) % 2 ^ 64 ≡ db.next_seq + 1 = omega (arith, room) in
      let same : bytes_eq u u ≡ true = ground (arith, compare_bytes_refl u) in
      rw (space, wal, next)
        (rotated_found _ calls ready.creates (
          inserted_found (record db { next_seq = db.next_seq + 1 })
            (record {
              key = u;
              seq = db.next_seq + 1;
              value = new_value value;
              height = calls.height 0;
            })
            r.in_memory r.memtables
            (record { bounded = room; apart = apart; linked = ready.tall 0 }) same
            (omega (arith, h))))

put-done :
    (db : Engine) (key value : Bytes) (calls : Calls)
    → has_flush_space db ≡ true
    → calls.wal_write ≡ true
    → calls.wal_create ≡ true
    → (put db key value calls).1 ≡ done
unfolding put rotate_when_full rotate_memtable
put-done db key value calls s w c = ground (arith, s, w, c)

put-next_seq :
    (db : Engine) (key value : Bytes) (calls : Calls)
    → db.next_seq + 1 < 2 ^ 64
    → (put db key value calls).0.next_seq ≤ db.next_seq + 1
unfolding put rotate_when_full rotate_memtable
put-next_seq db key value calls h = ground arith

abbrev pub ended : Transaction → Transaction
ended tx = record tx { closed = true }

-- The engine when the flush is done and another writer has put a key.
abbrev pub overtaken : (Memtable → Option Table) → Engine → Bytes → Bytes → Calls → Engine
overtaken build db u value other = (put (flush_immutables build db) u value other).0

commit_blocks :
    (db : Engine) (tx : Transaction) (calls : Calls)
    → tx.closed ≡ false
    → is_empty tx.writes ≡ false
    → has_conflict db tx.snapshot.seq tx.writes ≡ false
    → has_flush_space db ≡ false
    → commit db tx calls ≡ ((db, ended tx), blocked)
unfolding commit apply_writes apply_batch end_commit
commit_blocks db tx calls o e n full = rw (o, e, n, full) refl

commit_conflicts :
    (db : Engine) (tx : Transaction) (calls : Calls)
    → tx.closed ≡ false
    → is_empty tx.writes ≡ false
    → has_conflict db tx.snapshot.seq tx.writes ≡ true
    → (commit db tx calls).1 ≡ conflict
unfolding commit
commit_conflicts db tx calls o e n = rw (o, e, n) refl

apply_writes-done :
    (db : Engine) (tx : Transaction) (calls : Calls)
    → has_flush_space db ≡ true
    → calls.wal_write ≡ true
    → calls.wal_create ≡ true
    → (apply_writes db tx calls).1 ≡ done
unfolding apply_writes
apply_writes-done db tx calls s w c =
    end_commit-status (apply_batch db (map op_of tx.writes) calls).0 tx
      (apply_batch db (map op_of tx.writes) calls).1
    ∙ apply_batch-done db (map op_of tx.writes) calls s w c

module _ (u : Bytes) (v : Value) (db : Engine) (log : List Write) (tx : Transaction) (calls : Calls)
    (r : Refines u db log) (good : IsWriteSet tx.writes)
    (room : db.next_seq + length (map op_of tx.writes) + 1 < 2 ^ 64)
    (apart : All (λ op. Comparable op.key u) (map op_of tx.writes)) (ready : IsReady calls) where
  resumed_read :
      find_write tx.writes u ≡ some v
      → has_flush_space db ≡ true
      → calls.wal_write ≡ true
      → read_newest (apply_writes db (ended tx) calls).0.0 u ≡ some v
  resumed_read f space wal =
      apply_writes_atomic u db log tx calls r good room apart ready
      ∙ ap (λ st. or_else (committed st (find_write tx.writes u)) (read_newest db u))
          (apply_writes-done db (ended tx) calls space wal ready.creates)
      ∙ ap (λ o. or_else o (read_newest db u)) f

-- A commit finds no conflict and must wait for the flush. The flush makes room, and another writer
-- puts a key that the transaction has buffered. Then a commit of the transaction that started now
-- would report the conflict, but the one that waits goes on and succeeds, and the other's write is
-- overwritten. This is for an engine whose layers hold a log when the flush is done, a buffer that Put
-- and Delete made whose keys can stand beside the one put, a snapshot that is not from the future, a
-- WAL that can be written and rotated, sequence numbers that last, and room that the Put does not use
-- up.
pub waiting_commit_overwrites :
    (u value : Bytes) (v : Value) (db : Engine) (build : Memtable → Option Table) (log : List Write)
    (tx : Transaction) (other calls : Calls)
    → tx.closed ≡ false
    → is_empty tx.writes ≡ false
    → has_conflict db tx.snapshot.seq tx.writes ≡ false
    → has_flush_space db ≡ false
    → Refines u (flush_immutables build db) log
    → tx.snapshot.seq ≤ (flush_immutables build db).next_seq
    → find_write tx.writes u ≡ some v
    → IsWriteSet tx.writes
    → All (λ op. Comparable op.key u) (map op_of tx.writes)
    → (flush_immutables build db).next_seq + length (map op_of tx.writes) + 2 < 2 ^ 64
    → IsReady other
    → IsReady calls
    → other.wal_write ≡ true
    → calls.wal_write ≡ true
    → has_flush_space (flush_immutables build db) ≡ true
    → has_flush_space (overtaken build db u value other) ≡ true
    → (commit db tx calls ≡ ((db, ended tx), blocked))
      × ((put (flush_immutables build db) u value other).1 ≡ done)
      × ((commit (overtaken build db u value other) tx calls).1 ≡ conflict)
      × ((apply_writes (overtaken build db u value other) (ended tx) calls).1 ≡ done)
      × (read_newest (apply_writes (overtaken build db u value other) (ended tx) calls).0.0 u
          ≡ some v)
waiting_commit_overwrites u value v db build log tx other calls o e n full r h f good apart room ro
      rc wo wc sw sl =
    let woken = flush_immutables build db in
    let later = overtaken build db u value other in
    let self : Comparable u u = inl refl in
    let found =
      put_found u tx.snapshot.seq woken log value other r (omega (arith, room)) h self ro sw wo in
    let last : later.next_seq + length (map op_of tx.writes) + 1 < 2 ^ 64 =
      omega (arith, room, put-next_seq woken u value other (omega (arith, room))) in
    (
      commit_blocks db tx calls o e n full,
      put-done woken u value other sw wo ro.creates,
      commit_conflicts later tx calls o e
          (conflict_found u tx.snapshot.seq later tx.writes v f found),
      apply_writes-done later (ended tx) calls sl wc rc.creates,
      resumed_read u v later _ tx calls
          (put-Refines u woken log r (omega (arith, room)) u value other self ro) good last apart rc
          f sl wc,
    )
