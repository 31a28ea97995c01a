-- ===== src/Db/Engine/Isolation.antt =====
-- db/snapshot.go: what is read at a sequence number does not change with later writes.
use lithicdb.Common.{
  ℕ, ◌+◌, ◌^◌, ◌≤◌, ◌<◌, ◌≡◌, refl, ap, ◌∙◌, sym, if_both, true, List, [], ◌∷◌, arith, length, map,
}
use lithicdb.Common.Bytes.{Bytes, All}
use lithicdb.Kv.KeyOrder.{Comparable}
use lithicdb.Memtable.{value_of}
use lithicdb.Memtable.Log.{Write, newest_write}
use lithicdb.Db.Engine.{
  Engine, Calls, Status, done, blocked, wal_error, rotate_error, conflict, tx_closed, BatchOp,
  has_flush_space, apply_ops, rotate_memtable, rotate_when_full, put, delete, apply_batch, read_at,
  get_snapshot,
}
use lithicdb.Db.Engine.Log.{Refines, read_at_lem}
use lithicdb.Db.Engine.Batches.{batch_write, batch_log, apply_batch-Refines}
use lithicdb.Db.Engine.Writes.{IsReady, attempt, logged, put-Refines, delete-Refines}
use lithicdb.Db.Registry.{Registry}
use lithicdb.Db.Transaction.{
  Transaction, has_conflict, op_of, release, end_commit, apply_writes, is_empty, commit,
}

-- A call of a writer: Put, Delete, a batch, the commit of a transaction, or GetSnapshot.
pub data Command : Type 0 where
  puts : Bytes → Bytes → Calls → Command
  deletes : Bytes → Calls → Command
  batches : List BatchOp → Calls → Command
  commits : Transaction → Calls → Command
  snapshots : Command

unfoldable pub step : Engine → Command → Engine
step db (puts key value calls) = (put db key value calls).0
step db (deletes key calls) = (delete db key calls).0
step db (batches ops calls) = (apply_batch db ops calls).0
step db (commits tx calls) = (commit db tx calls).0.0
step db snapshots = (get_snapshot db).0

unfoldable pub run : Engine → List Command → Engine
run db [] = db
run db (c ∷ cs) = run (step db c) cs

-- The sequence numbers that a command takes at most.
unfoldable pub numbers : Command → ℕ
numbers (puts key value calls) = 1
numbers (deletes key calls) = 1
numbers (batches ops calls) = length ops
numbers (commits tx calls) = length (map op_of tx.writes)
numbers snapshots = 0

unfoldable pub all_numbers : List Command → ℕ
all_numbers [] = 0
all_numbers (c ∷ cs) = numbers c + all_numbers cs

-- The command's keys can stand beside `u`, and its calls succeed in creating files.
abbrev pub IsCommand : Bytes → Command → Type 0
IsCommand u (puts key value calls) = Comparable key u × IsReady calls
IsCommand u (deletes key calls) = Comparable key u × IsReady calls
IsCommand u (batches ops calls) = All (λ op. Comparable op.key u) ops × IsReady calls
IsCommand u (commits tx calls) =
    All (λ op. Comparable op.key u) (map op_of tx.writes) × IsReady calls
IsCommand u snapshots = Unit

-- At the numbers up to `n` the two logs say the same.
abbrev SameUpTo : Bytes → ℕ → List Write → List Write → Type 0
SameUpTo u n xs ys = (s : ℕ) → s ≤ n → newest_write u s xs ≡ newest_write u s ys

module _ (u : Bytes) where
  later_write : (n : ℕ) (w : Write) (log : List Write) → n < w.seq → SameUpTo u n (w ∷ log) log
  unfolding newest_write
  later_write n w log h s l = ground arith

  batch_log-SameUpTo :
      (n base i : ℕ) (ops : List BatchOp) (calls : Calls) (log : List Write)
      → n < base
      → SameUpTo u n (batch_log base i ops calls log) log
  unfolding batch_log
  batch_log-SameUpTo n base i [] calls log h s l = refl
  batch_log-SameUpTo n base i (op ∷ ops) calls log h s l =
      batch_log-SameUpTo n base (i + 1) ops calls (batch_write base i op calls ∷ log) h s l
      ∙ later_write n (batch_write base i op calls) log (omega arith) s l

  logged-SameUpTo :
      (n : ℕ) (st : Status) (new log : List Write)
      → SameUpTo u n new log
      → SameUpTo u n (logged st new log) log
  logged-SameUpTo n done new log h s l = h s l
  logged-SameUpTo n blocked new log h s l = refl
  logged-SameUpTo n wal_error new log h s l = refl
  logged-SameUpTo n rotate_error new log h s l = refl
  logged-SameUpTo n conflict new log h s l = refl
  logged-SameUpTo n tx_closed new log h s l = refl

pub rotate_when_full-next_seq :
    (db : Engine) (calls : Calls) → (rotate_when_full db calls).0.next_seq ≡ db.next_seq
unfolding rotate_when_full rotate_memtable
rotate_when_full-next_seq db calls = ground arith

pub apply_ops-next_seq :
    (ops : List BatchOp) (db : Engine) (base i : ℕ) (calls : Calls)
    → (apply_ops db base i ops calls).next_seq ≡ db.next_seq
unfolding apply_ops
apply_ops-next_seq [] db base i calls = refl
apply_ops-next_seq (op ∷ ops) db base i calls = apply_ops-next_seq ops _ base (i + 1) calls

pub attempt-next_seq :
    (db counted inserted : Engine) (calls : Calls) (k : ℕ)
    → counted.next_seq ≡ db.next_seq + k
    → inserted.next_seq ≡ db.next_seq + k
    → (db.next_seq ≤ (attempt db counted inserted calls).0.next_seq)
      × ((attempt db counted inserted calls).0.next_seq ≤ db.next_seq + k)
attempt-next_seq db counted inserted calls k hc hi =
    if_both Between (has_flush_space db)
      (if_both Between calls.wal_write (ground (arith, rotate_when_full-next_seq inserted calls))
        (omega arith))
      (omega arith)
  where
    Between : Engine × Status → Type 0
    Between d = (db.next_seq ≤ d.0.next_seq) × (d.0.next_seq ≤ db.next_seq + k)

-- What a commit does to the engine: nothing but the close of its snapshot, or the batch of its writes
-- as well.
release-next_seq : (db : Engine) (tx : Transaction) → (release db tx).0.next_seq ≡ db.next_seq
unfolding release
release-next_seq db tx = refl

end_commit-next_seq :
    (db : Engine) (tx : Transaction) (st : Status)
    → (end_commit db tx st).0.0.next_seq ≡ db.next_seq
unfolding end_commit release
end_commit-next_seq db tx done = refl
end_commit-next_seq db tx blocked = refl
end_commit-next_seq db tx wal_error = refl
end_commit-next_seq db tx rotate_error = refl
end_commit-next_seq db tx conflict = refl
end_commit-next_seq db tx tx_closed = refl

apply_batch-next_seq :
    (db : Engine) (ops : List BatchOp) (calls : Calls)
    → db.next_seq + length ops < 2 ^ 64
    → (db.next_seq ≤ (apply_batch db ops calls).0.next_seq)
      × ((apply_batch db ops calls).0.next_seq ≤ db.next_seq + length ops)
unfolding apply_batch
apply_batch-next_seq db ops calls h =
    attempt-next_seq db _ _ calls (length ops) (omega arith)
      (apply_ops-next_seq ops _ _ 0 calls ∙ omega arith)

commit-next_seq :
    (db : Engine) (tx : Transaction) (calls : Calls)
    → db.next_seq + length (map op_of tx.writes) < 2 ^ 64
    → (db.next_seq ≤ (commit db tx calls).0.0.next_seq)
      × ((commit db tx calls).0.0.next_seq ≤ db.next_seq + length (map op_of tx.writes))
unfolding commit apply_writes
commit-next_seq db tx calls h =
    let ops = map op_of tx.writes in
    let (low, high) = apply_batch-next_seq db ops calls h in
    let ended : Transaction = record tx { closed = true } in
    if_both Between tx.closed (omega arith) (
      if_both Between (is_empty tx.writes) (omega (arith, release-next_seq db ended)) (
        if_both Between (has_conflict db tx.snapshot.seq tx.writes)
          (omega (arith, release-next_seq db ended))
          (omega (
            arith,
            low,
            high,
            end_commit-next_seq (apply_batch db ops calls).0 ended (apply_batch db ops calls).1,
          ))))
  where
    Between : (Engine × Transaction) × Status → Type 0
    Between d =
        (db.next_seq ≤ d.0.0.next_seq)
        × (d.0.0.next_seq ≤ db.next_seq + length (map op_of tx.writes))

step-next_seq :
    (db : Engine) (c : Command)
    → db.next_seq + numbers c < 2 ^ 64
    → (db.next_seq ≤ (step db c).next_seq) × ((step db c).next_seq ≤ db.next_seq + numbers c)
unfolding step numbers put delete get_snapshot
step-next_seq db (puts key value calls) h =
    attempt-next_seq db _ _ calls 1 (omega arith) (omega arith)
step-next_seq db (deletes key calls) h = attempt-next_seq db _ _ calls 1 (omega arith) (omega arith)
step-next_seq db (batches ops calls) h = apply_batch-next_seq db ops calls h
step-next_seq db (commits tx calls) h = commit-next_seq db tx calls h
step-next_seq db snapshots h = omega arith

-- A log with the same past that an engine refines.
abbrev Keeps : Bytes → Engine → Engine → List Write → Type 0
Keeps u db after log = (log' : List Write) × Refines u after log' × SameUpTo u db.next_seq log' log

module _ (u : Bytes) where
  -- The open snapshots are no part of what is stored.
  other_snapshots :
      (db : Engine) (log : List Write) (seqs : Registry)
      → Refines u db log
      → Refines u (record db { snapshots = seqs }) log
  other_snapshots db log seqs r = record {
    in_memory = r.in_memory;
    on_disk = r.on_disk;
    memtables = r.memtables;
    tables = r.tables;
    stacked = r.stacked;
    is_log = r.is_log;
    numbered = r.numbered;
  }

  release-Refines :
      (db : Engine) (log : List Write) (tx : Transaction)
      → Refines u db log
      → Refines u (release db tx).0 log
  unfolding release
  release-Refines db log tx r = other_snapshots db log _ r

  end_commit-Refines :
      (db : Engine) (log : List Write) (tx : Transaction) (st : Status)
      → Refines u db log
      → Refines u (end_commit db tx st).0.0 log
  unfolding end_commit
  end_commit-Refines db log tx done r = release-Refines db log tx r
  end_commit-Refines db log tx blocked r = r
  end_commit-Refines db log tx wal_error r = release-Refines db log tx r
  end_commit-Refines db log tx rotate_error r = release-Refines db log tx r
  end_commit-Refines db log tx conflict r = release-Refines db log tx r
  end_commit-Refines db log tx tx_closed r = release-Refines db log tx r

  apply_batch-Keeps :
      (db : Engine) (log : List Write) (ops : List BatchOp) (calls : Calls)
      → Refines u db log
      → All (λ op. Comparable op.key u) ops
      → IsReady calls
      → db.next_seq + length ops + 1 < 2 ^ 64
      → Keeps u db (apply_batch db ops calls).0 log
  apply_batch-Keeps db log ops calls r ks ready h = (
    _,
    apply_batch-Refines u db log ops calls r (omega arith) ks ready,
    logged-SameUpTo u db.next_seq (apply_batch db ops calls).1 _ log
        (batch_log-SameUpTo u db.next_seq (db.next_seq + 1) 0 ops calls log (omega arith)),
  )

  commit-Keeps :
      (db : Engine) (log : List Write) (tx : Transaction) (calls : Calls)
      → Refines u db log
      → All (λ op. Comparable op.key u) (map op_of tx.writes)
      → IsReady calls
      → db.next_seq + length (map op_of tx.writes) + 1 < 2 ^ 64
      → Keeps u db (commit db tx calls).0.0 log
  unfolding commit apply_writes
  commit-Keeps db log tx calls r ks ready h =
      let ops = map op_of tx.writes in
      let ended : Transaction = record tx { closed = true } in
      let released : Keeps u db (release db ended).0 log =
        (log, release-Refines db log ended r, λ s l. refl) in
      let (log', r', same) = apply_batch-Keeps db log ops calls r ks ready h in
      if_both Kept tx.closed (log, r, λ s l. refl)
        (if_both Kept (is_empty tx.writes) released (
          if_both Kept (has_conflict db tx.snapshot.seq tx.writes) released (
            log',
            end_commit-Refines (apply_batch db ops calls).0 log' ended (apply_batch db ops calls).1
                r',
            same,
          )))
    where
      Kept : (Engine × Transaction) × Status → Type 0
      Kept d = Keeps u db d.0.0 log

  -- A command leaves an engine that refines a log with the same past.
  step-Refines :
      (db : Engine) (log : List Write) (c : Command)
      → Refines u db log
      → IsCommand u c
      → db.next_seq + numbers c + 1 < 2 ^ 64
      → Keeps u db (step db c) log
  unfolding step numbers get_snapshot
  step-Refines db log (puts key value calls) r (k, ready) h = (
    _,
    put-Refines u db log r (omega arith) key value calls k ready,
    logged-SameUpTo u db.next_seq (put db key value calls).1 _ log
        (later_write u db.next_seq _ log (omega arith)),
  )
  step-Refines db log (deletes key calls) r (k, ready) h = (
    _,
    delete-Refines u db log r (omega arith) key calls k ready,
    logged-SameUpTo u db.next_seq (delete db key calls).1 _ log
        (later_write u db.next_seq _ log (omega arith)),
  )
  step-Refines db log (batches ops calls) r (ks, ready) h =
      apply_batch-Keeps db log ops calls r ks ready h
  step-Refines db log (commits tx calls) r (ks, ready) h = commit-Keeps db log tx calls r ks ready h
  step-Refines db log snapshots r k h = (log, other_snapshots db log _ r, λ s l. refl)

  -- Writers do not change the past: over any sequence of Put, Delete, batches, commits of transactions
  -- and GetSnapshot, with the rotations that they cause, each call made whole before the next, a read
  -- of a key at a number that was current before them answers the same after them. The layers hold a
  -- log at the start, the keys written can stand beside the one read, WAL files can be created, and the
  -- sequence numbers last. Flushes and compactions are not among the commands.
  pub read_at-run :
      (cs : List Command) (db : Engine) (log : List Write) (s : ℕ)
      → Refines u db log
      → All (IsCommand u) cs
      → db.next_seq + all_numbers cs + 1 < 2 ^ 64
      → s ≤ db.next_seq
      → read_at (run db cs) u s ≡ read_at db u s
  unfolding run all_numbers
  read_at-run [] db log s r ks h l = refl
  read_at-run (c ∷ cs) db log s r ks h l =
      let (log', r', same) = step-Refines db log c r ks.0 (omega arith) in
      let (low, high) = step-next_seq db c (omega arith) in
      read_at-run cs (step db c) log' s r' ks.1 (omega arith) (omega arith)
      ∙ read_at_lem u (step db c) log' s r'
      ∙ ap value_of (same s l)
      ∙ sym (read_at_lem u db log s r)
