-- ===== src/Db/Engine/Batches.antt =====
-- db/batch.go: a batch extends the log with its operations, each under a number of its own.
use lithicdb.Common.{ℕ, ◌+◌, ◌-◌, ◌%◌, ◌^◌, ◌≤◌, ◌<◌, ◌≡◌, List, [], ◌∷◌, arith, length}
use lithicdb.Common.Bytes.{Bytes, All}
use lithicdb.Common.Names.{All-map}
use lithicdb.Kv.KeyOrder.{Comparable}
use lithicdb.Memtable.Log.{Write}
use lithicdb.Db.Engine.{Engine, Calls, BatchOp, value_of_op, apply_ops, apply_batch}
use lithicdb.Db.Engine.Log.{Refines}
use lithicdb.Db.Engine.Writes.{IsReady, logged, counted-Refines, insert_version-Refines, write_path}

abbrev pub batch_write : ℕ → ℕ → BatchOp → Calls → Write
batch_write base i op calls = record {
  key = op.key;
  seq = base + i;
  value = value_of_op op;
  height = calls.height i;
}

-- The log after a batch: each operation under its own number, the last one first.
unfoldable pub batch_log : ℕ → ℕ → List BatchOp → Calls → List Write → List Write
batch_log base i [] calls log = log
batch_log base i (op ∷ ops) calls log =
    batch_log base (i + 1) ops calls (batch_write base i op calls ∷ log)

module _ (u : Bytes) where
  -- The loop of a batch, from the number `base + i` on.
  apply_ops-Refines :
      (ops : List BatchOp) (db : Engine) (log : List Write) (base i : ℕ) (calls : Calls)
      → Refines u db log
      → All (λ op. Comparable op.key u) ops
      → IsReady calls
      → All (λ x. x.seq < base + i) log
      → base + i + length ops ≤ db.next_seq + 1
      → db.next_seq < 2 ^ 64
      → Refines u (apply_ops db base i ops calls) (batch_log base i ops calls log)
  unfolding apply_ops batch_log
  apply_ops-Refines [] db log base i calls r ks ready below h b = r
  apply_ops-Refines (op ∷ ops) db log base i calls r ks ready below h b =
      let number : (base + i) % 2 ^ 64 ≡ base + i = omega arith in
      rw number (
        apply_ops-Refines ops _ _ base (i + 1) calls
          (insert_version-Refines u db log (batch_write base i op calls) r
            (record { bounded = omega arith; apart = ks.0; linked = ready.tall i }) below
            (omega arith))
          ks.1 ready
          ((omega arith, All-map _ _ log (λ x (p : x.seq < base + i). omega arith) below))
          (omega arith) b)

  pub apply_batch-Refines :
      (db : Engine) (log : List Write) (ops : List BatchOp) (calls : Calls)
      → Refines u db log
      → db.next_seq + length ops + 1 < 2 ^ 64
      → All (λ op. Comparable op.key u) ops
      → IsReady calls
      → Refines u
          (apply_batch db ops calls).0
          (logged (apply_batch db ops calls).1 (batch_log (db.next_seq + 1) 0 ops calls log) log)
  unfolding apply_batch
  apply_batch-Refines db log ops calls r room ks ready =
      let next : (db.next_seq + length ops) % 2 ^ 64 ≡ db.next_seq + length ops = omega arith in
      let base : (db.next_seq + length ops + 2 ^ 64 - length ops + 1) % 2 ^ 64 ≡ db.next_seq + 1 =
        omega arith in
      let counted = counted-Refines u db log (db.next_seq + length ops) r (omega arith) in
      rw (next, base)
        (write_path u db (record db { next_seq = db.next_seq + length ops }) _ log _ calls r counted
          (apply_ops-Refines ops (record db { next_seq = db.next_seq + length ops }) log
            (db.next_seq + 1) 0 calls counted ks ready
            (All-map _ _ log (λ x (p : x.seq ≤ db.next_seq). omega arith) r.numbered) (omega arith)
            (omega arith))
          ready.creates)
