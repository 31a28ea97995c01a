-- ===== src/Db/Engine/Fresh.antt =====
-- db/write.go and db/batch.go: what is read after a write that succeeded.
use lithicdb.Common.{
  ℕ, ◌+◌, ◌^◌, ◌≤◌, ◌<◌, ◌≡◌, refl, ap, ◌∙◌, sym, true, Bool-cases, Bool, if_both, inl, inr, Option,
  none, some, List, [], ◌∷◌, arith, length, if◌then◌else◌,
}
use lithicdb.Common.Bytes.{Bytes, All, bytes_eq}
use lithicdb.Common.Names.{All-map, keep-All}
use lithicdb.Kv.{Value}
use lithicdb.Kv.KeyOrder.{Comparable}
use lithicdb.Memtable.{value_of}
use lithicdb.Memtable.Log.{Write, newest_write}
use lithicdb.Db.Engine.{
  Engine, Calls, Status, done, blocked, wal_error, rotate_error, conflict, tx_closed, BatchOp,
  value_of_op, or_else, apply_batch, read_newest, has_flush_space,
}
use lithicdb.Db.Engine.Tables.{newest_write-below, or_else_assoc}
use lithicdb.Db.Engine.Log.{Refines, read_at_lem}
use lithicdb.Db.Engine.Isolation.{rotate_when_full-next_seq, attempt-next_seq, apply_ops-next_seq}
use lithicdb.Db.Engine.Batches.{batch_write, batch_log, apply_batch-Refines}
use lithicdb.Db.Engine.Writes.{IsReady, attempt, logged}

-- The value that the last operation on the key leaves.
unfoldable pub last_op : Bytes → List BatchOp → Option Value
last_op u [] = none
last_op u (op ∷ ops) =
    or_else (last_op u ops) (if bytes_eq op.key u then some (value_of_op op) else none)

-- What a call leaves of its effect.
abbrev pub committed : Status → Option Value → Option Value
committed done effect = effect
committed blocked effect = none
committed wal_error effect = none
committed rotate_error effect = none
committed conflict effect = none
committed tx_closed effect = none

module _ (u : Bytes) where
  newest_write-newest :
      (w : Write) (log : List Write) (s : ℕ)
      → All (λ x. x.seq < w.seq) log
      → bytes_eq w.key u ≡ true
      → w.seq ≤ s
      → newest_write u s (w ∷ log) ≡ some (w.value, w.seq)
  unfolding newest_write
  newest_write-newest w log s a e h =
      ground (arith, newest_write-below u s w.seq w.value log (keep-All _ _ log a))

  one_op :
      (op : BatchOp) (log : List Write) (base i s : ℕ) (calls : Calls)
      → All (λ x. x.seq < base + i) log
      → base + i ≤ s
      → value_of (newest_write u s (batch_write base i op calls ∷ log))
        ≡ or_else
            (if bytes_eq op.key u then some (value_of_op op) else none)
            (value_of (newest_write u s log))
  one_op op log base i s calls a h = elim (Bool-cases (bytes_eq op.key u)) [
    | inl e ↦
        ap value_of (newest_write-newest (batch_write base i op calls) log s a e h)
        ∙ sym (
            ap
              (λ (b : Bool).
                or_else (if b then some (value_of_op op) else none)
                  (value_of (newest_write u s log)))
              e)
    | inr e ↦ unfold newest_write in rw e refl
  ]

  newest_write-batch_log :
      (ops : List BatchOp) (log : List Write) (base i s : ℕ) (calls : Calls)
      → All (λ x. x.seq < base + i) log
      → base + i + length ops ≤ s + 1
      → value_of (newest_write u s (batch_log base i ops calls log))
        ≡ or_else (last_op u ops) (value_of (newest_write u s log))
  unfolding batch_log last_op
  newest_write-batch_log [] log base i s calls a h = refl
  newest_write-batch_log (op ∷ ops) log base i s calls a h =
      newest_write-batch_log ops (batch_write base i op calls ∷ log) base (i + 1) s calls
        ((omega arith, All-map _ _ log (λ x (p : x.seq < base + i). omega arith) a)) (omega arith)
      ∙ ap (or_else (last_op u ops)) (one_op op log base i s calls a (omega arith))
      ∙ sym (or_else_assoc u (last_op u ops) _ (value_of (newest_write u s log)))

  newest_write-numbered :
      (log : List Write) (n s : ℕ)
      → All (λ x. x.seq ≤ n) log
      → n ≤ s
      → newest_write u s log ≡ newest_write u n log
  unfolding newest_write
  newest_write-numbered [] n s a h = refl
  newest_write-numbered (w ∷ log) n s a h = ground (arith, newest_write-numbered log n s a.1 h, a.0)

  attempt-done :
      (db counted inserted : Engine) (calls : Calls) (k : ℕ)
      → inserted.next_seq ≡ db.next_seq + k
      → (attempt db counted inserted calls).1 ≡ done
      → (attempt db counted inserted calls).0.next_seq ≡ db.next_seq + k
  attempt-done db counted inserted calls k hi =
      if_both Ends (has_flush_space db)
        (if_both Ends calls.wal_write (λ e. rotate_when_full-next_seq inserted calls ∙ hi)
          (λ e. cc))
        (λ e. cc)
    where
      Ends : Engine × Status → Type 0
      Ends d = d.1 ≡ done → d.0.next_seq ≡ db.next_seq + k

  logged_reads :
      (st : Status) (log : List Write) (ops : List BatchOp) (calls : Calls) (n s : ℕ)
      → All (λ x. x.seq ≤ n) log
      → n ≤ s
      → (st ≡ done → s ≡ n + length ops)
      → value_of (newest_write u s (logged st (batch_log (n + 1) 0 ops calls log) log))
        ≡ or_else (committed st (last_op u ops)) (value_of (newest_write u n log))
  logged_reads done log ops calls n s a l h =
      newest_write-batch_log ops log (n + 1) 0 s calls
        (All-map _ _ log (λ x (p : x.seq ≤ n). omega arith) a) (omega (arith, h refl))
      ∙ ap (λ v. or_else (last_op u ops) (value_of v)) (newest_write-numbered log n s a l)
  logged_reads blocked log ops calls n s a l h = ap value_of (newest_write-numbered log n s a l)
  logged_reads wal_error log ops calls n s a l h = ap value_of (newest_write-numbered log n s a l)
  logged_reads rotate_error log ops calls n s a l h =
      ap value_of (newest_write-numbered log n s a l)
  logged_reads conflict log ops calls n s a l h = ap value_of (newest_write-numbered log n s a l)
  logged_reads tx_closed log ops calls n s a l h = ap value_of (newest_write-numbered log n s a l)

  apply_batch-next_seq :
      (db : Engine) (ops : List BatchOp) (calls : Calls)
      → db.next_seq + length ops < 2 ^ 64
      → db.next_seq ≤ (apply_batch db ops calls).0.next_seq
  unfolding apply_batch
  apply_batch-next_seq db ops calls h =
      (attempt-next_seq db _ _ calls (length ops) (omega arith)
        (apply_ops-next_seq ops _ _ 0 calls ∙ omega arith)).0

  apply_batch-done :
      (db : Engine) (ops : List BatchOp) (calls : Calls)
      → db.next_seq + length ops < 2 ^ 64
      → (apply_batch db ops calls).1 ≡ done
      → (apply_batch db ops calls).0.next_seq ≡ db.next_seq + length ops
  unfolding apply_batch
  apply_batch-done db ops calls h =
      attempt-done db _ _ calls (length ops) (apply_ops-next_seq ops _ _ 0 calls ∙ omega arith)

  -- A batch is all or nothing: when the call succeeds each key reads as the batch's last operation
  -- on it leaves it, and as before where the batch has none; when the call fails, or has to wait,
  -- each key reads as before. This is on an engine whose layers hold a log, when the keys can stand
  -- beside the one read, the next WAL file can be created, and the sequence numbers last.
  pub read_newest-apply_batch :
      (db : Engine) (log : List Write) (ops : List BatchOp) (calls : Calls)
      → Refines u db log
      → db.next_seq + length ops + 1 < 2 ^ 64
      → All (λ op. Comparable op.key u) ops
      → IsReady calls
      → read_newest (apply_batch db ops calls).0 u
        ≡ or_else (committed (apply_batch db ops calls).1 (last_op u ops)) (read_newest db u)
  unfolding read_newest
  read_newest-apply_batch db log ops calls r room ks ready =
      let after = (apply_batch db ops calls).0 in
      let st = (apply_batch db ops calls).1 in
      let new = batch_log (db.next_seq + 1) 0 ops calls log in
      read_at_lem u after (logged st new log) after.next_seq
        (apply_batch-Refines u db log ops calls r room ks ready)
      ∙ logged_reads st log ops calls db.next_seq after.next_seq r.numbered
          (apply_batch-next_seq db ops calls (omega arith))
          (apply_batch-done db ops calls (omega arith))
      ∙ ap (or_else (committed st (last_op u ops))) (sym (read_at_lem u db log db.next_seq r))
