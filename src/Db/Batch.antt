-- ===== src/Db/Batch.antt =====
-- db/batch.go: the staging of a batch, and its commit.
use lithicdb.Common.{
  ℕ, ◌+◌, ◌^◌, ◌<◌, ◌≡◌, ap, ◌∙◌, true, false, some, none, arith, if◌then◌else◌, List, [], ◌∷◌,
  ◌++◌, length,
}
use lithicdb.Common.Bytes.{Bytes, All, bytes_eq}
use lithicdb.Kv.KeyOrder.{Comparable}
use lithicdb.Memtable.Log.{Write}
use lithicdb.Db.Engine.{
  Engine, Calls, Status, done, BatchOp, value_of_op, or_else, apply_batch, read_newest,
}
use lithicdb.Db.Engine.Tables.{or_else_assoc}
use lithicdb.Db.Engine.Log.{Refines}
use lithicdb.Db.Engine.Writes.{IsReady}
use lithicdb.Db.Engine.Fresh.{committed, last_op, read_newest-apply_batch}

pub record WriteBatch : Type 0 where
  pub ops : List BatchOp
  pub size : ℕ

abbrev pub new_write_batch : WriteBatch
new_write_batch = record { ops = []; size = 0 }

unfoldable pub stage_put : WriteBatch → Bytes → Bytes → WriteBatch
stage_put b key value = record {
  ops = b.ops ++ ((record { key = key; value = value; tombstone = false }) ∷ []);
  size = b.size + (length key + length value);
}

unfoldable pub stage_delete : WriteBatch → Bytes → WriteBatch
stage_delete b key = record {
  ops = b.ops ++ ((record { key = key; value = []; tombstone = true }) ∷ []);
  size = b.size + length key;
}

pub batch_count : WriteBatch → ℕ
batch_count b = length b.ops

unfoldable pub reset : WriteBatch → WriteBatch
reset b = record { ops = []; size = 0 }

-- The batch is kept when the call fails.
unfoldable pub reset_when_done : WriteBatch → Status → WriteBatch
reset_when_done b done = reset b
reset_when_done b st = b

abbrev end_batch : Engine × Status → WriteBatch → (Engine × WriteBatch) × Status
end_batch (db, st) b = ((db, reset_when_done b st), st)

unfoldable pub commit_batch : Engine → WriteBatch → Calls → (Engine × WriteBatch) × Status
commit_batch db b calls = elim b.ops [
  | [] ↦ ((db, b), done)
  | op ∷ ops ↦ end_batch (apply_batch db (op ∷ ops) calls) b
]

-- The database after the commit reads as after the staged operations.
pub commit_batch_atomic :
    (u : Bytes) (db : Engine) (log : List Write) (op : BatchOp) (ops : List BatchOp) (size : ℕ)
    (calls : Calls)
    → Refines u db log
    → db.next_seq + length (op ∷ ops) + 1 < 2 ^ 64
    → All (λ o. Comparable o.key u) (op ∷ ops)
    → IsReady calls
    → read_newest (commit_batch db (record { ops = op ∷ ops; size = size }) calls).0.0 u
      ≡ or_else
          (committed
            (commit_batch db (record { ops = op ∷ ops; size = size }) calls).1
            (last_op u (op ∷ ops)))
          (read_newest db u)
unfolding commit_batch
commit_batch_atomic u db log op ops size calls r room apart ready =
    read_newest-apply_batch u db log (op ∷ ops) calls r room apart ready

-- The operation staged last is the one that counts for its key.
pub last_op-append :
    (u : Bytes) (ops : List BatchOp) (op : BatchOp)
    → last_op u (ops ++ (op ∷ [])) ≡ or_else (last_op u (op ∷ [])) (last_op u ops)
unfolding last_op
last_op-append u [] op = ground arith
last_op-append u (o ∷ ops) op =
    ap (λ l. or_else l (if bytes_eq o.key u then some (value_of_op o) else none))
      (last_op-append u ops op)
    ∙ or_else_assoc u (last_op u (op ∷ [])) (last_op u ops) _
