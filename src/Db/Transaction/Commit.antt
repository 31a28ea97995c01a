-- ===== src/Db/Transaction/Commit.antt =====
-- db/transaction.go: what Commit does to the data.
use mathlib.Core.Path.{subst}
use lithicdb.Common.{
  ◌+◌, ◌^◌, ◌<◌, ◌≡◌, refl, ap, ◌∙◌, sym, true, false, Bool-cases, inl, inr, none, some, List, [],
  ◌∷◌, arith, length, map, ◌||◌,
}
use lithicdb.Common.Bytes.{Bytes, All, bytes_eq}
use lithicdb.Common.Names.{mem, IsDistinct, eq_of_bytes_eq, bytes_eq_sym}
use lithicdb.Kv.{Value}
use lithicdb.Kv.KeyOrder.{Comparable}
use lithicdb.Memtable.Log.{Write}
use lithicdb.Db.Engine.{
  Engine, Calls, Status, done, blocked, wal_error, rotate_error, conflict, tx_closed, value_of_op,
  or_else, apply_batch, read_at, read_newest,
}
use lithicdb.Db.Engine.Log.{Refines}
use lithicdb.Db.Engine.Writes.{IsReady}
use lithicdb.Db.Engine.Fresh.{committed, last_op, read_newest-apply_batch}
use lithicdb.Db.Transaction.{
  Writes, Transaction, find_write, assign, has_conflict, op_of, release, end_commit, apply_writes,
  is_empty, commit,
}

abbrev keys : Writes → List Bytes
keys ws = map (λ (w : Bytes × Value). w.0) ws

-- A buffered value is one that Put or Delete makes.
abbrev IsBuffered : Bytes × Value → Type 0
IsBuffered w = value_of_op (op_of w) ≡ w.1

-- Each key once, each with a value of Put or Delete.
pub record IsWriteSet (ws : Writes) : Type 0 where
  pub distinct : IsDistinct (keys ws)
  pub made : All IsBuffered ws

mem-assign :
    (x key : Bytes) (v : Value) (ws : Writes)
    → mem x (keys (assign ws key v)) ≡ (mem x (keys ws) || bytes_eq x key)
unfolding assign mem
mem-assign x key v [] = ground arith
mem-assign x key v ((k, w) ∷ ws) = elim (Bool-cases (bytes_eq k key)) [
  | inl e ↦
      let same : bytes_eq x key ≡ bytes_eq x k =
        ap (λ (y : Bytes). bytes_eq x y) (sym (eq_of_bytes_eq k key e)) in
      rw e (ground (arith, same))
  | inr e ↦ rw e (ground (arith, mem-assign x key v ws))
]

assign-IsDistinct :
    (key : Bytes) (v : Value) (ws : Writes)
    → IsDistinct (keys ws)
    → IsDistinct (keys (assign ws key v))
unfolding assign mem
assign-IsDistinct key v [] d = (refl, tt)
assign-IsDistinct key v ((k, w) ∷ ws) d = elim (Bool-cases (bytes_eq k key)) [
  | inl e ↦ rw e d
  | inr e ↦ rw e ((mem-assign k key v ws ∙ ground (arith, d.0), assign-IsDistinct key v ws d.1))
]

assign-made :
    (key : Bytes) (v : Value) (ws : Writes)
    → value_of_op (op_of (key, v)) ≡ v
    → All IsBuffered ws
    → All IsBuffered (assign ws key v)
unfolding assign
assign-made key v [] h a = (h, tt)
assign-made key v ((k, w) ∷ ws) h a = elim (Bool-cases (bytes_eq k key)) [
  | inl e ↦ rw e ((h, a.1))
  | inr e ↦ rw e ((a.0, assign-made key v ws h a.1))
]

find_write-absent : (ws : Writes) (u : Bytes) → mem u (keys ws) ≡ false → find_write ws u ≡ none
unfolding find_write mem
find_write-absent [] u h = refl
find_write-absent ((k, v) ∷ ws) u h = ground (arith, bytes_eq_sym u k, find_write-absent ws u)

-- The batch that a commit makes of its write set leaves each key at its buffered value.
last_op-find_write :
    (ws : Writes) (u : Bytes)
    → IsDistinct (keys ws)
    → All IsBuffered ws
    → last_op u (map op_of ws) ≡ find_write ws u
unfolding last_op find_write
last_op-find_write [] u d a = refl
last_op-find_write ((k, v) ∷ ws) u d a = elim (Bool-cases (bytes_eq k u)) [
  | inl e ↦
      let absent : find_write ws u ≡ none =
        find_write-absent ws u
          (subst (λ (x : Bytes). mem x (keys ws) ≡ false) (eq_of_bytes_eq k u e) d.0) in
      let nothing : last_op u (map op_of ws) ≡ none = last_op-find_write ws u d.1 a.1 ∙ absent in
      rw (e, nothing) (ap some a.0)
  | inr e ↦ let rest = last_op-find_write ws u d.1 a.1 in ground (arith, rest, e)
]

find_write-is_empty : (ws : Writes) (u : Bytes) → is_empty ws ≡ true → find_write ws u ≡ none
unfolding is_empty find_write
find_write-is_empty [] u e = refl
find_write-is_empty (w ∷ ws) u e = cc

release_read :
    (db : Engine) (tx : Transaction) (u : Bytes)
    → read_newest (release db tx).0 u ≡ read_newest db u
unfolding release read_newest read_at
release_read db tx u = refl

end_commit_read :
    (db : Engine) (tx : Transaction) (st : Status) (u : Bytes)
    → read_newest (end_commit db tx st).0.0 u ≡ read_newest db u
unfolding end_commit
end_commit_read db tx done u = release_read db tx u
end_commit_read db tx blocked u = refl
end_commit_read db tx wal_error u = release_read db tx u
end_commit_read db tx rotate_error u = release_read db tx u
end_commit_read db tx conflict u = release_read db tx u
end_commit_read db tx tx_closed u = release_read db tx u

pub end_commit-status :
    (db : Engine) (tx : Transaction) (st : Status) → (end_commit db tx st).1 ≡ st
unfolding end_commit
end_commit-status db tx done = refl
end_commit-status db tx blocked = refl
end_commit-status db tx wal_error = refl
end_commit-status db tx rotate_error = refl
end_commit-status db tx conflict = refl
end_commit-status db tx tx_closed = refl

module _ (u : Bytes) (db : Engine) (log : List Write) (tx : Transaction) (calls : Calls)
    (r : Refines u db log) (good : IsWriteSet tx.writes)
    (room : db.next_seq + length (map op_of tx.writes) + 1 < 2 ^ 64)
    (apart : All (λ op. Comparable op.key u) (map op_of tx.writes)) (ready : IsReady calls) where
  pub apply_writes_atomic :
      read_newest (apply_writes db (record tx { closed = true }) calls).0.0 u
      ≡ or_else
          (committed
            (apply_writes db (record tx { closed = true }) calls).1
            (find_write tx.writes u))
          (read_newest db u)
  unfolding apply_writes
  apply_writes_atomic =
      let ops = map op_of tx.writes in
      let st = (apply_batch db ops calls).1 in
      let after = (apply_batch db ops calls).0 in
      end_commit_read after (record tx { closed = true }) st u
      ∙ read_newest-apply_batch u db log ops calls r room apart ready
      ∙ ap (λ o. or_else (committed st o) (read_newest db u))
          (last_op-find_write tx.writes u good.distinct good.made)
      ∙ ap (λ t. or_else (committed t (find_write tx.writes u)) (read_newest db u))
          (sym (end_commit-status after (record tx { closed = true }) st))

  nothing_buffered :
      is_empty tx.writes ≡ true
      → read_newest db u ≡ or_else (find_write tx.writes u) (read_newest db u)
  nothing_buffered e =
      ap (λ o. or_else o (read_newest db u)) (sym (find_write-is_empty tx.writes u e))

  -- A commit is all or nothing: when it succeeds each key reads as the transaction's last write of
  -- it, and as before where it wrote nothing; when it reports a conflict, an ended transaction or a
  -- failed WAL write, or has to wait, each key reads as before. This is on an engine whose layers
  -- hold a log, for a buffer that Put and Delete made, when its keys can stand beside the one read,
  -- the next WAL file can be created, and the sequence numbers last.
  pub commit_atomic :
      read_newest (commit db tx calls).0.0 u
      ≡ or_else (committed (commit db tx calls).1 (find_write tx.writes u)) (read_newest db u)
  unfolding commit
  commit_atomic = elim (Bool-cases tx.closed) [
    | inl c ↦ rw c refl
    | inr c ↦ elim (Bool-cases (is_empty tx.writes)) [
      | inl e ↦ rw (c, e) (release_read db (record tx { closed = true }) u ∙ nothing_buffered e)
      | inr e ↦ elim (Bool-cases (has_conflict db tx.snapshot.seq tx.writes)) [
        | inl f ↦ rw (c, e, f) (release_read db (record tx { closed = true }) u)
        | inr f ↦ rw (c, e, f) apply_writes_atomic
      ]
    ]
  ]
