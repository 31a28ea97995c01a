-- ===== src/Db/Transaction/Conflicts.antt =====
-- db/transaction.go: checkConflicts, and the buffer of writes.
use mathlib.Core.List.{flatten}
use lithicdb.Common.{
  ℕ, ◌≡◌, refl, ap, ◌∙◌, sym, Bool, false, Option, none, some, List, [], ◌∷◌, ◌++◌, arith, ltb,
  ◌&&◌, ◌||◌,
}
use lithicdb.Common.Bytes.{Bytes, All, bytes_eq}
use lithicdb.Kv.{Value, max_seq_num}
use lithicdb.Memtable.{Memtable, get_newest}
use lithicdb.Memtable.Versions.{newer}
use lithicdb.Memtable.Log.{Write, newest_write, IsWrite, get_newest-written}
use lithicdb.Db.Engine.Tables.{Memtables}
use lithicdb.Db.Transaction.{later_than, any_newest}

-- The specification: some write of the key has a number above `seq`.
unfoldable pub any_later : Bytes → ℕ → List Write → Bool
any_later u seq [] = false
any_later u seq (w ∷ ws) = (bytes_eq w.key u && ltb seq w.seq) || any_later u seq ws

module _ (u : Bytes) (seq : ℕ) where
  any_later-append :
      (xs ys : List Write) → any_later u seq (xs ++ ys) ≡ (any_later u seq xs || any_later u seq ys)
  unfolding any_later
  any_later-append [] ys = refl
  any_later-append (x ∷ xs) ys = ground (arith, any_later-append xs ys)

  later_than-newer :
      (v : Value) (s : ℕ) (rest : Option (Value × ℕ))
      → later_than seq (newer v s rest) ≡ (ltb seq s || later_than seq rest)
  later_than-newer v s none = ground arith
  later_than-newer v s (some (w, t)) = ground arith

  later_than-newest_write :
      (ws : List Write)
      → All (IsWrite u) ws
      → later_than seq (newest_write u max_seq_num ws) ≡ any_later u seq ws
  unfolding any_later newest_write
  later_than-newest_write [] a = refl
  later_than-newest_write (w ∷ ws) a = ground (
    arith,
    (a.0).bounded,
    later_than-newest_write ws a.1,
    later_than-newer w.value w.seq (newest_write u max_seq_num ws),
  )

  -- On memtables that hold the writes of logs, of which no key is a prefix of another, the check,
  -- which asks each memtable for the newest version of the key alone, finds a number above `seq`
  -- exactly when some write of the key in any of the memtables has one.
  pub any_newest-any_later :
      (ms : List Memtable) (wss : List (List Write))
      → Memtables u ms wss
      → any_newest ms u seq ≡ any_later u seq (flatten wss)
  unfolding any_newest Memtables flatten
  any_newest-any_later [] [] h = unfold any_later in refl
  any_newest-any_later [] (ws ∷ wss) h = absurd h
  any_newest-any_later (m ∷ ms) [] h = absurd h
  any_newest-any_later (m ∷ ms) (ws ∷ wss) h =
      let newest : get_newest m.sl u ≡ newest_write u max_seq_num ws =
        ap (λ sl. get_newest sl u) h.0 ∙ (get_newest-written u ws h.1).0 in
      ap (λ o. later_than seq o || any_newest ms u seq) newest
      ∙ ap (λ b. b || any_newest ms u seq) (later_than-newest_write ws h.1)
      ∙ ap (λ b. any_later u seq ws || b) (any_newest-any_later ms wss h.2)
      ∙ sym (any_later-append ws (flatten wss))
