-- ===== src/Db/Engine/Drain.antt =====
-- db/flush.go: one run of the flush loop empties the backlog, and a writer that waits can go on.
use lithicdb.Common.{
  ℕ, zero, suc, ◌≤◌, ◌≡◌, refl, ap, ◌∙◌, true, Option, none, some, List, [], ◌∷◌, arith, length,
}
use lithicdb.Memtable.{Memtable}
use lithicdb.Db.Engine.{Engine, Table, has_flush_space}
use lithicdb.Db.Engine.Flush.{
  split_last, swap_flushed, flush_oldest, flush_from, flush_one, flush_loop, flush_immutables,
}

length-split_last {ℓ} : {A : Type ℓ} (x : A) (xs : List A) → length (split_last x xs).0 ≡ length xs
unfolding split_last
length-split_last x [] = refl
length-split_last x (y ∷ ys) = ap suc (length-split_last y ys)

module _ (build : Memtable → Option Table)
    (builds : (m : Memtable) → (t : Table) × (build m ≡ some t)) where
  flush_one-some :
      (db : Engine) (m : Memtable) (ms : List Memtable)
      → db.immutables ≡ m ∷ ms
      → (t : Table) × (flush_one build db ≡ some (swap_flushed db t (split_last m ms).0))
  unfolding flush_one flush_from
  flush_one-some db m ms e =
      let (t, b) = builds (split_last m ms).1 in
      (t, ap (flush_from build db) e ∙ ap (λ o. flush_oldest o db (split_last m ms).0) b)

  flush_loop_drained :
      (fuel : ℕ) (db : Engine) (ims : List Memtable)
      → db.immutables ≡ ims
      → length ims ≤ fuel
      → ((flush_loop fuel build db).immutables ≡ []) × ((flush_loop fuel build db).opts ≡ db.opts)
  unfolding flush_loop
  flush_loop_drained zero db [] e h = (e, refl)
  flush_loop_drained zero db (m ∷ ms) e h = absurd (omega arith)
  flush_loop_drained (suc fuel) db [] e h =
      let nothing : flush_one build db ≡ none = unfold flush_one flush_from in rw e refl in
      rw (nothing, flush_loop) (e, refl)
  flush_loop_drained (suc fuel) db (m ∷ ms) e h =
      let (t, f) = flush_one-some db m ms e in
      rw (f, flush_loop)
        (flush_loop_drained fuel (swap_flushed db t (split_last m ms).0) (split_last m ms).0 refl
          (omega (arith, length-split_last m ms)))

  -- When every table can be built, one run of the flush loop leaves no immutable memtable, so a
  -- writer that waits for room, on a limit from 1 on, finds it.
  pub flush_immutables_drained :
      (db : Engine)
      → 1 ≤ db.opts.max_immutable_count
      → ((flush_immutables build db).immutables ≡ [])
        × (has_flush_space (flush_immutables build db) ≡ true)
  unfolding flush_immutables
  flush_immutables_drained db h =
      let (drained, same) =
        flush_loop_drained (length db.immutables) db db.immutables refl (omega arith) in
      (drained, rw (drained, same) (ground arith))
