-- ===== src/Db/Engine/Flush.antt =====
-- db/flush.go: the oldest immutable memtable becomes the newest table of L0. `build` stands for the body
-- of flushMemtable up to the swap, with the table builder, the reader that is opened on the file and
-- the records of the manifest: what it makes of a memtable; `none` is an error.
use mathlib.Core.Path.{subst}
use mathlib.Core.List.{flatten}
use lithicdb.Common.{
  ℕ, zero, suc, ◌≤◌, ◌≡◌, refl, ap, ◌∙◌, sym, inl, inr, Option-cases, Option, none, some, List, [],
  ◌∷◌, ◌++◌, length,
}
use lithicdb.Common.Bytes.{Bytes, All}
use lithicdb.Memtable.{Memtable, get_at}
use lithicdb.Memtable.Log.{Write, written, IsWrite, get_at-written}
use lithicdb.Db.Engine.{Engine, Table, read_tables}
use lithicdb.Db.Engine.Tables.{Stacked, Memtables, Tables}
use lithicdb.Db.Engine.Log.{disk_tables, Refines}

-- A list without its last element, and that element.
unfoldable pub split_last {ℓ} : {A : Type ℓ} → A → List A → List A × A
split_last x [] = ([], x)
split_last x (y ∷ ys) = (x ∷ (split_last y ys).0, (split_last y ys).1)

-- The swap under the lock at the end of `flushMemtable`.
abbrev pub swap_flushed : Engine → Table → List Memtable → Engine
swap_flushed db t rest = record db { l0 = t ∷ db.l0; immutables = rest }

abbrev pub flush_oldest : Option Table → Engine → List Memtable → Option Engine
flush_oldest none db rest = none
flush_oldest (some t) db rest = some (swap_flushed db t rest)

unfoldable pub flush_from : (Memtable → Option Table) → Engine → List Memtable → Option Engine
flush_from build db [] = none
flush_from build db (m ∷ ms) = flush_oldest (build (split_last m ms).1) db (split_last m ms).0

-- `none` when there is nothing to flush, or on an error.
unfoldable pub flush_one : (Memtable → Option Table) → Engine → Option Engine
flush_one build db = flush_from build db db.immutables

-- The loop of `flushImmutables`, which ends at the first error.
unfoldable pub flush_loop : ℕ → (Memtable → Option Table) → Engine → Engine
flush_loop zero build db = db
flush_loop (suc fuel) build db = elim (flush_one build db) [
  | none ↦ db
  | some db' ↦ flush_loop fuel build db'
]

unfoldable pub flush_immutables : (Memtable → Option Table) → Engine → Engine
flush_immutables build db = flush_loop (length db.immutables) build db

append-split_last {ℓ} :
    {A : Type ℓ} (x : A) (xs rest : List A)
    → (split_last x xs).0 ++ ((split_last x xs).1 ∷ rest) ≡ x ∷ (xs ++ rest)
unfolding split_last
append-split_last x [] rest = refl
append-split_last x (y ∷ ys) rest = ap (λ l. x ∷ l) (append-split_last y ys rest)

-- A table that was built answers for the key as the memtable does.
abbrev pub ServesAs : Bytes → Memtable → Option Table → Type 0
ServesAs u m none = Unit
ServesAs u m (some t) = (s : ℕ) → read_tables (t ∷ []) u s ≡ get_at m.sl u s

module _ (u : Bytes) (build : Memtable → Option Table)
    (serves : (m : Memtable) → ServesAs u m (build m)) where
  Memtables-split_last :
      (m : Memtable) (ms : List Memtable) (ws : List Write) (wss : List (List Write))
      → Memtables u (m ∷ ms) (ws ∷ wss)
      → Memtables u (split_last m ms).0 (split_last ws wss).0
        × ((split_last m ms).1.sl ≡ written (split_last ws wss).1)
        × All (IsWrite u) (split_last ws wss).1
  unfolding split_last Memtables
  Memtables-split_last m [] ws [] h = (tt, h.0, h.1)
  Memtables-split_last m [] ws (xs ∷ wss) h = absurd h.2
  Memtables-split_last m (n ∷ ms) ws [] h = absurd h.2
  Memtables-split_last m (n ∷ ms) ws (xs ∷ wss) h =
      let (init, last, good) = Memtables-split_last n ms xs wss h.2 in
      ((h.0, h.1, init), last, good)

  flushed_layers :
      (db : Engine) (log : List Write) (m : Memtable) (ms : List Memtable) (t : Table)
      (top : List Write) (mem disk : List (List Write))
      → build (split_last m ms).1 ≡ some t
      → (db.active.sl ≡ written top)
      → All (IsWrite u) top
      → Memtables u (m ∷ ms) mem
      → Tables u (disk_tables db) disk
      → Stacked u (top ∷ (mem ++ disk))
      → flatten (top ∷ (mem ++ disk)) ≡ log
      → All (λ x. x.seq ≤ db.next_seq) log
      → Refines u (swap_flushed db t (split_last m ms).0) log
  unfolding Tables Memtables
  flushed_layers db log m ms t top [] disk b a g h ts o e n = absurd h
  flushed_layers db log m ms t top (ws ∷ wss) disk b a g h ts o e n =
      let (init, last, good) = Memtables-split_last m ms ws wss h in
      let same = append-split_last ws wss disk in
      record {
        in_memory = top ∷ (split_last ws wss).0;
        on_disk = (split_last ws wss).1 ∷ disk;
        memtables = (a, g, init);
        tables = (
          (λ s.
              subst (ServesAs u (split_last m ms).1) b (serves (split_last m ms).1) s
              ∙ ap (λ sl. get_at sl u s) last
              ∙ get_at-written u (split_last ws wss).1 s good),
          ts,
        );
        stacked = subst (λ l. Stacked u (top ∷ l)) (sym same) o;
        is_log = ap (λ l. flatten (top ∷ l)) same ∙ e;
        numbered = n;
      }

  flush_oldest-Refines :
      (db db' : Engine) (log : List Write) (m : Memtable) (ms : List Memtable)
      (table : Option Table) (top : List Write) (mem disk : List (List Write))
      → flush_oldest table db (split_last m ms).0 ≡ some db'
      → build (split_last m ms).1 ≡ table
      → (db.active.sl ≡ written top)
      → All (IsWrite u) top
      → Memtables u (m ∷ ms) mem
      → Tables u (disk_tables db) disk
      → Stacked u (top ∷ (mem ++ disk))
      → flatten (top ∷ (mem ++ disk)) ≡ log
      → All (λ x. x.seq ≤ db.next_seq) log
      → Refines u db' log
  flush_oldest-Refines db db' log m ms none top mem disk f b a g h ts o e n = cc
  flush_oldest-Refines db db' log m ms (some t) top mem disk f b a g h ts o e n =
      let same : swap_flushed db t (split_last m ms).0 ≡ db' = cc in
      subst (λ d. Refines u d log) same (flushed_layers db log m ms t top mem disk b a g h ts o e n)

  flush_layers :
      (db db' : Engine) (log : List Write) (mem : List (List Write)) (ims : List Memtable)
      (disk : List (List Write))
      → flush_from build db ims ≡ some db'
      → Memtables u (db.active ∷ ims) mem
      → Tables u (disk_tables db) disk
      → Stacked u (mem ++ disk)
      → flatten (mem ++ disk) ≡ log
      → All (λ x. x.seq ≤ db.next_seq) log
      → Refines u db' log
  unfolding flush_from Memtables
  flush_layers db db' log [] ims disk f h ts o e n = absurd h
  flush_layers db db' log (top ∷ mem) [] disk f h ts o e n = cc
  flush_layers db db' log (top ∷ mem) (m ∷ ms) disk f h ts o e n =
      flush_oldest-Refines db db' log m ms (build (split_last m ms).1) top mem disk f refl h.0 h.1
        h.2 ts o e n

  pub flush_one-Refines :
      (db db' : Engine) (log : List Write)
      → Refines u db log
      → flush_one build db ≡ some db'
      → Refines u db' log
  unfolding flush_one
  flush_one-Refines db db' log r f =
      flush_layers db db' log r.in_memory db.immutables r.on_disk f r.memtables r.tables r.stacked
        r.is_log r.numbered

  flush_loop-Refines :
      (fuel : ℕ) (db : Engine) (log : List Write)
      → Refines u db log
      → Refines u (flush_loop fuel build db) log
  unfolding flush_loop
  flush_loop-Refines zero db log r = r
  flush_loop-Refines (suc fuel) db log r = elim (Option-cases (flush_one build db)) [
    | inl e ↦ rw (e, flush_loop) r
    | inr (db', e) ↦
        rw (e, flush_loop) (flush_loop-Refines fuel db' log (flush_one-Refines db db' log r e))
  ]

  pub flush_immutables-Refines :
      (db : Engine) (log : List Write)
      → Refines u db log
      → Refines u (flush_immutables build db) log
  unfolding flush_immutables
  flush_immutables-Refines db log r = flush_loop-Refines (length db.immutables) db log r
