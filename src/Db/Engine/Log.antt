-- ===== src/Db/Engine/Log.antt =====
-- db/read.go against its specification: the engine as one log of the writes in all its layers, the
-- last first.
use mathlib.Core.List.{flatten}
use lithicdb.Common.{ℕ, ◌≤◌, ◌≡◌, ap, ◌∙◌, sym, List, ◌∷◌, ◌++◌}
use lithicdb.Common.Bytes.{Bytes, All}
use lithicdb.Memtable.{value_of, get_at}
use lithicdb.Memtable.Log.{Write, newest_write}
use lithicdb.Db.Engine.{
  Engine, Table, or_else, read_memtables, read_tables, read_levels, below_l0, read_at,
}
use lithicdb.Db.Engine.Tables.{
  Stacked, Memtables, Tables, read_memtables_lem, read_tables_lem, read_levels-flatten,
  Stacked-append, or_else_assoc, read_tables-append,
}

abbrev pub disk_tables : Engine → List Table
disk_tables db = db.l0 ++ flatten (below_l0 db.levels)

-- The engine's layers hold the log's writes, the newest layer first, and all are numbered.
pub record Refines (u : Bytes) (db : Engine) (log : List Write) : Type 0 where
  pub in_memory : List (List Write)
  pub on_disk : List (List Write)
  pub memtables : Memtables u (db.active ∷ db.immutables) in_memory
  pub tables : Tables u (disk_tables db) on_disk
  pub stacked : Stacked u (in_memory ++ on_disk)
  pub is_log : flatten (in_memory ++ on_disk) ≡ log
  pub numbered : All (λ w. w.seq ≤ db.next_seq) log

module _ (u : Bytes) (db : Engine) (log : List Write) (s : ℕ) (r : Refines u db log) where
  read_disk :
      or_else (read_tables db.l0 u s) (read_levels (below_l0 db.levels) u s)
      ≡ value_of (newest_write u s (flatten r.on_disk))
  read_disk =
      ap (or_else (read_tables db.l0 u s)) (read_levels-flatten u s (below_l0 db.levels))
      ∙ sym (read_tables-append u s db.l0 (flatten (below_l0 db.levels)))
      ∙ read_tables_lem u s (disk_tables db) r.on_disk r.tables
          (Stacked-append u r.in_memory r.on_disk r.stacked)

pub read_at_lem :
    (u : Bytes) (db : Engine) (log : List Write) (s : ℕ)
    → Refines u db log
    → read_at db u s ≡ value_of (newest_write u s log)
unfolding read_at read_memtables
read_at_lem u db log s r =
    ap (λ a. or_else (get_at (db.active).sl u s) (or_else (read_memtables db.immutables u s) a))
      (read_disk u db log s r)
    ∙ sym (or_else_assoc u (get_at (db.active).sl u s) (read_memtables db.immutables u s) _)
    ∙ read_memtables_lem u s (db.active ∷ db.immutables) r.in_memory r.on_disk r.memtables r.stacked
    ∙ ap (λ l. value_of (newest_write u s l)) r.is_log
