-- ===== src/Db/Engine/Writes.antt =====
-- db/write.go and db/batch.go: a write extends the log, at the front, with numbers of its own.
use mathlib.Core.Path.{subst}
use mathlib.Core.List.{flatten}
use lithicdb.Common.{
  ℕ, ◌+◌, ◌%◌, ◌^◌, ◌≤◌, ◌<◌, ◌≡◌, refl, ap, sym, true, Bool-cases, inl, inr, List, [], ◌∷◌, ◌++◌,
  arith, leb, if◌then◌else◌,
}
use lithicdb.Common.Bytes.{Bytes, All, bytes_eq}
use lithicdb.Common.Names.{keep, All-map, keep-All}
use lithicdb.Kv.{Value, new_value, new_tombstone, make_internal_key}
use lithicdb.Kv.KeyOrder.{Comparable}
use lithicdb.Memtable.{Memtable, new_memtable, freeze}
use lithicdb.Memtable
use lithicdb.Memtable.Log.{Write, written, IsWrite}
use lithicdb.Db.Engine.{
  Engine, Calls, Status, done, blocked, wal_error, rotate_error, conflict, tx_closed,
  has_flush_space, insert_version, rotate_memtable, rotate_when_full, put, delete,
}
use lithicdb.Db.Engine.Tables.{Above, Stacked, Memtables, Tables}
use lithicdb.Db.Engine.Log.{disk_tables, Refines}

-- The common shape of the three write calls.
abbrev pub attempt : Engine → Engine → Engine → Calls → Engine × Status
attempt db counted inserted calls =
    if has_flush_space db
    then (if calls.wal_write then rotate_when_full inserted calls else (counted, wal_error))
    else (db, blocked)

-- The log after a call, by what the call returned.
abbrev pub logged : Status → List Write → List Write → List Write
logged done new log = new
logged blocked new log = log
logged wal_error new log = log
logged rotate_error new log = log
logged conflict new log = log
logged tx_closed new log = log

-- A call on which the WAL can be rotated, and which draws heights from 1 on.
pub record IsReady (calls : Calls) : Type 0 where
  pub creates : calls.wal_create ≡ true
  pub tall : (i : ℕ) → 1 ≤ calls.height i

All-suffix {ℓ κ} : {A : Type ℓ} (P : A → Type κ) (xs ys : List A) → All P (xs ++ ys) → All P ys
All-suffix P [] ys a = a
All-suffix P (x ∷ xs) ys a = All-suffix P xs ys a.1

rotate_when_full-done :
    (db : Engine) (calls : Calls) → calls.wal_create ≡ true → (rotate_when_full db calls).1 ≡ done
unfolding rotate_when_full rotate_memtable
rotate_when_full-done db calls c = ground (arith, c)

module _ (u : Bytes) where
  pub counted-Refines :
      (db : Engine) (log : List Write) (n : ℕ)
      → Refines u db log
      → db.next_seq ≤ n
      → Refines u (record db { next_seq = n }) log
  counted-Refines db log n r h = record {
    in_memory = r.in_memory;
    on_disk = r.on_disk;
    memtables = r.memtables;
    tables = r.tables;
    stacked = r.stacked;
    is_log = r.is_log;
    numbered = All-map _ _ log (λ w (p : w.seq ≤ db.next_seq). omega arith) r.numbered;
  }

  -- A write with the highest number of all stands above every layer.
  insert-Above :
      (w : Write) (ws below : List Write)
      → All (λ x. x.seq < w.seq) (ws ++ below)
      → Above u ws below
      → Above u (w ∷ ws) below
  unfolding keep
  insert-Above w ws below newest a = elim (Bool-cases (bytes_eq w.key u)) [
    | inl e ↦ rw e ((keep-All _ _ below (All-suffix _ ws below newest), a))
    | inr e ↦ rw e a
  ]

  insert_layers :
      (db : Engine) (log : List Write) (w : Write) (mem disk : List (List Write))
      → Memtables u (db.active ∷ db.immutables) mem
      → Tables u (disk_tables db) disk
      → Stacked u (mem ++ disk)
      → flatten (mem ++ disk) ≡ log
      → All (λ x. x.seq ≤ db.next_seq) log
      → IsWrite u w
      → All (λ x. x.seq < w.seq) log
      → w.seq ≤ db.next_seq
      → Refines u (insert_version db w.key w.seq w.value w.height) (w ∷ log)
  unfolding Memtables Stacked written flatten Memtable.put_memtable
  insert_layers db log w [] disk ms ts o e n good newest h = absurd ms
  insert_layers db log w (ws ∷ wss) disk ms ts o e n good newest h = record {
    in_memory = (w ∷ ws) ∷ wss;
    on_disk = disk;
    memtables = (
      ap (λ sl. Memtable.put sl (make_internal_key w.key w.seq) w.value w.height) ms.0,
      (good, ms.1),
      ms.2,
    );
    tables = ts;
    stacked = (
      insert-Above w ws (flatten (wss ++ disk)) (subst (All (λ x. x.seq < w.seq)) (sym e) newest)
          o.0,
      o.1,
    );
    is_log = ap (λ l. w ∷ l) e;
    numbered = (h, n);
  }

  pub insert_version-Refines :
      (db : Engine) (log : List Write) (w : Write)
      → Refines u db log
      → IsWrite u w
      → All (λ x. x.seq < w.seq) log
      → w.seq ≤ db.next_seq
      → Refines u (insert_version db w.key w.seq w.value w.height) (w ∷ log)
  insert_version-Refines db log w r good newest h =
      insert_layers db log w r.in_memory r.on_disk r.memtables r.tables r.stacked r.is_log
        r.numbered good newest h

  rotate_when_full-Refines :
      (db : Engine) (log : List Write) (calls : Calls)
      → Refines u db log
      → calls.wal_create ≡ true
      → Refines u (rotate_when_full db calls).0 log
  unfolding rotate_when_full rotate_memtable
  rotate_when_full-Refines db log calls r c =
      elim (Bool-cases (leb db.opts.memtable_size (db.active).sl.data_size)) [
        | inl full ↦ rw (full, c) (rotated_layers r)
        | inr e ↦ rw e r
      ]
    where
      rotated_layers :
          Refines u db log
          → Refines u
              (record db {
                active = new_memtable ((db.next_mem_id + 1) % 2 ^ 64);
                immutables = freeze db.active ∷ db.immutables;
                next_mem_id = (db.next_mem_id + 1) % 2 ^ 64;
              })
              log
      rotated_layers r = record {
        in_memory = [] ∷ r.in_memory;
        on_disk = r.on_disk;
        memtables = unfold Memtables written freeze in (refl, tt, r.memtables);
        tables = r.tables;
        stacked = unfold Stacked keep in (tt, r.stacked);
        is_log = unfold flatten in r.is_log;
        numbered = r.numbered;
      }

  rotated-Refines :
      (db : Engine) (log new : List Write) (calls : Calls)
      → Refines u db new
      → calls.wal_create ≡ true
      → Refines u (rotate_when_full db calls).0 (logged (rotate_when_full db calls).1 new log)
  rotated-Refines db log new calls r c =
      subst (λ (st : Status). Refines u (rotate_when_full db calls).0 (logged st new log))
        (sym (rotate_when_full-done db calls c)) (rotate_when_full-Refines db new calls r c)

  -- The three ways in which a write ends: rotated or not, without the WAL, and not begun.
  pub write_path :
      (db counted inserted : Engine) (log new : List Write) (calls : Calls)
      → Refines u db log
      → Refines u counted log
      → Refines u inserted new
      → calls.wal_create ≡ true
      → Refines u
          (attempt db counted inserted calls).0
          (logged (attempt db counted inserted calls).1 new log)
  unfolding rotate_when_full rotate_memtable
  write_path db counted inserted log new calls r rc ri c = elim (Bool-cases (has_flush_space db)) [
    | inr e ↦ rw e r
    | inl e ↦ elim (Bool-cases calls.wal_write) [
      | inl w ↦ rw (e, w) (rotated-Refines inserted log new calls ri c)
      | inr w ↦ rw (e, w) rc
    ]
  ]

  module _ (db : Engine) (log : List Write) (r : Refines u db log)
      (room : db.next_seq + 1 < 2 ^ 64) where
    next_number : (db.next_seq + 1) % 2 ^ 64 ≡ db.next_seq + 1
    next_number = omega arith

    below_next : All (λ x. x.seq < db.next_seq + 1) log
    below_next = All-map _ _ log (λ x (p : x.seq ≤ db.next_seq). omega arith) r.numbered

    one_write :
        (key : Bytes) (value : Value) (calls : Calls)
        → Comparable key u
        → IsReady calls
        → Refines u
            (insert_version
              (record db { next_seq = db.next_seq + 1 })
              key
              (db.next_seq + 1)
              value
              (calls.height 0))
            ((record { key = key; seq = db.next_seq + 1; value = value; height = calls.height 0 })
              ∷ log)
    one_write key value calls k ready =
        insert_version-Refines (record db { next_seq = db.next_seq + 1 }) log
          (record { key = key; seq = db.next_seq + 1; value = value; height = calls.height 0 })
          (counted-Refines db log (db.next_seq + 1) r (omega arith))
          (record { bounded = room; apart = k; linked = ready.tall 0 }) below_next (omega arith)

    -- Put adds the write with the next number, or, when it blocks or the WAL fails, nothing.
    pub put-Refines :
        (key value : Bytes) (calls : Calls)
        → Comparable key u
        → IsReady calls
        → Refines u (put db key value calls).0 (
            logged
              (put db key value calls).1
              ((record {
                key = key;
                seq = db.next_seq + 1;
                value = new_value value;
                height = calls.height 0;
              })
                ∷ log)
              log)
    unfolding put
    put-Refines key value calls k ready = rw next_number (
        write_path db (record db { next_seq = db.next_seq + 1 }) _ log _ calls r
          (counted-Refines db log (db.next_seq + 1) r (omega arith))
          (one_write key (new_value value) calls k ready) ready.creates)

    pub delete-Refines :
        (key : Bytes) (calls : Calls)
        → Comparable key u
        → IsReady calls
        → Refines u (delete db key calls).0 (
            logged
              (delete db key calls).1
              ((record {
                key = key;
                seq = db.next_seq + 1;
                value = new_tombstone;
                height = calls.height 0;
              })
                ∷ log)
              log)
    unfolding delete
    delete-Refines key calls k ready = rw next_number (
        write_path db (record db { next_seq = db.next_seq + 1 }) _ log _ calls r
          (counted-Refines db log (db.next_seq + 1) r (omega arith))
          (one_write key new_tombstone calls k ready) ready.creates)
