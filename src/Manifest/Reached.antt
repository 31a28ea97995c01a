-- ===== src/Manifest/Reached.antt =====
-- manifest/manifest.go: a manifest after any sequence of calls whose writes succeed.
use lithicdb.Common.{
  ℕ, ◌<◌, ◌≡◌, refl, sym, ap, ◌∙◌, Bool-cases, inl, inr, [], ◌∷◌, ◌++◌, append-nil, arith, ltb,
  length, length-drop, take, drop, Option, none, some,
}
use lithicdb.Common.Bytes.{Bytes}
use mathlib.Core.Path.{subst}
use lithicdb.Common.Slices.{take-drop}
use lithicdb.Manifest.{
  SsTableInfo, HnswSnapshotInfo, Record, sstable_added, sstable_removed, next_ids, hnsw_snapshot,
  encode_record,
}
use lithicdb.Manifest.RoundTrip.{IsRecord}
use lithicdb.Manifest.State.{
  Manifest, Write, written, torn, snapshot_interval, snapshot_of, ids_of, apply_record,
  write_record, create, maybe_snapshot, add_sstable, remove_sstable, update_next_ids,
  add_hnsw_snapshot, opened, open_manifest, empty,
}
use lithicdb.Manifest.Replay.{log_bytes, apply_all, IsTorn, open-log_bytes}
use lithicdb.Manifest.Rebuilds.{
  Rebuilds, snoc-Rebuilds, snoc_same-Rebuilds, snapshot_same, ids_same,
}

-- Every write succeeds.
abbrev pub all_written : ℕ → Write
all_written i = written

abbrev pub Reflects : Manifest → Type 0
Reflects m = Rebuilds m.file m.contents

maybe_snapshot-Reflects :
    (m : Manifest)
    → Reflects m
    → IsRecord (snapshot_of m.contents)
    → Reflects ((maybe_snapshot all_written m).0)
unfolding maybe_snapshot write_record
maybe_snapshot-Reflects m h v =
    let c = m.contents in
    elim (Bool-cases (ltb m.records_since_snapshot snapshot_interval)) [
      | inl few ↦ rw few h
      | inr many ↦ rw many (
          snoc_same-Rebuilds (m.file ++ encode_record (snapshot_of c)) c (ids_of c)
            (snoc_same-Rebuilds m.file c (snapshot_of c) h v (snapshot_same c h.sound))
            h.sound.counters (ids_same c))
    ]

-- What a call writes fits the format, and so does a snapshot of what it leaves.
abbrev pub Fits : Record → Manifest → Type 0
Fits r m = IsRecord r × IsRecord (snapshot_of (apply_record r m.contents))

pub data Reached : Manifest → Type 0 where
  created :
      (mem seq : ℕ) (m : Manifest)
      → create written mem seq ≡ some m
      → IsRecord (next_ids mem seq)
      → Reached m
  added :
      (m : Manifest) (info : SsTableInfo)
      → Reached m
      → Fits (sstable_added info) m
      → Reached ((add_sstable all_written info m).0)
  removed :
      (m : Manifest) (id level : ℕ)
      → Reached m
      → Fits (sstable_removed id level) m
      → Reached ((remove_sstable all_written id level m).0)
  updated :
      (m : Manifest) (mem seq : ℕ)
      → Reached m
      → IsRecord (next_ids mem seq)
      → Reached ((update_next_ids all_written mem seq m).0)
  snapshotted :
      (m : Manifest) (h : HnswSnapshotInfo)
      → Reached m
      → IsRecord (hnsw_snapshot h)
      → Reached ((add_hnsw_snapshot all_written h m).0)

from_option : Manifest → Option Manifest → Manifest
from_option m none = m
from_option m (some x) = x

-- The manifest that Create returns.
abbrev pub fresh : ℕ → ℕ → Manifest
fresh mem seq = record {
  contents = record empty { next_mem_id = mem; next_seq = seq };
  records_since_snapshot = 1;
  file = encode_record (next_ids mem seq);
}

pub create-fresh : (mem seq : ℕ) → create written mem seq ≡ some (fresh mem seq)
unfolding create write_record
create-fresh mem seq = refl

fresh-Reflects : (mem seq : ℕ) → IsRecord (next_ids mem seq) → Reflects (fresh mem seq)
unfolding log_bytes apply_all apply_record
fresh-Reflects mem seq v = record {
  log = next_ids mem seq ∷ [];
  valid = (v, tt);
  in_file = sym (append-nil (encode_record (next_ids mem seq)));
  rebuilt = refl;
  sound = record { ids = tt; collections = tt; counters = v };
}

create-Reflects :
    (mem seq : ℕ) (m : Manifest)
    → create written mem seq ≡ some m
    → IsRecord (next_ids mem seq)
    → Reflects m
unfolding from_option
create-Reflects mem seq m e v =
    subst Reflects (ap (from_option m) (sym (create-fresh mem seq) ∙ e)) (fresh-Reflects mem seq v)

module _ (m : Manifest) (h : Reflects m) where
  added-Reflects :
      (info : SsTableInfo)
      → Fits (sstable_added info) m
      → Reflects ((add_sstable all_written info m).0)
  unfolding add_sstable write_record
  added-Reflects info (v, s) =
      maybe_snapshot-Reflects _ (snoc-Rebuilds m.file m.contents (sstable_added info) h v) s

  removed-Reflects :
      (id level : ℕ)
      → Fits (sstable_removed id level) m
      → Reflects ((remove_sstable all_written id level m).0)
  unfolding remove_sstable write_record
  removed-Reflects id level (v, s) =
      maybe_snapshot-Reflects _ (snoc-Rebuilds m.file m.contents (sstable_removed id level) h v) s

  updated-Reflects :
      (mem seq : ℕ)
      → IsRecord (next_ids mem seq)
      → Reflects ((update_next_ids all_written mem seq m).0)
  unfolding update_next_ids write_record
  updated-Reflects mem seq v = snoc-Rebuilds m.file m.contents (next_ids mem seq) h v

  snapshotted-Reflects :
      (s : HnswSnapshotInfo)
      → IsRecord (hnsw_snapshot s)
      → Reflects ((add_hnsw_snapshot all_written s m).0)
  unfolding add_hnsw_snapshot write_record
  snapshotted-Reflects s v = snoc-Rebuilds m.file m.contents (hnsw_snapshot s) h v

pub Reached-Reflects : (m : Manifest) → Reached m → Reflects m
Reached-Reflects m (created mem seq m' e v) = create-Reflects mem seq m' e v
Reached-Reflects m (added m' info h f) = added-Reflects m' (Reached-Reflects m' h) info f
Reached-Reflects m (removed m' id level h f) =
    removed-Reflects m' (Reached-Reflects m' h) id level f
Reached-Reflects m (updated m' mem seq h v) = updated-Reflects m' (Reached-Reflects m' h) mem seq v
Reached-Reflects m (snapshotted m' s h v) = snapshotted-Reflects m' (Reached-Reflects m' h) s v

-- After any sequence of calls whose writes succeed and whose records fit the format, and then a
-- write that only a proper prefix of its record survives, `Open` rebuilds the contents that the
-- manifest has in memory.
pub open-Reached :
    (m : Manifest) (r : Record) (n : ℕ)
    → Reached m
    → IsRecord r
    → n < length (encode_record r)
    → open_manifest ((write_record (torn n) r m).0.file) ≡ opened m.contents
unfolding write_record
open-Reached m r n h v l =
    let f = Reached-Reflects m h in
    let t : IsTorn (take n (encode_record r)) = record {
      rec = r;
      valid = v;
      missing = drop n (encode_record r);
      is_prefix = take-drop n (encode_record r);
      incomplete = omega (arith, length-drop n (encode_record r), l);
    } in
    ap (λ (bs : Bytes). open_manifest (bs ++ take n (encode_record r))) f.in_file
    ∙ open-log_bytes f.log _ f.valid t
    ∙ ap opened f.rebuilt
