-- ===== src/Db/Scan/Buffered.antt =====
-- db/transaction.go: the sorted buffer that a transaction's scan merges in.
use lithicdb.Common.{
  ℕ, ◌+◌, ◌≡◌, refl, List, [], ◌∷◌, length, length-map, map, arith, Bool-cases, inl, inr,
}
use lithicdb.Common.Bytes.{All, bytes_lt, NotAfter, NotAfter-trans, compare_bytes-flip}
use lithicdb.Common.Names.{All-map}
use lithicdb.Kv.{IsSeq}
use lithicdb.Kv.Key.{user_key-make_internal_key, seq_num-make_internal_key}
use lithicdb.Iterator.{Entry, WriteBufferEntry, entry_of}
use lithicdb.Iterator.Merge.Sources.{KeysSorted}
use lithicdb.Iterator.Merge.Round.{IsOrderly}
use lithicdb.Iterator.Scans.{HasWidth}
use lithicdb.Db.Transaction.{Writes}
use lithicdb.Db.Scan.{insert_entry, sort_entries, buffer_entry, buffer_source}

insert_entry-All {ℓ} :
    (P : WriteBufferEntry → Type ℓ) (e : WriteBufferEntry) (es : List WriteBufferEntry)
    → P e
    → All P es
    → All P (insert_entry e es)
unfolding insert_entry
insert_entry-All P e [] p a = (p, tt)
insert_entry-All P e (f ∷ fs) p a = elim (Bool-cases (bytes_lt f.key e.key)) [
  | inl h ↦ rw h ((a.0, insert_entry-All P e fs p a.1))
  | inr h ↦ rw h ((p, a))
]

sort_entries-All {ℓ} :
    (P : WriteBufferEntry → Type ℓ) (es : List WriteBufferEntry)
    → All P es
    → All P (sort_entries es)
unfolding sort_entries
sort_entries-All P [] a = tt
sort_entries-All P (e ∷ es) a =
    insert_entry-All P e (sort_entries es) a.0 (sort_entries-All P es a.1)

abbrev BufferSorted : List WriteBufferEntry → Type 0
BufferSorted [] = Unit
BufferSorted (e ∷ es) = All (λ f. NotAfter e.key f.key) es × BufferSorted es

insert_entry-BufferSorted :
    (e : WriteBufferEntry) (es : List WriteBufferEntry)
    → BufferSorted es
    → BufferSorted (insert_entry e es)
unfolding insert_entry
insert_entry-BufferSorted e [] s = (tt, tt)
insert_entry-BufferSorted e (f ∷ fs) s = elim (Bool-cases (bytes_lt f.key e.key)) [
  | inl h ↦
      let before : NotAfter f.key e.key = ground (arith, h, compare_bytes-flip f.key e.key) in
      rw h (
        (
          insert_entry-All (λ g. NotAfter f.key g.key) e fs before s.0,
          insert_entry-BufferSorted e fs s.1,
        ))
  | inr h ↦ rw h (
      (
        (
          h,
          All-map _ _ fs (λ g (p : NotAfter f.key g.key). NotAfter-trans e.key f.key g.key h p) s.0,
        ),
        s,
      ))
]

sort_entries-BufferSorted : (es : List WriteBufferEntry) → BufferSorted (sort_entries es)
unfolding sort_entries
sort_entries-BufferSorted [] = tt
sort_entries-BufferSorted (e ∷ es) =
    insert_entry-BufferSorted e (sort_entries es) (sort_entries-BufferSorted es)

All-map_entry {ℓ} :
    (P : Entry → Type ℓ) (es : List WriteBufferEntry)
    → All (λ e. P (entry_of e)) es
    → All P (map entry_of es)
All-map_entry P [] a = tt
All-map_entry P (e ∷ es) a = (a.0, All-map_entry P es a.1)

entries-KeysSorted : (es : List WriteBufferEntry) → BufferSorted es → KeysSorted (map entry_of es)
entries-KeysSorted [] s = tt
entries-KeysSorted (e ∷ es) s =
    (All-map_entry (λ f. NotAfter e.key f.key) es s.0, entries-KeysSorted es s.1)

module _ (n seq : ℕ) (bound : IsSeq seq) where
  buffer_entry-HasWidth :
      (ws : Writes)
      → All (λ w. length w.0 ≡ n) ws
      → All (λ e. HasWidth n (entry_of e)) (map (buffer_entry seq) ws)
  buffer_entry-HasWidth [] a = tt
  buffer_entry-HasWidth ((k, v) ∷ ws) a = (
    record {
      internal = record {
        made = rw (user_key-make_internal_key k seq, seq_num-make_internal_key k seq bound);
        bounded = rw (seq_num-make_internal_key k seq bound) bound;
      };
      width = rw (user_key-make_internal_key k seq) a.0;
    },
    buffer_entry-HasWidth ws a.1,
  )

  pub buffer_source-IsOrderly : (ws : Writes) → IsOrderly (buffer_source seq ws)
  unfolding buffer_source
  buffer_source-IsOrderly ws =
      (entries-KeysSorted _ (sort_entries-BufferSorted (map (buffer_entry seq) ws)), refl)

  pub buffer_source-HasWidth :
      (ws : Writes) → All (λ w. length w.0 ≡ n) ws → All (HasWidth n) (buffer_source seq ws).entries
  unfolding buffer_source
  buffer_source-HasWidth ws a =
      All-map_entry (HasWidth n) _ (sort_entries-All _ _ (buffer_entry-HasWidth ws a))

length-insert_entry :
    (e : WriteBufferEntry) (es : List WriteBufferEntry) → length (insert_entry e es) ≡ length es + 1
unfolding insert_entry
length-insert_entry e [] = omega arith
length-insert_entry e (f ∷ fs) = elim (Bool-cases (bytes_lt f.key e.key)) [
  | inl h ↦ rw h (omega (arith, length-insert_entry e fs))
  | inr h ↦ rw h (omega arith)
]

pub length-buffer_source :
    (seq : ℕ) (ws : Writes) → length (buffer_source seq ws).entries ≡ length ws
unfolding buffer_source sort_entries
length-buffer_source seq [] = refl
length-buffer_source seq (w ∷ ws) =
    let sorted = sort_entries (map (buffer_entry seq) ws) in
    omega (
      arith,
      length-map (insert_entry (buffer_entry seq w) sorted) entry_of,
      length-map sorted entry_of,
      length-insert_entry (buffer_entry seq w) sorted,
      length-buffer_source seq ws,
    )
