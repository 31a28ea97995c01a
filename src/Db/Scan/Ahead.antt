-- ===== src/Db/Scan/Ahead.antt =====
-- db/transaction.go: a transaction's scan reads one number further than its snapshot.
use lithicdb.Common.{
  ℕ, ◌+◌, ◌%◌, ◌^◌, ◌<◌, ◌≡◌, refl, ap, ◌∙◌, Option, none, some, List, [], ◌∷◌, ◌++◌, length,
  length-append, map, arith, Bool, true, false, ◌&&◌, ◌||◌, ◌==◌,
}
use lithicdb.Common.Bytes.{Bytes, All, bytes_eq}
use lithicdb.Common.Names.{mem, bytes_eq_sym, eq_of_bytes_eq}
use lithicdb.Kv.{seq_num}
use lithicdb.Iterator.{Entry, Source}
use lithicdb.Iterator.Visible.{newest_visible, user_key_of}
use lithicdb.Iterator.Merge.Sources.{all_entries, any_entry, any_entry-append}
use lithicdb.Iterator.Merge.Round.{IsOrderly}
use lithicdb.Iterator.Merge.Errors.{merged_source_sound}
use lithicdb.Common.Names.{All-map}
use lithicdb.Iterator.Scans.{source_of, scan_merged, HasWidth, scan_merged_all}
use lithicdb.Iterator.Merge.Output.{merge_scan_all}
use lithicdb.Db.Engine.{Engine, Table}
use lithicdb.Db.Transaction.{Transaction}
use lithicdb.Db.Scan.Buffered.{
  buffer_source-IsOrderly, buffer_source-HasWidth, length-buffer_source,
}
use lithicdb.Db.Scan.{raw_sources, buffer_source, buffer_seq, transaction_scan}

abbrev pub is_version_at : Bytes → ℕ → Entry → Bool
is_version_at u s e = bytes_eq (user_key_of e) u && (seq_num e.key == s)

-- A key of which an entry has the number of the snapshot is among the keys of the scan.
shown :
    (u : Bytes) (s : ℕ) (seen : List Bytes) (es : List Entry)
    → any_entry (is_version_at u s) es ≡ true
    → (mem u seen || mem u (map user_key_of (newest_visible s seen es))) ≡ true
unfolding any_entry newest_visible mem
shown u s seen [] h = cc
shown u s seen (e ∷ es) h = ground (
  arith,
  h,
  shown u s seen es,
  shown u s (user_key_of e ∷ seen) es,
  bytes_eq_sym u (user_key_of e),
  same_mem,
)
  where
    same_mem : bytes_eq (user_key_of e) u ≡ true → mem (user_key_of e) seen ≡ mem u seen
    same_mem k = ap (λ (y : Bytes). mem y seen) (eq_of_bytes_eq (user_key_of e) u k)

length-two :
    (a b : List Entry) → length (all_entries (source_of a ∷ source_of b ∷ [])) ≡ length a + length b
unfolding all_entries
length-two a b = omega (arith, length-append a (b ++ []), length-append b [])

any_entry-two :
    (p : Entry → Bool) (a b : List Entry)
    → any_entry p (all_entries (source_of a ∷ source_of b ∷ [])) ≡ (any_entry p a || any_entry p b)
unfolding all_entries any_entry
any_entry-two p a b = ground (arith, any_entry-append p a (b ++ []), any_entry-append p b [])

-- When the memtables and the tables give internal keys in order, without errors, with user keys of one
-- length that is not 0, the length of the buffered keys too: an entry of any layer whose number is one
-- above the transaction's snapshot, and so was written after it, has its key among those that the
-- transaction's scan gives.
pub transaction_scan_ahead :
    (table_scan : Table → Source) (db : Engine) (tx : Transaction) (u : Bytes) (n fuel : ℕ)
    → 0 < n
    → All IsOrderly (raw_sources table_scan db)
    → All (λ s. All (HasWidth n) s.entries) (raw_sources table_scan db)
    → All (λ w. length w.0 ≡ n) tx.writes
    → tx.snapshot.seq + 1 < 2 ^ 64
    → length tx.writes + length (all_entries (raw_sources table_scan db)) < fuel
    → any_entry (is_version_at u (tx.snapshot.seq + 1)) (all_entries (raw_sources table_scan db))
      ≡ true
    → (given : List Entry) × (transaction_scan table_scan fuel db tx ≡ some given)
      × (mem u (map user_key_of given) ≡ true)
unfolding transaction_scan all_entries mem
transaction_scan_ahead table_scan db tx u n fuel pos ok wide keys bound h there =
    let (raw, scanned, merged) = merge_scan_all (raw_sources table_scan db) fuel ok (omega arith) in
    let clean = All-map IsOrderly (λ s. s.fails ≡ false) _ (λ s (o : IsOrderly s). o.1) ok in
    let ended = merged_source_sound fuel (raw_sources table_scan db) raw clean scanned in
    let seq = tx.snapshot.seq + 1 in
    let number : (tx.snapshot.seq + 1) % 2 ^ 64 ≡ seq = omega arith in
    let buffer = buffer_source seq tx.writes in
    let version = is_version_at u seq in
    let two = buffer ∷ source_of raw ∷ [] in
    let (out, both, given) =
      scan_merged_all n two seq fuel pos
        ((buffer_source-IsOrderly n seq bound tx.writes, ((merged.sorted, refl), tt)))
        ((buffer_source-HasWidth n seq bound tx.writes keys, (merged.every (HasWidth n) wide, tt)))
        (omega (
          arith,
          length-two buffer.entries raw,
          length-buffer_source seq tx.writes,
          merged.counted,
        )) in
    let found : any_entry (is_version_at u seq) out ≡ true =
      both.same_tests version
      ∙ (ground
          (arith, any_entry-two version buffer.entries raw, merged.same_tests version, there)) in
    (
      newest_visible seq [] out,
      ap
            (λ (o : Option Source). elim o [
              | none ↦ none
              | some given ↦
                  scan_merged fuel (buffer_seq tx)
                    (buffer_source (buffer_seq tx) tx.writes ∷ given ∷ [])
            ])
            ended
          ∙ ap (λ k. scan_merged fuel k (buffer_source k tx.writes ∷ source_of raw ∷ [])) number
          ∙ given,
      shown u seq [] out found,
    )
