-- ===== src/Iterator/Runs.antt =====
-- iterator: runs of the snapshot iterator.
use lithicdb.Common.{ℕ, ◌≡◌, refl, inl, false, some, [], ◌∷◌, ◌++◌, List, inr, arith}
use lithicdb.Common.Bytes.{Bytes, All, compare_bytes}
use lithicdb.Common.Names.{mem, keep}
use lithicdb.Common.Endian.{big_endian, from_big_endian}
use lithicdb.Kv.{make_internal_key, user_key, seq_num}
use lithicdb.Iterator.{Entry, Source}
use lithicdb.Iterator.Snapshot.{new_snapshot_iterator, scan}
use lithicdb.Iterator.Visible.{newest_visible, HasKey, is_visible, IsHiddenOrEmpty, scan_repeats}
use lithicdb.Iterator.Grouped.{IsSorted, scan-IsSorted}

abbrev version : Bytes → ℕ → Entry
version u s = record { key = make_internal_key u s; value = some u }

abbrev key_a : Bytes
key_a = b'a' ∷ []

abbrev key_b : Bytes
key_b = b'b' ∷ []

-- Two versions of `a`, one of `b`.
abbrev stream : Source
stream = record {
  entries = version key_a 5 ∷ version key_a 2 ∷ version key_b 3 ∷ [];
  fails = false;
}

stream-IsSorted : IsSorted stream.entries
unfolding make_internal_key big_endian user_key seq_num from_big_endian compare_bytes
stream-IsSorted = (
  record { made = refl; bounded = omega arith },
  (
    record { in_order = refl; apart = inl refl },
    (record { in_order = refl; apart = inl refl }, tt),
  ),
  (
    record { made = refl; bounded = omega arith },
    (record { in_order = refl; apart = inl refl }, tt),
    (record { made = refl; bounded = omega arith }, tt, tt),
  ),
)

stream-HasKey : All HasKey stream.entries
unfolding make_internal_key big_endian user_key
stream-HasKey = (omega arith, (omega arith, (omega arith, tt)))

scan-IsSorted_example :
    scan 4 (new_snapshot_iterator stream 4) ≡ some (newest_visible 4 [] stream.entries)
scan-IsSorted_example = scan-IsSorted stream 4 4 stream-HasKey stream-IsSorted (omega arith)

stream_scanned :
    scan 4 (new_snapshot_iterator stream 4) ≡ some (version key_a 2 ∷ version key_b 3 ∷ [])
unfolding newest_visible make_internal_key big_endian user_key seq_num from_big_endian compare_bytes
    mem
stream_scanned = scan-IsSorted_example

-- Two versions of the empty key, and one of `b` behind them.
abbrev twice : List Entry
twice = version [] 2 ∷ version [] 1 ∷ []

twice-IsHiddenOrEmpty : All (IsHiddenOrEmpty 3) twice
unfolding make_internal_key big_endian user_key
twice-IsHiddenOrEmpty = (inr refl, (inr refl, tt))

scan_repeats_example :
    (out : List Entry) × (scan 4
        (new_snapshot_iterator (record { entries = version key_b 3 ∷ []; fails = false }) 3)
      ≡ some out)
    × (scan 4 (
          new_snapshot_iterator
            (record { entries = twice ++ (version key_b 3 ∷ []); fails = false })
            3)
        ≡ some (keep (is_visible 3) twice ++ out))
scan_repeats_example =
    scan_repeats twice (version key_b 3 ∷ []) false 3 4 twice-IsHiddenOrEmpty (omega arith)

-- Both versions of the empty key are visible.
both_given : keep (is_visible 3) twice ≡ twice
unfolding keep make_internal_key big_endian seq_num from_big_endian
both_given = refl
