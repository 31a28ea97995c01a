-- ===== src/Compaction/Runs.antt =====
-- compaction: three tables of level 1 and the inputs of a compaction.
use lithicdb.Common.{ℕ, ◌≡◌, ◌↔◌, refl, List, [], ◌∷◌, length}
use lithicdb.Common.Bytes.{Bytes, All, NotAfter, compare_bytes}
use lithicdb.Common.Names.{keep}
use lithicdb.Common.Endian.{big_endian}
use lithicdb.Kv.{make_internal_key, user_key}
use lithicdb.Compaction.{TableHandle, find_overlapping, overlaps}
use lithicdb.Compaction.Ranges.{IsOrdered, Shares, find_overlapping_exact}
use mathlib.Core.List.{Memᴰ}

abbrev ikey : ℕ → Bytes
ikey b = make_internal_key (b ∷ []) 1

abbrev table : ℕ → ℕ → TableHandle
table first last = record {
  id = first;
  first_key = ikey first;
  last_key = ikey last;
  file_size = 100;
}

abbrev level_one : List TableHandle
level_one = table b'a' b'c' ∷ table b'd' b'f' ∷ table b'g' b'k' ∷ []

abbrev inputs : List TableHandle
inputs = table b'e' b'h' ∷ table b'd' b'e' ∷ []

bounds_in_order : NotAfter (user_key (ikey b'd')) (user_key (ikey b'h'))
unfolding user_key make_internal_key big_endian compare_bytes
bounds_in_order = refl

level_one-IsOrdered : All IsOrdered level_one
unfolding user_key make_internal_key big_endian compare_bytes
level_one-IsOrdered = (refl, (refl, (refl, tt)))

find_overlapping_exact_example :
    Memᴰ (table b'd' b'f') (find_overlapping level_one (ikey b'd') (ikey b'h'))
    ↔ (Memᴰ (table b'd' b'f') level_one × Shares (ikey b'd') (ikey b'h') (table b'd' b'f'))
find_overlapping_exact_example =
    find_overlapping_exact (ikey b'd') (ikey b'h') bounds_in_order level_one (table b'd' b'f')
      level_one-IsOrdered

-- The first table is left out, the two others are found.
found_two : length (find_overlapping level_one (ikey b'd') (ikey b'h')) ≡ 2
unfolding find_overlapping overlaps keep user_key make_internal_key big_endian compare_bytes
found_two = refl
