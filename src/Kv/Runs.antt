-- ===== src/Kv/Runs.antt =====
-- kv: runs on concrete keys.
use Prim.Native.Nat.{Ordering, compare}
use lithicdb.Common.{◌≡◌, refl, inl, none, some, [], ◌∷◌, arith}
use lithicdb.Common.Bytes.{Bytes, compare_bytes, then_compare}
use lithicdb.Common.Endian.{big_endian, from_big_endian}
use lithicdb.Kv.{make_internal_key, parse_internal_key}
use lithicdb.Kv.KeyOrder.{compare-make_internal_key, prefix_disorder}

abbrev key_a : Bytes
key_a = b'a' ∷ []

abbrev key_b : Bytes
key_b = b'b' ∷ []

make_a_5 : make_internal_key key_a 5 ≡ b'a' ∷ 255 ∷ 255 ∷ 255 ∷ 255 ∷ 255 ∷ 255 ∷ 255 ∷ 250 ∷ []
unfolding make_internal_key big_endian
make_a_5 = refl

parse_short : parse_internal_key (b's' ∷ b'h' ∷ b'o' ∷ []) ≡ none
unfolding parse_internal_key
parse_short = refl

parse_a_5 :
    parse_internal_key (b'a' ∷ 255 ∷ 255 ∷ 255 ∷ 255 ∷ 255 ∷ 255 ∷ 255 ∷ 250 ∷ []) ≡ some (key_a, 5)
unfolding parse_internal_key from_big_endian
parse_a_5 = refl

compare-make_internal_key_example :
    compare_bytes (make_internal_key key_a 100) (make_internal_key key_b 1)
    ≡ then_compare (compare_bytes key_a key_b) (compare 1 100)
compare-make_internal_key_example =
    compare-make_internal_key key_a key_b 100 1 (inl refl) (omega arith) (omega arith)

prefix_disorder_example :
    (compare_bytes key_a (b'a' ∷ b'b' ∷ []) ≡ Ordering.lt)
    × (compare_bytes (make_internal_key key_a 1) (make_internal_key (b'a' ∷ b'b' ∷ []) 2)
        ≡ Ordering.gt)
prefix_disorder_example = prefix_disorder key_a [] b'b' 1 2 (omega arith) (omega arith)
