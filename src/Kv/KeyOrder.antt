-- ===== src/Kv/KeyOrder.antt =====
-- kv/key.go: how `bytes.Compare` orders internal keys.
use Prim.Native.Nat.{compare, Ordering}
use lithicdb.Common.{
  ℕ, ◌-◌, ◌/◌, ◌%◌, ◌^◌, ◌<◌, ◌≡◌, refl, ◌≢◌, ◌⊎◌, inl, inr, ap, ◌∙◌, [], ◌∷◌, ◌++◌, append_assoc,
  arith, length,
}
use lithicdb.Common.Bytes.{
  Bytes, compare_bytes, compare_bytes_refl, compare_bytes-append, compare_bytes_prefix,
  then_compare,
}
use lithicdb.Common.Endian.{big_endian, compare-big_endian, length-big_endian, big_endian-cons}
use lithicdb.Kv.{IsSeq, max_seq_num, make_internal_key, make_search_key}

-- Neither key is a prefix of the other.
abbrev pub Apart : Bytes → Bytes → Type 0
Apart [] ys = ⊥
Apart (x ∷ xs) [] = ⊥
Apart (x ∷ xs) (y ∷ ys) = (x ≢ y) ⊎ Apart xs ys

-- The keys that a table of fixed-size or prefix-free keys may hold together.
abbrev pub Comparable : Bytes → Bytes → Type 0
Comparable u v = (length u ≡ length v) ⊎ Apart u v

compare_inverted :
    (s t : ℕ)
    → IsSeq s
    → IsSeq t
    → compare_bytes (big_endian 8 (max_seq_num - s)) (big_endian 8 (max_seq_num - t)) ≡ compare t s
compare_inverted s t hs ht =
    ground
      (arith, compare-big_endian 8 (max_seq_num - s) (max_seq_num - t) (omega arith) (omega arith))

compare-append-Apart :
    (u v p q : Bytes)
    → Apart u v
    → compare_bytes (u ++ p) (v ++ q) ≡ then_compare (compare_bytes u v) (compare_bytes p q)
unfolding compare_bytes
compare-append-Apart [] v p q h = absurd h
compare-append-Apart (x ∷ xs) [] p q h = absurd h
compare-append-Apart (x ∷ xs) (y ∷ ys) p q (inl ne) = ground arith
compare-append-Apart (x ∷ xs) (y ∷ ys) p q (inr h) =
    ground (arith, compare-append-Apart xs ys p q h)

compare-append-Comparable :
    (u v p q : Bytes)
    → Comparable u v
    → length p ≡ length q
    → compare_bytes (u ++ p) (v ++ q) ≡ then_compare (compare_bytes u v) (compare_bytes p q)
compare-append-Comparable u v p q (inl e) _ = compare_bytes-append u v p q e
compare-append-Comparable u v p q (inr h) _ = compare-append-Apart u v p q h

same_width :
    (s t : ℕ) → length (big_endian 8 (max_seq_num - s)) ≡ length (big_endian 8 (max_seq_num - t))
same_width s t = rw (length-big_endian 8 (max_seq_num - s), length-big_endian 8 (max_seq_num - t))

-- Internal keys of comparable user keys are ordered by the user key, and for one user key by the
-- sequence number, the newest first.
pub compare-make_internal_key :
    (u v : Bytes) (s t : ℕ)
    → Comparable u v
    → IsSeq s
    → IsSeq t
    → compare_bytes (make_internal_key u s) (make_internal_key v t)
      ≡ then_compare (compare_bytes u v) (compare t s)
unfolding make_internal_key
compare-make_internal_key u v s t h hs ht = rw (
  compare-append-Comparable u v _ (big_endian 8 (max_seq_num - t)) h (same_width s t),
  compare_inverted s t hs ht,
)

-- The search key comes before, or is, each version of its user key.
compare-make_search_key :
    (u : Bytes) (s : ℕ)
    → IsSeq s
    → compare_bytes (make_search_key u) (make_internal_key u s) ≢ Ordering.gt
unfolding make_search_key
compare-make_search_key u s hs = ground (
  arith,
  compare-make_internal_key u u max_seq_num s (inl refl) (omega arith) hs,
  compare_bytes_refl u,
)

-- An old version's inverted sequence number starts with the byte 255.
first_inverted_byte :
    (s : ℕ) → s < 2 ^ 56 → big_endian 8 (max_seq_num - s) ≡ 255 ∷ big_endian 7 (max_seq_num - s)
first_inverted_byte s h =
    let e : (max_seq_num - s) / 256 ^ 7 % 256 ≡ 255 = omega arith in
    big_endian-cons 7 (max_seq_num - s) ∙ ap (λ (b : ℕ). b ∷ big_endian 7 (max_seq_num - s)) e

extension_after : (u rest : Bytes) (x : ℕ) → compare_bytes u (u ++ x ∷ rest) ≡ Ordering.lt
unfolding compare_bytes
extension_after [] rest x = refl
extension_after (b ∷ bs) rest x = ground (arith, extension_after bs rest x)

-- A user key that another one extends is sorted the other way round: every version of it with a
-- sequence number below 2 ^ 56 comes after the extension, unless that goes on with the byte 255.
pub prefix_disorder :
    (u rest : Bytes) (x s t : ℕ)
    → x < 255
    → s < 2 ^ 56
    → (compare_bytes u (u ++ x ∷ rest) ≡ Ordering.lt)
      × (compare_bytes (make_internal_key u s) (make_internal_key (u ++ x ∷ rest) t) ≡ Ordering.gt)
unfolding make_internal_key
prefix_disorder u rest x s t hx hs = (
  extension_after u rest x,
  rw (append_assoc, first_inverted_byte s hs, compare_bytes_prefix)
      (unfold compare_bytes in ground arith),
)
