-- ===== src/Kv/Key.antt =====
-- kv/key.go: an internal key and its two parts.
use lithicdb.Common.{
  ℕ, zero, suc, ◌+◌, ◌-◌, ◌≡◌, refl, ◌∙◌, ◌↔◌, true, some, [], arith, length, length-append, take,
  drop,
}
use lithicdb.Common.Bytes.{Bytes, bytes_eq_iff}
use lithicdb.Common.Endian.{big_endian, from_big_endian, length-big_endian, from_big_endian_lem}
use lithicdb.Common.Slices.{take_append, drop_append}
use lithicdb.Kv.{
  IsSeq, max_seq_num, make_internal_key, parse_internal_key, user_key, seq_num, same_user_key,
}

take_zero : (n : ℕ) (xs : Bytes) → n ≡ 0 → take n xs ≡ []
take_zero zero xs h = refl
take_zero (suc n) xs h = absurd (omega arith)

user_key-take : (ikey : Bytes) → user_key ikey ≡ take (length ikey - 8) ikey
unfolding user_key
user_key-take ikey = ground (arith, take_zero (length ikey - 8) ikey)

module _ (u : Bytes) (s : ℕ) where
  pub length-make_internal_key : length (make_internal_key u s) ≡ length u + 8
  unfolding make_internal_key
  length-make_internal_key = omega (
    arith,
    length-append u (big_endian 8 (max_seq_num - s)),
    length-big_endian 8 (max_seq_num - s),
  )

  take_boundary : take (length (make_internal_key u s) - 8) (make_internal_key u s) ≡ u
  take_boundary =
      let e : length (make_internal_key u s) - 8 ≡ length u =
        omega (arith, length-make_internal_key) in
      rw e (unfold make_internal_key in take_append (length u) u _ refl)

  drop_boundary :
      drop (length (make_internal_key u s) - 8) (make_internal_key u s)
      ≡ big_endian 8 (max_seq_num - s)
  drop_boundary =
      let e : length (make_internal_key u s) - 8 ≡ length u =
        omega (arith, length-make_internal_key) in
      rw e (unfold make_internal_key in drop_append (length u) u _ refl)

  inverted : IsSeq s → max_seq_num - from_big_endian 0 (big_endian 8 (max_seq_num - s)) ≡ s
  inverted h = omega (arith, from_big_endian_lem 8 (max_seq_num - s) (omega arith))

  pub user_key-make_internal_key : user_key (make_internal_key u s) ≡ u
  user_key-make_internal_key = user_key-take (make_internal_key u s) ∙ take_boundary

  pub seq_num-make_internal_key : IsSeq s → seq_num (make_internal_key u s) ≡ s
  unfolding seq_num
  seq_num-make_internal_key h = ground (arith, length-make_internal_key, drop_boundary, inverted h)

  -- Parsing an internal key gives back the user key and the sequence number it was made of.
  pub parse-make_internal_key : IsSeq s → parse_internal_key (make_internal_key u s) ≡ some (u, s)
  unfolding parse_internal_key
  parse-make_internal_key h =
      ground (arith, length-make_internal_key, take_boundary, drop_boundary, inverted h)

-- The three accessors agree on every slice that parses.
pub parse_internal_key_parts :
    (ikey u : Bytes) (s : ℕ)
    → parse_internal_key ikey ≡ some (u, s)
    → (user_key ikey ≡ u) × (seq_num ikey ≡ s)
unfolding parse_internal_key seq_num
parse_internal_key_parts ikey u s h = ground (arith, user_key-take ikey)

pub same_user_key-make_internal_key :
    (u v : Bytes) (s t : ℕ)
    → (same_user_key (make_internal_key u s) (make_internal_key v t) ≡ true) ↔ (u ≡ v)
unfolding same_user_key
same_user_key-make_internal_key u v s t =
    rw (user_key-make_internal_key u s, user_key-make_internal_key v t) (bytes_eq_iff u v)
