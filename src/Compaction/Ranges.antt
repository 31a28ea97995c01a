-- ===== src/Compaction/Ranges.antt =====
-- compaction/picker.go: the key range of the inputs, and which tables overlap it.
use lithicdb.Common.{
  ◌≡◌, refl, true, false, Bool-cases, inl, inr, List, [], ◌∷◌, arith, if◌then◌else◌, ◌↔◌, sym,
}
use lithicdb.Common.Bytes.{
  Bytes, All, bytes_lt, NotAfter, NotAfter-trans, compare_bytes_refl, compare_bytes-flip,
}
use lithicdb.Common.Names.{keep}
use mathlib.Core.Path.{subst}
use mathlib.Core.List.{Memᴰ}
use mathlib.Core.List.Memᴰ
use lithicdb.Kv.{user_key}
use lithicdb.Compaction.{TableHandle, lower, upper, key_range, overlaps, find_overlapping}

NotAfter-refl : (a : Bytes) → NotAfter a a
NotAfter-refl a = ground (arith, compare_bytes_refl a)

lt_NotAfter : (a b : Bytes) → bytes_lt a b ≡ true → NotAfter a b
lt_NotAfter a b h = ground (arith, compare_bytes-flip a b)

-- No key of the handle's table is outside the range.
abbrev pub Within : Bytes → Bytes → TableHandle → Type 0
Within low high h = NotAfter low h.first_key × NotAfter h.last_key high

abbrev smaller : Bytes → Bytes → Bytes
smaller a b = if bytes_lt a b then a else b

smaller-NotAfter : (a b : Bytes) → NotAfter (smaller a b) a × NotAfter (smaller a b) b
smaller-NotAfter a b = elim (Bool-cases (bytes_lt a b)) [
  | inl e ↦ rw e ((NotAfter-refl a, lt_NotAfter a b e))
  | inr e ↦ rw e ((e, NotAfter-refl b))
]

abbrev greater : Bytes → Bytes → Bytes
greater a b = if bytes_lt b a then a else b

NotAfter-greater : (a b : Bytes) → NotAfter a (greater a b) × NotAfter b (greater a b)
NotAfter-greater a b = elim (Bool-cases (bytes_lt b a)) [
  | inl e ↦ rw e ((NotAfter-refl a, lt_NotAfter b a e))
  | inr e ↦ rw e ((e, NotAfter-refl b))
]

lower-NotAfter :
    (hs : List TableHandle) (low : Bytes)
    → NotAfter (lower low hs) low × All (λ h. NotAfter (lower low hs) h.first_key) hs
unfolding lower
lower-NotAfter [] low = (NotAfter-refl low, tt)
lower-NotAfter (h ∷ hs) low =
    let next = smaller h.first_key low in
    let rest = lower-NotAfter hs next in
    let bounds = smaller-NotAfter h.first_key low in
    (
      NotAfter-trans (lower next hs) next low rest.0 bounds.1,
      (NotAfter-trans (lower next hs) next h.first_key rest.0 bounds.0, rest.1),
    )

upper-NotAfter :
    (hs : List TableHandle) (high : Bytes)
    → NotAfter high (upper high hs) × All (λ h. NotAfter h.last_key (upper high hs)) hs
unfolding upper
upper-NotAfter [] high = (NotAfter-refl high, tt)
upper-NotAfter (h ∷ hs) high =
    let next = greater h.last_key high in
    let rest = upper-NotAfter hs next in
    let bounds = NotAfter-greater h.last_key high in
    (
      NotAfter-trans high next (upper next hs) bounds.1 rest.0,
      (NotAfter-trans h.last_key next (upper next hs) bounds.0 rest.0, rest.1),
    )

All_pair :
    (P Q : TableHandle → Type 0) (hs : List TableHandle)
    → All P hs
    → All Q hs
    → All (λ h. P h × Q h) hs
All_pair P Q [] p q = tt
All_pair P Q (h ∷ hs) p q = ((p.0, q.0), All_pair P Q hs p.1 q.1)

-- The key range covers all tables that it is taken of.
pub key_range-Within : (hs : List TableHandle) → All (Within (key_range hs).0 (key_range hs).1) hs
unfolding key_range
key_range-Within [] = tt
key_range-Within (h ∷ hs) =
    let low = lower-NotAfter hs h.first_key in
    let high = upper-NotAfter hs h.last_key in
    (
      (low.0, high.0),
      All_pair (λ g. NotAfter (lower h.first_key hs) g.first_key)
          (λ g. NotAfter g.last_key (upper h.last_key hs)) hs low.1 high.1,
    )

-- Some user key is between those of the bounds and between those of the table's first and last key.
abbrev pub Shares : Bytes → Bytes → TableHandle → Type 0
Shares low high h =
    (u : Bytes) × NotAfter (user_key low) u
    × NotAfter u (user_key high)
    × NotAfter (user_key h.first_key) u
    × NotAfter u (user_key h.last_key)

-- The table's first user key is not after its last one.
abbrev pub IsOrdered : TableHandle → Type 0
IsOrdered h = NotAfter (user_key h.first_key) (user_key h.last_key)

greater-least : (a b c : Bytes) → NotAfter a c → NotAfter b c → NotAfter (greater a b) c
greater-least a b c ha hb = elim (Bool-cases (bytes_lt b a)) [ inl e ↦ rw e ha | inr e ↦ rw e hb ]

module _ (low high : Bytes) (bounds : NotAfter (user_key low) (user_key high)) where
  Shares-overlaps : (h : TableHandle) → Shares low high h → overlaps low high h ≡ true
  unfolding overlaps
  Shares-overlaps h (u, above_low, below_high, above_first, below_last) =
      let first : NotAfter (user_key h.first_key) (user_key high) =
        NotAfter-trans (user_key h.first_key) u (user_key high) above_first below_high in
      let last : NotAfter (user_key low) (user_key h.last_key) =
        NotAfter-trans (user_key low) u (user_key h.last_key) above_low below_last in
      rw (first, last) refl

  overlaps-Shares : (h : TableHandle) → IsOrdered h → overlaps low high h ≡ true → Shares low high h
  unfolding overlaps
  overlaps-Shares h o e =
      let first : NotAfter (user_key h.first_key) (user_key high) = ground (arith, e) in
      let last : NotAfter (user_key low) (user_key h.last_key) = ground (arith, e) in
      let (above_first, above_low) = NotAfter-greater (user_key h.first_key) (user_key low) in
      (
        greater (user_key h.first_key) (user_key low),
        above_low,
        greater-least _ _ _ first bounds,
        above_first,
        greater-least _ _ _ o last,
      )

  -- The choice on one table more.
  kept :
      (g : TableHandle) (gs : List TableHandle)
      → overlaps low high g ≡ true
      → find_overlapping (g ∷ gs) low high ≡ g ∷ find_overlapping gs low high
  unfolding find_overlapping keep
  kept g gs e = rw e refl

  skipped :
      (g : TableHandle) (gs : List TableHandle)
      → overlaps low high g ≡ false
      → find_overlapping (g ∷ gs) low high ≡ find_overlapping gs low high
  unfolding find_overlapping keep
  skipped g gs e = rw e refl

  found_only :
      (level : List TableHandle) (h : TableHandle)
      → All IsOrdered level
      → Memᴰ h (find_overlapping level low high)
      → Memᴰ h level × Shares low high h
  found_only [] h o m =
      let nowhere : Memᴰ h [] = unfold find_overlapping in unfold keep in m in
      absurd (Memᴰ.not-nil nowhere)
  found_only (g ∷ gs) h o m =
      let rest : Memᴰ h (find_overlapping gs low high) → Memᴰ h (g ∷ gs) × Shares low high h =
        λ n. let (there, shared) = found_only gs h o.1 n in (Memᴰ.tail there, shared) in
      elim (Bool-cases (overlaps low high g)) [
        | inr e ↦ rest (subst (Memᴰ h) (skipped g gs e) m)
        | inl e ↦ elim (Memᴰ.cases_cons (subst (Memᴰ h) (kept g gs e) m)) [
          | inl same ↦
              (Memᴰ.head same, subst (Shares low high) (sym same) (overlaps-Shares g o.0 e))
          | inr n ↦ rest n
        ]
      ]

  all_found :
      (level : List TableHandle) (h : TableHandle)
      → Memᴰ h level
      → Shares low high h
      → Memᴰ h (find_overlapping level low high)
  all_found [] h m s = absurd (Memᴰ.not-nil m)
  all_found (g ∷ gs) h m s =
      let rest : Memᴰ h gs → Memᴰ h (find_overlapping gs low high) = λ n. all_found gs h n s in
      elim (Bool-cases (overlaps low high g)) [
        | inl e ↦
            subst (Memᴰ h) (sym (kept g gs e))
              (elim (Memᴰ.cases_cons m) [ inl same ↦ Memᴰ.head same | inr n ↦ Memᴰ.tail (rest n) ])
        | inr e ↦ subst (Memᴰ h) (sym (skipped g gs e)) (elim (Memᴰ.cases_cons m) [
          | inl same ↦
              let shared = Shares-overlaps g (subst (Shares low high) same s) in
              absurd (ground (arith, e, shared))
          | inr n ↦ rest n
        ])
      ]

  -- Where the bounds' user keys and those of each table of the level are in order, the tables that
  -- are found are those of the level that share a user key with the range, no other one and all.
  pub find_overlapping_exact :
      (level : List TableHandle) (h : TableHandle)
      → All IsOrdered level
      → Memᴰ h (find_overlapping level low high) ↔ (Memᴰ h level × Shares low high h)
  find_overlapping_exact level h o = (found_only level h o, λ p. all_found level h p.0 p.1)
