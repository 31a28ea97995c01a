-- ===== src/Iterator/Visible.antt =====
-- iterator/snapshot.go against its specification, which remembers every user key that it has given.
use lithicdb.Common.{
  ℕ, ◌≡◌, refl, ◌∙◌, ap, Bool, true, false, not, Bool-cases, inl, inr, none, some, List, [], ◌∷◌,
  ◌++◌, ◌⊎◌, arith, length, length-append, map, ltb, ◌<◌, if◌then◌else◌, ◌&&◌,
}
use lithicdb.Common.Bytes.{Bytes, All, bytes_eq}
use lithicdb.Common.Names.{mem, keep, bytes_eq_sym}
use lithicdb.Kv.{user_key, seq_num}
use lithicdb.Iterator.{Entry, Source}
use lithicdb.Iterator.Snapshot.{
  new_snapshot_iterator, advance, scan, emitted, remember, scan-emitted,
}

abbrev pub user_key_of : Entry → Bytes
user_key_of e = user_key e.key

-- The specification: of each user key the first entry at or below `max_seq`.
unfoldable pub newest_visible : ℕ → List Bytes → List Entry → List Entry
newest_visible max_seq seen [] = []
newest_visible max_seq seen (e ∷ es) =
    let further = newest_visible max_seq seen es in
    let behind = newest_visible max_seq (user_key_of e ∷ seen) es in
    if ltb max_seq (seq_num e.key)
    then further
    else if mem (user_key_of e) seen
    then further
    else e ∷ behind

-- Once another key has come, `k` comes no more.
unfoldable pub ends : Bytes → List Bytes → Bool
ends k [] = true
ends k (x ∷ xs) = if bytes_eq x k then ends k xs else not (mem k xs)

-- The entries of each key stand together.
unfoldable pub is_grouped : List Bytes → Bool
is_grouped [] = true
is_grouped (k ∷ ks) = ends k ks && is_grouped ks

abbrev SeenIs : Bytes → List Bytes → Entry → Type 0
SeenIs k seen e = mem (user_key_of e) seen ≡ bytes_eq (user_key_of e) k

abbrev pub HasKey : Entry → Type 0
HasKey e = 0 < length (user_key_of e)

ends-mem : (k : Bytes) (xs : List Bytes) → mem k xs ≡ false → ends k xs ≡ true
unfolding ends mem
ends-mem k [] h = refl
ends-mem k (x ∷ xs) h = ground (arith, h, ends-mem k xs, bytes_eq_sym k x)

ends-tail : (k x : Bytes) (xs : List Bytes) → ends k (x ∷ xs) ≡ true → ends k xs ≡ true
unfolding ends
ends-tail k x xs h = ground (arith, h, ends-mem k xs)

new_last :
    (k n : Bytes) (seen : List Bytes) (es : List Entry)
    → mem k (map user_key_of es) ≡ false
    → All (SeenIs k seen) es
    → All (SeenIs n (n ∷ seen)) es
unfolding mem
new_last k n seen [] h a = tt
new_last k n seen (e ∷ es) h a = (
  ground (arith, h, a.0, bytes_eq_sym k (user_key_of e)),
  new_last k n seen es (ground (arith, h)) a.1,
)

remember_first : (k : Bytes) → 0 < length k → remember none k ≡ some k
unfolding remember
remember_first [] h = absurd (omega arith)
remember_first (b ∷ bs) h = refl

first_seen : (k : Bytes) (es : List Entry) → All (SeenIs k (k ∷ [])) es
unfolding mem
first_seen k [] = tt
first_seen k (e ∷ es) = (ground arith, first_seen k es)

module _ (max_seq : ℕ) where
  emitted_after :
      (k : Bytes) (seen : List Bytes) (es : List Entry)
      → All (SeenIs k seen) es
      → ends k (map user_key_of es) ≡ true
      → is_grouped (map user_key_of es) ≡ true
      → emitted max_seq (some k) es ≡ newest_visible max_seq seen es
  unfolding emitted newest_visible ends is_grouped remember
  emitted_after k seen [] a h g = refl
  emitted_after k seen (e ∷ es) a h g =
      let further =
        emitted_after k seen es a.1 (ends-tail k (user_key_of e) (map user_key_of es) h)
          (ground (arith, g)) in
      elim (Bool-cases (ltb max_seq (seq_num e.key))) [
        | inl i ↦ rw i further
        | inr i ↦ elim (Bool-cases (bytes_eq (user_key_of e) k)) [
          | inl l ↦ rw (i, l, a.0 ∙ l) further
          | inr l ↦
              let behind =
                emitted_after (user_key_of e) (user_key_of e ∷ seen) es
                  (new_last k (user_key_of e) seen es (ground (arith, h, l)) a.1)
                  (ground (arith, g)) (ground (arith, g)) in
              rw (i, l, a.0 ∙ l) (ap (λ r. e ∷ r) behind)
        ]
      ]

  emitted-newest_visible :
      (es : List Entry)
      → All HasKey es
      → is_grouped (map user_key_of es) ≡ true
      → emitted max_seq none es ≡ newest_visible max_seq [] es
  unfolding emitted newest_visible is_grouped mem
  emitted-newest_visible [] n g = refl
  emitted-newest_visible (e ∷ es) n g = elim (Bool-cases (ltb max_seq (seq_num e.key))) [
    | inl i ↦ rw i (emitted-newest_visible es n.1 (ground (arith, g)))
    | inr i ↦
        rw (i, remember_first (user_key_of e) n.0)
          (ap (λ r. e ∷ r)
            (emitted_after (user_key_of e) (user_key_of e ∷ []) es (first_seen (user_key_of e) es)
              (ground (arith, g)) (ground (arith, g))))
  ]

-- On entries that stand together by user key, none of them empty, the snapshot iterator gives of
-- each user key the first entry whose number is not above the snapshot's, and nothing else: one
-- remembered key does for the set of all keys that were given. The loop ends within one round more
-- than there are entries.
pub scan-newest_visible :
    (inner : Source) (max_seq fuel : ℕ)
    → All HasKey inner.entries
    → is_grouped (map user_key_of inner.entries) ≡ true
    → length inner.entries < fuel
    → scan fuel (new_snapshot_iterator inner max_seq)
      ≡ some (newest_visible max_seq [] inner.entries)
unfolding new_snapshot_iterator advance
scan-newest_visible inner max_seq fuel n g h =
    scan-emitted inner.entries _ fuel refl refl h
    ∙ ap some (emitted-newest_visible max_seq inner.entries n g)

abbrev pub is_visible : ℕ → Entry → Bool
is_visible max_seq e = not (ltb max_seq (seq_num e.key))

-- The entry is hidden from the snapshot, or its user key is empty.
abbrev pub IsHiddenOrEmpty : ℕ → Entry → Type 0
IsHiddenOrEmpty max_seq e = (is_visible max_seq e ≡ false) ⊎ (user_key_of e ≡ [])

emitted_repeats :
    (max_seq : ℕ) (es rest : List Entry)
    → All (IsHiddenOrEmpty max_seq) es
    → emitted max_seq none (es ++ rest) ≡ keep (is_visible max_seq) es ++ emitted max_seq none rest
unfolding emitted remember keep
emitted_repeats max_seq [] rest a = refl
emitted_repeats max_seq (e ∷ es) rest (inl hidden, a) =
    let i : ltb max_seq (seq_num e.key) ≡ true = ground (arith, hidden) in
    rw i (emitted_repeats max_seq es rest a)
emitted_repeats max_seq (e ∷ es) rest (inr empty, a) =
    elim (Bool-cases (ltb max_seq (seq_num e.key))) [
      | inl i ↦ rw i (emitted_repeats max_seq es rest a)
      | inr i ↦ rw (i, empty) (ap (λ r. e ∷ r) (emitted_repeats max_seq es rest a))
    ]

-- Until a visible entry of another user key comes, every visible version of the empty user key is
-- given, the old ones too, and what is given behind these entries is what an iterator over the rest
-- alone gives. Both loops end within one round more than there are entries.
pub scan_repeats :
    (es rest : List Entry) (fails : Bool) (max_seq fuel : ℕ)
    → All (IsHiddenOrEmpty max_seq) es
    → length (es ++ rest) < fuel
    → (out : List Entry) × (scan fuel
          (new_snapshot_iterator (record { entries = rest; fails = fails }) max_seq)
        ≡ some out)
      × (scan fuel (new_snapshot_iterator (record { entries = es ++ rest; fails = fails }) max_seq)
          ≡ some (keep (is_visible max_seq) es ++ out))
unfolding new_snapshot_iterator advance
scan_repeats es rest fails max_seq fuel a h = (
  emitted max_seq none rest,
  scan-emitted rest _ fuel refl refl (omega (arith, length-append es rest, h)),
  scan-emitted (es ++ rest) _ fuel refl refl h ∙ ap some (emitted_repeats max_seq es rest a),
)
