-- ===== src/Iterator/Grouped.antt =====
-- iterator/snapshot.go: sorted entries stand together by user key, on keys of which none is a prefix
-- of another, and not on others.
use Prim.Native.Nat.{compare}
use lithicdb.Common.{
  ℕ, ◌≡◌, refl, ◌∙◌, ap, sym, true, false, Bool-cases, inl, inr, some, List, [], ◌∷◌, arith, length,
  map, ◌<◌,
}
use lithicdb.Common.Bytes.{All, bytes_eq, NotAfter, compare_bytes, then_compare, compare_bytes-flip}
use lithicdb.Common.Names.{mem, eq_of_bytes_eq}
use lithicdb.Kv.{IsSeq, make_internal_key, user_key, seq_num}
use lithicdb.Kv.KeyOrder.{Comparable, compare-make_internal_key}
use lithicdb.Iterator.{Entry, Source}
use lithicdb.Iterator.Snapshot.{new_snapshot_iterator, scan}
use lithicdb.Iterator.Visible.{
  user_key_of, newest_visible, ends, is_grouped, HasKey, scan-newest_visible,
}

-- The entry's key is an internal key.
pub record IsInternal (e : Entry) : Type 0 where
  pub made : e.key ≡ make_internal_key (user_key e.key) (seq_num e.key)
  pub bounded : IsSeq (seq_num e.key)

-- `e` may stand before `f`.
pub record MayPrecede (e f : Entry) : Type 0 where
  pub in_order : NotAfter e.key f.key
  pub apart : Comparable (user_key e.key) (user_key f.key)

abbrev pub IsSorted : List Entry → Type 0
IsSorted [] = Unit
IsSorted (e ∷ es) = IsInternal e × All (MayPrecede e) es × IsSorted es

compare_entries :
    (e f : Entry)
    → IsInternal e
    → IsInternal f
    → MayPrecede e f
    → compare_bytes e.key f.key
      ≡ then_compare
          (compare_bytes (user_key e.key) (user_key f.key))
          (compare (seq_num f.key) (seq_num e.key))
compare_entries e f ie if_ p =
    ap (λ k. compare_bytes k f.key) ie.made
    ∙ ap (compare_bytes (make_internal_key (user_key e.key) (seq_num e.key))) if_.made
    ∙ compare-make_internal_key (user_key e.key) (user_key f.key) (seq_num e.key) (seq_num f.key)
        p.apart ie.bounded if_.bounded

-- Behind an entry of another key the first key does not come back.
not_back :
    (e f g : Entry)
    → IsInternal e
    → IsInternal f
    → IsInternal g
    → MayPrecede e f
    → MayPrecede f g
    → bytes_eq (user_key_of f) (user_key_of e) ≡ false
    → bytes_eq (user_key_of e) (user_key_of g) ≡ false
not_back e f g ie if_ ig ef fg h = elim (Bool-cases (bytes_eq (user_key_of e) (user_key_of g))) [
  | inr other ↦ other
  | inl same ↦
      let u : user_key e.key ≡ user_key g.key =
        eq_of_bytes_eq (user_key e.key) (user_key g.key) same in
      let back : compare_bytes (user_key f.key) (user_key g.key)
          ≡ compare_bytes (user_key f.key) (user_key e.key) =
        ap (compare_bytes (user_key f.key)) (sym u) in
      ground (
        arith,
        compare_entries e f ie if_ ef,
        compare_entries f g if_ ig fg,
        compare_bytes-flip (user_key e.key) (user_key f.key),
        compare_bytes-flip e.key f.key,
        compare_bytes-flip f.key g.key,
        back,
        ef.in_order,
        fg.in_order,
        h,
      )
]

not_back-mem :
    (e f : Entry) (es : List Entry)
    → IsInternal e
    → IsInternal f
    → MayPrecede e f
    → bytes_eq (user_key_of f) (user_key_of e) ≡ false
    → All (MayPrecede f) es
    → IsSorted es
    → mem (user_key_of e) (map user_key_of es) ≡ false
unfolding mem
not_back-mem e f [] ie if_ ef h a s = refl
not_back-mem e f (g ∷ es) ie if_ ef h a s =
    ground (arith, not_back e f g ie if_ s.0 ef a.0 h, not_back-mem e f es ie if_ ef h a.1 s.2)

ends-IsSorted :
    (e : Entry) (es : List Entry)
    → IsInternal e
    → All (MayPrecede e) es
    → IsSorted es
    → ends (user_key_of e) (map user_key_of es) ≡ true
unfolding ends
ends-IsSorted e [] ie a s = refl
ends-IsSorted e (f ∷ es) ie a s = elim (Bool-cases (bytes_eq (user_key_of f) (user_key_of e))) [
  | inl h ↦ rw h (ends-IsSorted e es ie a.1 s.2)
  | inr h ↦ rw (h, not_back-mem e f es ie s.0 a.0 h s.1 s.2) refl
]

is_grouped-IsSorted : (es : List Entry) → IsSorted es → is_grouped (map user_key_of es) ≡ true
unfolding is_grouped
is_grouped-IsSorted [] s = refl
is_grouped-IsSorted (e ∷ es) s = rw (ends-IsSorted e es s.0 s.1 s.2) (is_grouped-IsSorted es s.2)

-- On entries in the order of their internal keys, of which no user key is empty or a proper prefix
-- of another, the snapshot iterator gives of each user key the first entry whose number is not above
-- the snapshot's, and nothing else. The loop ends within one round more than there are entries.
pub scan-IsSorted :
    (inner : Source) (max_seq fuel : ℕ)
    → All HasKey inner.entries
    → IsSorted inner.entries
    → length inner.entries < fuel
    → scan fuel (new_snapshot_iterator inner max_seq)
      ≡ some (newest_visible max_seq [] inner.entries)
scan-IsSorted inner max_seq fuel n s h =
    scan-newest_visible inner max_seq fuel n (is_grouped-IsSorted inner.entries s) h
