-- ===== src/Iterator/Snapshot.antt =====
-- iterator/snapshot.go: the newest visible version of each user key.
use lithicdb.Common.{
  ℕ, zero, suc, Bool, true, false, not, Option, none, some, List, [], ◌∷◌, ◌++◌, length, take, ltb,
  Bool-cases, inl, inr, arith, ◌≡◌, refl, ap, ◌∙◌, ◌<◌, if◌then◌else◌, ◌&&◌,
}
use lithicdb.Common.Bytes.{Bytes, bytes_eq}
use lithicdb.Kv.{user_key, seq_num}
use lithicdb.Iterator.{Entry, Source, next}

pub record SnapshotIterator : Type 0 where
  pub inner : Source
  pub max_seq : ℕ
  pub last_user_key : Option Bytes
  pub valid : Bool
  pub failed : Bool

-- `append(last[:0], key...)`: on a nil slice, an empty key leaves nil.
unfoldable pub remember : Option Bytes → Bytes → Option Bytes
remember none [] = none
remember none (b ∷ bs) = some (b ∷ bs)
remember (some last) key = some key

abbrev pub is_last : Option Bytes → Bytes → Bool
is_last none key = false
is_last (some last) key = bytes_eq key last

-- The loop of `advance` over what the inner iterator has left.
unfoldable pub advance_over : SnapshotIterator → List Entry → SnapshotIterator
advance_over s [] = record s {
  inner = record s.inner { entries = [] };
  valid = false;
  failed = if s.inner.fails then true else s.failed;
}
advance_over s (e ∷ es) =
    let further = advance_over s es in
    if ltb s.max_seq (seq_num e.key)
    then further
    else if is_last s.last_user_key (user_key e.key)
    then further
    else record s {
      inner = record s.inner { entries = e ∷ es };
      last_user_key = remember s.last_user_key (user_key e.key);
      valid = true;
    }

unfoldable pub advance : SnapshotIterator → SnapshotIterator
advance s = advance_over (record s { valid = false }) s.inner.entries

unfoldable pub new_snapshot_iterator : Source → ℕ → SnapshotIterator
new_snapshot_iterator inner max_seq = advance (record {
  inner = inner;
  max_seq = max_seq;
  last_user_key = none;
  valid = false;
  failed = false;
})

unfoldable pub snapshot_is_valid : SnapshotIterator → Bool
snapshot_is_valid s = s.valid && not s.failed

unfoldable pub snapshot_next : SnapshotIterator → SnapshotIterator
snapshot_next s = if snapshot_is_valid s then advance (record s { inner = next s.inner }) else s

abbrev push : List Entry → Option (List Entry) → Option (List Entry)
push es none = none
push es (some rest) = some (es ++ rest)

-- A client's loop: while valid, take the entry and call Next. `none` is no behaviour of the code:
-- the fuel ran out.
unfoldable pub scan : ℕ → SnapshotIterator → Option (List Entry)
scan zero s = none
scan (suc fuel) s = elim (snapshot_is_valid s) [
  | true ↦ push (take 1 s.inner.entries) (scan fuel (snapshot_next s))
  | false ↦ some []
]

-- The entries that the loops give in the end, from the key remembered on.
unfoldable pub emitted : ℕ → Option Bytes → List Entry → List Entry
emitted max_seq last [] = []
emitted max_seq last (e ∷ es) =
    let further = emitted max_seq last es in
    let behind = emitted max_seq (remember last (user_key e.key)) es in
    if ltb max_seq (seq_num e.key)
    then further
    else if is_last last (user_key e.key)
    then further
    else e ∷ behind

scan_valid :
    (s : SnapshotIterator) (fuel : ℕ)
    → snapshot_is_valid s ≡ true
    → scan (suc fuel) s
      ≡ push (take 1 s.inner.entries) (scan fuel (advance (record s { inner = next s.inner })))
unfolding scan snapshot_next
scan_valid s fuel h = rw (h, scan, h) refl

pub scan-emitted :
    (es : List Entry) (s : SnapshotIterator) (fuel : ℕ)
    → s.failed ≡ false
    → s.valid ≡ false
    → length es < fuel
    → scan fuel (advance_over s es) ≡ some (emitted s.max_seq s.last_user_key es)
unfolding scan emitted advance_over snapshot_is_valid snapshot_next advance next
scan-emitted es s zero f v h = absurd (omega arith)
scan-emitted [] s (suc fuel) f v h = refl
scan-emitted (e ∷ es) s (suc fuel) f v h = elim (Bool-cases (ltb s.max_seq (seq_num e.key))) [
  | inl i ↦ rw i (scan-emitted es s (suc fuel) f v (omega arith))
  | inr i ↦ elim (Bool-cases (is_last s.last_user_key (user_key e.key))) [
    | inl l ↦ rw (i, l) (scan-emitted es s (suc fuel) f v (omega arith))
    | inr l ↦
        let given : SnapshotIterator = record s {
          inner = record s.inner { entries = e ∷ es };
          last_user_key = remember s.last_user_key (user_key e.key);
          valid = true;
        } in
        let going_on : SnapshotIterator = record given {
          inner = next given.inner;
          valid = false;
        } in
        rw (i, l)
          (scan_valid given fuel (ap not f)
            ∙ ap (push (e ∷ [])) (scan-emitted es going_on fuel f refl (omega arith)))
  ]
]
