-- ===== src/Iterator/Merge/Sources.antt =====
-- iterator/merge.go: the iterators of a merge, and the items that stand for them in the heap.
use mathlib.Core.Path.{subst}
use mathlib.Core.List.{Perm, perm_middle}
use mathlib.Core.List.Perm
use lithicdb.Common.{
  ℕ, zero, suc, ◌≡◌, refl, ap, ◌∙◌, Bool, true, false, not, Option, none, some, List, [], ◌∷◌, ◌++◌,
  arith, length, get_elem?, set, ◌==◌, ◌&&◌, ◌||◌, length-append,
}
use lithicdb.Common.Bytes.{Bytes, All, NotAfter}
use lithicdb.Iterator.{Entry, Source, is_nil}
use lithicdb.Iterator.Merge.{HeapItem, item_of, entries_at}
use lithicdb.Iterator.Merge.Least.{has_idx, Separate}

abbrev pub head_key : List Entry → Option Bytes
head_key [] = none
head_key (e ∷ es) = some e.key

-- The heap has one item for each iterator that has entries left, with the key of the first.
pub record IsHeap (iters : List Source) (h : List HeapItem) : Type 0 where
  pub covers : (i : ℕ) → has_idx i h ≡ not (is_nil (entries_at i iters))
  pub current : All (λ x. head_key (entries_at x.idx iters) ≡ some x.key) h
  pub separate : Separate h

unfoldable pub all_entries : List Source → List Entry
all_entries [] = []
all_entries (s ∷ ss) = s.entries ++ all_entries ss

abbrev pub KeysSorted : List Entry → Type 0
KeysSorted [] = Unit
KeysSorted (e ∷ es) = All (λ f. NotAfter e.key f.key) es × KeysSorted es

module _ {ℓ} (P : Source → Type ℓ) where
  pub All-get_elem? :
      (iters : List Source) (i : ℕ) (s : Source) → All P iters → get_elem? iters i ≡ some s → P s
  All-get_elem? [] i s a e = cc
  All-get_elem? (t ∷ ts) zero s a e = let same : t ≡ s = cc in subst P same a.0
  All-get_elem? (t ∷ ts) (suc i) s a e = All-get_elem? ts i s a.1 e

  pub All-set :
      (iters : List Source) (i : ℕ) (s : Source) → All P iters → P s → All P (set iters i s)
  All-set [] i s a p = tt
  All-set (t ∷ ts) zero s a p = (p, a.1)
  All-set (t ∷ ts) (suc i) s a p = (a.0, All-set ts i s a.1 p)

  pub All-each :
      (iters : List Source)
      → ((i : ℕ) (s : Source) → get_elem? iters i ≡ some s → P s)
      → All P iters
  All-each [] f = tt
  All-each (t ∷ ts) f = (f 0 t refl, All-each ts (λ i s e. f (suc i) s e))

pub get_elem?-set :
    (iters : List Source) (i : ℕ) (s t : Source)
    → get_elem? iters i ≡ some s
    → get_elem? (set iters i t) i ≡ some t
get_elem?-set [] i s t e = cc
get_elem?-set (x ∷ xs) zero s t e = refl
get_elem?-set (x ∷ xs) (suc i) s t e = get_elem?-set xs i s t e

-- Moving one iterator on takes its entry out of all.
pub all_entries-set :
    (iters : List Source) (i : ℕ) (s : Source) (e : Entry) (es : List Entry)
    → get_elem? iters i ≡ some s
    → s.entries ≡ e ∷ es
    → Perm (e ∷ all_entries (set iters i (record s { entries = es }))) (all_entries iters)
unfolding all_entries
all_entries-set [] i s e es h k = cc
all_entries-set (t ∷ ts) zero s e es h k =
    let same : t.entries ≡ e ∷ es = cc in rw same (Perm.refl (e ∷ (es ++ all_entries ts)))
all_entries-set (t ∷ ts) (suc i) s e es h k =
    Perm.trans (Perm.symm (perm_middle t.entries _))
      (Perm.append_left t.entries (all_entries-set ts i s e es h k))

pub length-all_entries-set :
    (iters : List Source) (i : ℕ) (s : Source) (e : Entry) (es : List Entry)
    → get_elem? iters i ≡ some s
    → s.entries ≡ e ∷ es
    → length (all_entries iters)
      ≡ suc (length (all_entries (set iters i (record s { entries = es }))))
unfolding all_entries
length-all_entries-set [] i s e es h k = cc
length-all_entries-set (t ∷ ts) zero s e es h k =
    let same : t.entries ≡ e ∷ es = cc in ap (λ l. length (l ++ all_entries ts)) same
length-all_entries-set (t ∷ ts) (suc i) s e es h k = omega (
  arith,
  length-append t.entries (all_entries ts),
  length-append t.entries (all_entries (set ts i (record s { entries = es }))),
  length-all_entries-set ts i s e es h k,
)

-- Some entry passes the test.
unfoldable pub any_entry : (Entry → Bool) → List Entry → Bool
any_entry p [] = false
any_entry p (e ∷ es) = p e || any_entry p es

pub any_entry-append :
    (p : Entry → Bool) (es fs : List Entry)
    → any_entry p (es ++ fs) ≡ (any_entry p es || any_entry p fs)
unfolding any_entry
any_entry-append p [] fs = refl
any_entry-append p (e ∷ es) fs = ground (arith, any_entry-append p es fs)

pub any_entry-all_entries-set :
    (p : Entry → Bool) (iters : List Source) (i : ℕ) (s : Source) (e : Entry) (es : List Entry)
    → get_elem? iters i ≡ some s
    → s.entries ≡ e ∷ es
    → any_entry p (all_entries iters)
      ≡ (p e || any_entry p (all_entries (set iters i (record s { entries = es }))))
unfolding all_entries any_entry
any_entry-all_entries-set p [] i s e es h k = cc
any_entry-all_entries-set p (t ∷ ts) zero s e es h k =
    let same : t.entries ≡ e ∷ es = cc in ap (λ l. any_entry p (l ++ all_entries ts)) same
any_entry-all_entries-set p (t ∷ ts) (suc i) s e es h k =
    any_entry-append p t.entries (all_entries ts)
    ∙ (ground (
      arith,
      any_entry-append p t.entries (all_entries (set ts i (record s { entries = es }))),
      any_entry-all_entries-set p ts i s e es h k,
    ))

pub all_entries-nil :
    (iters : List Source) → ((i : ℕ) → is_nil (entries_at i iters) ≡ true) → all_entries iters ≡ []
unfolding all_entries
all_entries-nil [] f = refl
all_entries-nil (t ∷ ts) f =
    let none_left : t.entries ≡ [] = empty t.entries (f 0) in
    rw none_left (all_entries-nil ts (λ i. f (suc i)))
  where
    empty : (es : List Entry) → is_nil es ≡ true → es ≡ []
    empty [] h = refl
    empty (e ∷ es) h = cc

pub has_idx-append :
    (i : ℕ) (xs ys : List HeapItem) → has_idx i (xs ++ ys) ≡ (has_idx i xs || has_idx i ys)
unfolding has_idx
has_idx-append i [] ys = refl
has_idx-append i (x ∷ xs) ys = ground (arith, has_idx-append i xs ys)

pub has_idx-item_of :
    (i j : ℕ) (s : Source) → has_idx i (item_of j s) ≡ ((i == j) && not (is_nil s.entries))
has_idx-item_of i j s = of s.entries
  where
    of :
        (es : List Entry)
        → has_idx i (item_of j (record s { entries = es })) ≡ ((i == j) && not (is_nil es))
    of [] = unfold has_idx in ground arith
    of (e ∷ es) = unfold has_idx in ground arith
