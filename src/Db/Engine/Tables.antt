-- ===== src/Db/Engine/Tables.antt =====
-- db/read.go: how the layers' answers add up. Each layer holds the writes of a log; the layers stand
-- so that a key's versions in one are newer than those in the layers below it.
use mathlib.Core.Path.{subst}
use mathlib.Core.List.{flatten}
use lithicdb.Common.{
  ℕ, ◌<◌, ◌≡◌, refl, ap, ◌∙◌, sym, Bool, true, false, Bool-cases, inl, inr, Option, none, some,
  List, [], ◌∷◌, ◌++◌, append_assoc, arith, leb,
}
use lithicdb.Common.Bytes.{Bytes, All, bytes_eq}
use lithicdb.Common.Names.{keep}
use lithicdb.Kv.{Value}
use lithicdb.Memtable.{Memtable, value_of, get_at}
use lithicdb.Memtable.Versions.{newer}
use lithicdb.Memtable.Log.{Write, written, newest_write, IsWrite, get_at-written}
use lithicdb.Db.Engine.{Table, or_else, read_memtables, read_tables, read_levels}

pub flatten-append {ℓ} :
    {A : Type ℓ} (xss yss : List (List A)) → flatten (xss ++ yss) ≡ flatten xss ++ flatten yss
unfolding flatten
flatten-append [] yss = refl
flatten-append (xs ∷ xss) yss =
    ap (λ l. xs ++ l) (flatten-append xss yss) ∙ sym (append_assoc xs (flatten xss) (flatten yss))

keep-cons {ℓ} :
    {A : Type ℓ} (p : A → Bool) (x : A) (xs : List A) → p x ≡ true → keep p (x ∷ xs) ≡ x ∷ keep p xs
unfolding keep
keep-cons p x xs h = rw h refl

keep-skip {ℓ} :
    {A : Type ℓ} (p : A → Bool) (x : A) (xs : List A) → p x ≡ false → keep p (x ∷ xs) ≡ keep p xs
unfolding keep
keep-skip p x xs h = rw h refl

module _ (u : Bytes) where
  abbrev pub versions : List Write → List Write
  versions ws = keep (λ (w : Write). bytes_eq w.key u) ws

  -- Every version of the key in `xs` is newer than every one in `ys`.
  abbrev pub Above : List Write → List Write → Type 0
  Above xs ys = All (λ x. All (λ y. y.seq < x.seq) (versions ys)) (versions xs)

  unfoldable pub Stacked : List (List Write) → Type 0
  Stacked [] = Unit
  Stacked (ws ∷ wss) = Above ws (flatten wss) × Stacked wss

  unfoldable pub Memtables : List Memtable → List (List Write) → Type 0
  Memtables [] [] = Unit
  Memtables [] (ws ∷ wss) = ⊥
  Memtables (m ∷ ms) [] = ⊥
  Memtables (m ∷ ms) (ws ∷ wss) = (m.sl ≡ written ws) × All (IsWrite u) ws × Memtables ms wss

  -- The table answers for the key as the log does.
  abbrev pub Serves : Table → List Write → Type 0
  Serves t ws = (s : ℕ) → read_tables (t ∷ []) u s ≡ value_of (newest_write u s ws)

  unfoldable pub Tables : List Table → List (List Write) → Type 0
  Tables [] [] = Unit
  Tables [] (ws ∷ wss) = ⊥
  Tables (t ∷ ts) [] = ⊥
  Tables (t ∷ ts) (ws ∷ wss) = Serves t ws × Tables ts wss

  newer-newer_below :
      (b t : ℕ) (v w : Value) (rest : Option (Value × ℕ))
      → t < b
      → newer v b rest ≡ some (v, b)
      → newer v b (newer w t rest) ≡ some (v, b)
  newer-newer_below b t v w none h e = ground arith
  newer-newer_below b t v w (some (x, r)) h e = ground arith

  pub newest_write-below :
      (s b : ℕ) (v : Value) (ys : List Write)
      → All (λ y. y.seq < b) (versions ys)
      → newer v b (newest_write u s ys) ≡ some (v, b)
  unfolding newest_write keep
  newest_write-below s b v [] a = refl
  newest_write-below s b v (y ∷ ys) a = elim (Bool-cases (bytes_eq y.key u)) [
    | inl e ↦
        let (h, rest) = subst (All (λ z. z.seq < b)) (keep-cons _ y ys e) a in
        let below = newest_write-below s b v ys rest in
        let over = newer-newer_below b y.seq v y.value (newest_write u s ys) h below in
        elim (Bool-cases (leb y.seq s)) [ inl l ↦ rw (e, l) over | inr l ↦ rw (e, l) below ]
    | inr e ↦
        rw e (newest_write-below s b v ys (subst (All (λ z. z.seq < b)) (keep-skip _ y ys e) a))
  ]

  newer-or_else :
      (b : ℕ) (v : Value) (mine theirs : Option (Value × ℕ))
      → newer v b theirs ≡ some (v, b)
      → newer v b (or_else mine theirs) ≡ or_else (newer v b mine) theirs
  newer-or_else b v none theirs h = h
  newer-or_else b v (some (w, t)) theirs h = ground arith

  pub newest_write-append :
      (s : ℕ) (xs ys : List Write)
      → Above xs ys
      → newest_write u s (xs ++ ys) ≡ or_else (newest_write u s xs) (newest_write u s ys)
  unfolding newest_write keep
  newest_write-append s [] ys a = refl
  newest_write-append s (x ∷ xs) ys a = elim (Bool-cases (bytes_eq x.key u)) [
    | inl e ↦
        let (h, rest) = subst (All _) (keep-cons _ x xs e) a in
        let more = newest_write-append s xs ys rest in
        elim (Bool-cases (leb x.seq s)) [
          | inl l ↦
              rw (e, l, more)
                (newer-or_else x.seq x.value (newest_write u s xs) (newest_write u s ys)
                  (newest_write-below s x.seq x.value ys h))
          | inr l ↦ rw (e, l) more
        ]
    | inr e ↦ rw e (newest_write-append s xs ys (subst (All _) (keep-skip _ x xs e) a))
  ]

  value_of-or_else :
      (mine theirs : Option (Value × ℕ))
      → value_of (or_else mine theirs) ≡ or_else (value_of mine) (value_of theirs)
  value_of-or_else none theirs = refl
  value_of-or_else (some (v, s)) theirs = refl

  read_log :
      (s : ℕ) (ws rest : List Write)
      → Above ws rest
      → value_of (newest_write u s (ws ++ rest))
        ≡ or_else (value_of (newest_write u s ws)) (value_of (newest_write u s rest))
  read_log s ws rest a =
      ap value_of (newest_write-append s ws rest a)
      ∙ value_of-or_else (newest_write u s ws) (newest_write u s rest)

  pub or_else_assoc : (a b c : Option Value) → or_else (or_else a b) c ≡ or_else a (or_else b c)
  or_else_assoc none b c = refl
  or_else_assoc (some v) b c = refl

  pub Stacked-append : (wss xss : List (List Write)) → Stacked (wss ++ xss) → Stacked xss
  unfolding Stacked
  Stacked-append [] xss o = o
  Stacked-append (ws ∷ wss) xss o = Stacked-append wss xss o.1

  -- The memtables' answers before those of what is below them.
  pub read_memtables_lem :
      (s : ℕ) (ms : List Memtable) (wss below : List (List Write))
      → Memtables ms wss
      → Stacked (wss ++ below)
      → or_else (read_memtables ms u s) (value_of (newest_write u s (flatten below)))
        ≡ value_of (newest_write u s (flatten (wss ++ below)))
  unfolding Memtables Stacked read_memtables flatten
  read_memtables_lem s [] [] below h o = refl
  read_memtables_lem s [] (ws ∷ wss) below h o = absurd h
  read_memtables_lem s (m ∷ ms) [] below h o = absurd h
  read_memtables_lem s (m ∷ ms) (ws ∷ wss) below h o =
      or_else_assoc (get_at m.sl u s) (read_memtables ms u s) _
      ∙ ap (or_else (get_at m.sl u s)) (read_memtables_lem s ms wss below h.2 o.1)
      ∙ ap (λ a. or_else a (value_of (newest_write u s (flatten (wss ++ below)))))
          (ap (λ sl. get_at sl u s) h.0 ∙ get_at-written u ws s h.1)
      ∙ sym (read_log s ws (flatten (wss ++ below)) o.0)

  -- What one table says decides, unless it has nothing.
  read_tables-cons :
      (s : ℕ) (t : Table) (ts : List Table)
      → read_tables (t ∷ ts) u s ≡ or_else (read_tables (t ∷ []) u s) (read_tables ts u s)
  unfolding read_tables
  read_tables-cons s t ts = ground arith

  pub read_tables_lem :
      (s : ℕ) (ts : List Table) (wss : List (List Write))
      → Tables ts wss
      → Stacked wss
      → read_tables ts u s ≡ value_of (newest_write u s (flatten wss))
  unfolding Tables Stacked flatten
  read_tables_lem s [] [] h o = unfold read_tables newest_write in refl
  read_tables_lem s [] (ws ∷ wss) h o = absurd h
  read_tables_lem s (t ∷ ts) [] h o = absurd h
  read_tables_lem s (t ∷ ts) (ws ∷ wss) h o =
      read_tables-cons s t ts
      ∙ ap (or_else (read_tables (t ∷ []) u s)) (read_tables_lem s ts wss h.1 o.1)
      ∙ ap (λ a. or_else a (value_of (newest_write u s (flatten wss)))) (h.0 s)
      ∙ sym (read_log s ws (flatten wss) o.0)

  pub read_tables-append :
      (s : ℕ) (ts us : List Table)
      → read_tables (ts ++ us) u s ≡ or_else (read_tables ts u s) (read_tables us u s)
  read_tables-append s [] us = unfold read_tables in refl
  read_tables-append s (t ∷ ts) us =
      read_tables-cons s t (ts ++ us)
      ∙ ap (or_else (read_tables (t ∷ []) u s)) (read_tables-append s ts us)
      ∙ sym (or_else_assoc (read_tables (t ∷ []) u s) (read_tables ts u s) (read_tables us u s))
      ∙ ap (λ a. or_else a (read_tables us u s)) (sym (read_tables-cons s t ts))

  -- The levels are read as one list of tables.
  pub read_levels-flatten :
      (s : ℕ) (levels : List (List Table))
      → read_levels levels u s ≡ read_tables (flatten levels) u s
  unfolding read_levels flatten
  read_levels-flatten s [] = unfold read_tables in refl
  read_levels-flatten s (level ∷ levels) =
      ap (or_else (read_tables level u s)) (read_levels-flatten s levels)
      ∙ sym (read_tables-append s level (flatten levels))
