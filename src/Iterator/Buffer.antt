-- ===== src/Iterator/Buffer.antt =====
-- iterator/write_buffer.go: the iterator by position is an iterator over the entries behind it.
use lithicdb.Common.{
  ℕ, zero, suc, ◌+◌, ◌≡◌, refl, ap, ◌∙◌, true, false, not, Bool-cases, inl, inr, ◌⊎◌, List, [], ◌∷◌,
  arith, length, map, drop, ltb,
}
use lithicdb.Common.Slices.{drop_add}
use lithicdb.Iterator.{
  Entry, Source, is_nil, is_valid, next, entry_of, WriteBufferEntry, WriteBufferIterator,
  write_buffer_is_valid, write_buffer_next,
}

-- What the iterator has left to give.
abbrev pub remaining : WriteBufferIterator → Source
remaining it = record { entries = map entry_of (drop it.pos it.entries); fails = false }

valid_drop :
    (pos : ℕ) (es : List WriteBufferEntry)
    → ltb pos (length es) ≡ not (is_nil (map entry_of (drop pos es)))
valid_drop zero [] = refl
valid_drop zero (e ∷ es) = ground arith
valid_drop (suc pos) [] = ground arith
valid_drop (suc pos) (e ∷ es) = (ground arith) ∙ valid_drop pos es

map-drop :
    (n : ℕ) (es : List WriteBufferEntry) → map entry_of (drop n es) ≡ drop n (map entry_of es)
map-drop zero es = refl
map-drop (suc n) [] = refl
map-drop (suc n) (e ∷ es) = map-drop n es

-- At every position the iterator is valid, gives its entry and moves on as an iterator over the
-- entries from the position on does.
pub write_buffer_refines :
    (it : WriteBufferIterator)
    → (write_buffer_is_valid it ≡ is_valid (remaining it))
      × (remaining (write_buffer_next it) ≡ next (remaining it))
unfolding write_buffer_is_valid write_buffer_next is_valid next
write_buffer_refines it =
    (valid_drop it.pos it.entries, moved (Bool-cases (ltb it.pos (length it.entries))))
  where
    source_with : List Entry → Source
    source_with l = record { entries = l; fails = false }

    all_given :
        (pos : ℕ) (es : List WriteBufferEntry)
        → ltb pos (length es) ≡ false
        → map entry_of (drop pos es) ≡ drop 1 (map entry_of (drop pos es))
    all_given zero [] h = refl
    all_given zero (e ∷ es) h = absurd (ground (arith, h))
    all_given (suc pos) [] h = refl
    all_given (suc pos) (e ∷ es) h = all_given pos es (ground (arith, h))

    moved :
        (ltb it.pos (length it.entries) ≡ true) ⊎ (ltb it.pos (length it.entries) ≡ false)
        → remaining (write_buffer_next it) ≡ next (remaining it)
    moved (inl h) = rw h (
        ap source_with (
          ap (λ l. map entry_of l) (drop_add it.pos 1 (it.pos + 1) it.entries refl)
          ∙ map-drop 1 (drop it.pos it.entries)))
    moved (inr h) = rw h (ap source_with (all_given it.pos it.entries h))
