-- ===== src/Iterator.antt =====
-- iterator/: the streams of entries that a scan reads. An entry is an internal key and a value, of
-- which nil stands for a tombstone. An iterator is what it has still to give, the current entry
-- first, and whether it ends with an error.
pub mod Snapshot
pub mod Visible
pub mod Grouped
pub mod Merge
pub mod Buffer
pub mod Scans
mod Runs
use lithicdb.Common.{
  ℕ, zero, suc, ◌+◌, Bool, true, false, not, Option, none, some, List, [], ◌∷◌, length, drop, ltb,
  if◌then◌else◌, ◌&&◌,
}
use lithicdb.Common.Bytes.{Bytes}
use lithicdb.Kv.{Value}

pub record Entry : Type 0 where
  pub key : Bytes
  pub value : Option Bytes

pub record Source : Type 0 where
  pub entries : List Entry
  pub fails : Bool

abbrev pub is_nil {ℓ} : {A : Type ℓ} → List A → Bool
is_nil [] = true
is_nil (x ∷ xs) = false

unfoldable pub is_valid : Source → Bool
is_valid s = not (is_nil s.entries)

-- Next does nothing at the end.
unfoldable pub next : Source → Source
next s = record s { entries = drop 1 s.entries }

-- The error shows once there are no entries left.
unfoldable pub err : Source → Bool
err s = is_nil s.entries && s.fails

pub record WriteBufferEntry : Type 0 where
  pub key : Bytes
  pub value : Value

pub record WriteBufferIterator : Type 0 where
  pub entries : List WriteBufferEntry
  pub pos : ℕ

abbrev pub new_write_buffer_iterator : List WriteBufferEntry → WriteBufferIterator
new_write_buffer_iterator es = record { entries = es; pos = 0 }

unfoldable pub write_buffer_is_valid : WriteBufferIterator → Bool
write_buffer_is_valid it = ltb it.pos (length it.entries)

unfoldable pub write_buffer_next : WriteBufferIterator → WriteBufferIterator
write_buffer_next it = if ltb it.pos (length it.entries) then record it { pos = it.pos + 1 } else it

abbrev pub entry_of : WriteBufferEntry → Entry
entry_of e = record { key = e.key; value = if e.value.tombstone then none else some e.value.bytes }

-- Key and Value at the position; `none` is the panic on an index out of range.
unfoldable pub write_buffer_entry : WriteBufferIterator → Option Entry
write_buffer_entry it = elim (drop it.pos it.entries) [ [] ↦ none | e ∷ es ↦ some (entry_of e) ]
