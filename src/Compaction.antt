-- ===== src/Compaction.antt =====
-- compaction/picker.go: which tables are merged next. A handle is what the picker reads of it, the
-- first and the last internal key of its table and the size of its file.
pub mod Ranges
mod Runs
use lithicdb.Common.{
  ℕ, zero, suc, ◌+◌, ◌-◌, ◌*◌, ◌%◌, ◌^◌, Bool, true, false, not, Option, none, some, List, [], ◌∷◌,
  ◌++◌, ◌&&◌, ◌||◌, length, get_or, ltb, leb, ◌==◌, if◌then◌else◌,
}
use lithicdb.Common.Bytes.{Bytes, bytes_lt}
use lithicdb.Common.Names.{keep}
use lithicdb.Kv.{user_key}

pub record TableHandle : Type 0 where
  pub id : ℕ
  pub first_key : Bytes
  pub last_key : Bytes
  pub file_size : ℕ

pub record Config : Type 0 where
  pub l0_compaction_trigger : ℕ
  pub level_size_base : ℕ
  pub level_size_multiplier : ℕ
  pub max_levels : ℕ

abbrev pub default_config : Config
default_config = record {
  l0_compaction_trigger = 4;
  level_size_base = 256 * 1024 * 1024;
  level_size_multiplier = 10;
  max_levels = 7;
}

pub record CompactionTask : Type 0 where
  pub input_level : ℕ
  pub output_level : ℕ
  pub inputs : List TableHandle
  pub overlapping : List TableHandle
  pub min_key : Bytes
  pub max_key : Bytes

unfoldable pub all_inputs : CompactionTask → List TableHandle
all_inputs t = t.inputs ++ t.overlapping

-- `levels` has the entry of level 0 too, which is empty.
pub record LevelState : Type 0 where
  pub l0 : List TableHandle
  pub levels : List (List TableHandle)

unfoldable pub total_size : List TableHandle → ℕ
total_size [] = 0
total_size (h ∷ hs) = (h.file_size + total_size hs) % 2 ^ 64

unfoldable pub level_size : LevelState → ℕ → ℕ
level_size s level =
    if level == 0 || leb (length s.levels) level then 0 else total_size (get_or s.levels level [])

-- `>` of int64, on the bits of its operands.
abbrev pub sign_flipped : ℕ → ℕ
sign_flipped bits = (bits + 2 ^ 63) % 2 ^ 64

abbrev pub above : ℕ → ℕ → Bool
above size target = ltb (sign_flipped target) (sign_flipped size)

-- Comparing with `nil` takes the first handle's keys; the tables' keys are not nil.
unfoldable pub lower : Bytes → List TableHandle → Bytes
lower low [] = low
lower low (h ∷ hs) = lower (if bytes_lt h.first_key low then h.first_key else low) hs

unfoldable pub upper : Bytes → List TableHandle → Bytes
upper high [] = high
upper high (h ∷ hs) = upper (if bytes_lt high h.last_key then h.last_key else high) hs

unfoldable pub key_range : List TableHandle → Bytes × Bytes
key_range [] = ([], [])
key_range (h ∷ hs) = (lower h.first_key hs, upper h.last_key hs)

unfoldable pub overlaps : Bytes → Bytes → TableHandle → Bool
overlaps min_key max_key h =
    not (bytes_lt (user_key max_key) (user_key h.first_key))
    && not (bytes_lt (user_key h.last_key) (user_key min_key))

unfoldable pub find_overlapping : List TableHandle → Bytes → Bytes → List TableHandle
find_overlapping level min_key max_key = keep (overlaps min_key max_key) level

unfoldable pub pick_l0_compaction : LevelState → Option CompactionTask
pick_l0_compaction s =
    let range = key_range s.l0 in
    if length s.l0 == 0
    then none
    else some (record {
      input_level = 0;
      output_level = 1;
      inputs = s.l0;
      overlapping =
          if ltb 1 (length s.levels)
          then find_overlapping (get_or s.levels 1 []) range.0 range.1
          else [];
      min_key = range.0;
      max_key = range.1;
    })

abbrev pub zero_handle : TableHandle
zero_handle = record { id = 0; first_key = []; last_key = []; file_size = 0 }

unfoldable pub pick_level_compaction : LevelState → ℕ → Option CompactionTask
pick_level_compaction s level =
    let tables = get_or s.levels level [] in
    let input = get_or tables 0 zero_handle in
    if leb (length s.levels) level || length tables == 0
    then none
    else some (record {
      input_level = level;
      output_level = level + 1;
      inputs = input ∷ [];
      overlapping =
          if ltb (level + 1) (length s.levels)
          then find_overlapping (get_or s.levels (level + 1) []) input.first_key input.last_key
          else [];
      min_key = input.first_key;
      max_key = input.last_key;
    })

-- The loop over the levels from `level` on, `rounds` of them.
unfoldable pub pick_by_size : ℕ → LevelState → Config → ℕ → ℕ → Option CompactionTask
pick_by_size zero s c level target = none
pick_by_size (suc rounds) s c level target =
    let rest = pick_by_size rounds s c (level + 1) ((target * c.level_size_multiplier) % 2 ^ 64) in
    if above (level_size s level) target then pick_level_compaction s level else rest

unfoldable pub pick_compaction : LevelState → Config → Option CompactionTask
pick_compaction s c =
    if leb c.l0_compaction_trigger (length s.l0)
    then pick_l0_compaction s
    else pick_by_size (c.max_levels - 2) s c 1 c.level_size_base
