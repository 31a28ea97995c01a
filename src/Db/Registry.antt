-- ===== src/Db/Registry.antt =====
-- db/snapshot_registry.go and the life of a snapshot in db/snapshot.go: the sequence numbers of
-- the open snapshots, in ascending order.
pub mod Order
pub mod Counts
mod Runs
use lithicdb.Common.{
  ℕ, zero, suc, ◌+◌, ◌≤◌, Bool, true, false, Option, none, some, List, [], ◌∷◌, ◌++◌, ◌&&◌, length,
  take, drop, get_or, ltb, leb, ◌==◌, if◌then◌else◌,
}
use lithicdb.Common.Search.{search}

-- The slice is the whole state under the mutex.
abbrev pub Registry : Type 0
Registry = List ℕ

-- sort.Search for the first element that is at least `seq`.
unfoldable pub position : Registry → ℕ → ℕ
position seqs seq = search (length seqs) (λ i. leb seq (get_or seqs i 0))

unfoldable pub register : Registry → ℕ → Registry
register seqs seq = let i = position seqs seq in take i seqs ++ (seq ∷ drop i seqs)

unfoldable pub deregister : Registry → ℕ → Registry
deregister seqs seq =
    let i = position seqs seq in
    if ltb i (length seqs) && get_or seqs i 0 == seq then take i seqs ++ drop (i + 1) seqs else seqs

unfoldable pub oldest_seq : Registry → Option ℕ
oldest_seq [] = none
oldest_seq (s ∷ seqs) = some s

pub len : Registry → ℕ
len seqs = length seqs

-- A snapshot handle: `Close` deregisters it the first time only.
pub record Snapshot : Type 0 where
  pub seq : ℕ
  pub closed : Bool

unfoldable pub close : Registry → Snapshot → Registry × Snapshot
close seqs s = if s.closed then (seqs, s) else (deregister seqs s.seq, record s { closed = true })
