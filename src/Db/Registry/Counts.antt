-- ===== src/Db/Registry/Counts.antt =====
-- db/snapshot_registry.go: the registry over any history of opened and closed snapshots.
use lithicdb.Common.{
  ℕ, ◌+◌, ◌-◌, ◌<◌, ◌≡◌, refl, some, List, [], ◌∷◌, arith, ◌==◌, if◌then◌else◌, inl, inr,
  Bool-cases,
}
use lithicdb.Db.Registry.{Registry, Snapshot, register, deregister, oldest_seq, close}
use lithicdb.Db.Registry.Order.{
  AscendingFrom, IsSorted, insert_sorted, remove_one, register-insert_sorted, deregister-remove_one,
  register-IsSorted, deregister-IsSorted,
}

-- How many open snapshots have this number.
abbrev pub count : ℕ → List ℕ → ℕ
count a [] = 0
count a (x ∷ xs) = (if a == x then 1 else 0) + count a xs

count-insert_sorted :
    (a s : ℕ) (xs : List ℕ) → count a (insert_sorted s xs) ≡ (if a == s then 1 else 0) + count a xs
unfolding insert_sorted
count-insert_sorted a s [] = refl
count-insert_sorted a s (x ∷ xs) = ground (arith, count-insert_sorted a s xs)

count-remove_one :
    (a s : ℕ) (xs : List ℕ) → count a (remove_one s xs) ≡ count a xs - (if a == s then 1 else 0)
unfolding remove_one
count-remove_one a s [] = ground arith
count-remove_one a s (x ∷ xs) = ground (arith, count-remove_one a s xs)

-- `Register` adds one copy of its number and leaves the others as they are.
pub count-register :
    (a s : ℕ) (seqs : Registry)
    → IsSorted seqs
    → count a (register seqs s) ≡ (if a == s then 1 else 0) + count a seqs
count-register a s seqs h = rw (register-insert_sorted seqs s h) (count-insert_sorted a s seqs)

-- `Deregister` takes one copy of its number away, if there is one, and leaves the others.
pub count-deregister :
    (a s : ℕ) (seqs : Registry)
    → IsSorted seqs
    → count a (deregister seqs s) ≡ count a seqs - (if a == s then 1 else 0)
count-deregister a s seqs h = rw (deregister-remove_one seqs s h) (count-remove_one a s seqs)

below_absent : (lo a : ℕ) (xs : List ℕ) → AscendingFrom lo xs → a < lo → count a xs ≡ 0
below_absent lo a [] h l = refl
below_absent lo a (x ∷ xs) (hx, hs) l = ground (arith, below_absent x a xs hs)

-- The compaction watermark is the smallest open number: no snapshot is open if there is none, and
-- otherwise it is open and nothing below it is.
pub oldest_seq_least :
    (seqs : Registry) (s : ℕ)
    → IsSorted seqs
    → oldest_seq seqs ≡ some s
    → (0 < count s seqs) × ((a : ℕ) → a < s → count a seqs ≡ 0)
unfolding oldest_seq
oldest_seq_least [] s h e = cc
oldest_seq_least (x ∷ xs) s (hx, hs) e =
    (ground arith, λ a l. ground (arith, below_absent x a xs hs))

-- Snapshots are opened at a number and handles closed, in any order and any number of times.
pub data Call : Type 0 where
  opens : ℕ → Call
  closes : Snapshot → Call

pub run : Registry → List Call → Registry
run seqs [] = seqs
run seqs (opens s ∷ calls) = run (register seqs s) calls
run seqs (closes s ∷ calls) = run (close seqs s).0 calls

close-IsSorted : (seqs : Registry) (s : Snapshot) → IsSorted seqs → IsSorted (close seqs s).0
unfolding close
close-IsSorted seqs s h = elim (Bool-cases s.closed) [
  | inl t ↦ rw t h
  | inr t ↦ rw t (deregister-IsSorted seqs s.seq h)
]

-- After any history the registry is sorted.
pub run-IsSorted : (seqs : Registry) (calls : List Call) → IsSorted seqs → IsSorted (run seqs calls)
unfolding run
run-IsSorted seqs [] h = h
run-IsSorted seqs (opens s ∷ calls) h =
    run-IsSorted (register seqs s) calls (register-IsSorted seqs s h)
run-IsSorted seqs (closes s ∷ calls) h =
    run-IsSorted (close seqs s).0 calls (close-IsSorted seqs s h)

-- Closing a snapshot again changes nothing.
pub close_twice :
    (seqs : Registry) (s : Snapshot) → close (close seqs s).0 (close seqs s).1 ≡ close seqs s
unfolding close
close_twice seqs s = ground arith
