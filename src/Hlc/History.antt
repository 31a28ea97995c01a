-- ===== src/Hlc/History.antt =====
-- hlc/clock.go: a clock over any interleaving of local events and received timestamps.
use lithicdb.Common.{
  ℕ, ◌+◌, ◌^◌, ◌≤◌, ◌<◌, ◌≡◌, true, inl, inr, List, [], ◌∷◌, arith, length, Option-cases,
}
use mathlib.Core.Path.{subst}
use lithicdb.Common.Int.{ℤ}
use lithicdb.Common.Bytes.{All}
use lithicdb.Hlc.{Timestamp, Clock, less, now, update}
use lithicdb.Hlc.Order.{less_trans}
use lithicdb.Hlc.Progress.{now_after, update_after, update_refused, now_logical, update_logical}

-- `Now` at a physical time, or `Update` with a timestamp at a physical time.
pub data Event : Type 0 where
  sends : ℤ → Event
  receives : Timestamp → ℤ → Event

pub step : Clock → Event → Clock
step c (sends pt) = now c pt
step c (receives t pt) = (update c t pt).0

-- The timestamps that the calls of `Now` return, in order.
pub issued : Clock → List Event → List Timestamp
unfolding step
issued c [] = []
issued c (sends pt ∷ es) = (now c pt).last ∷ issued (now c pt) es
issued c (receives t pt ∷ es) = issued (update c t pt).0 es

abbrev pub Increasing : Timestamp → List Timestamp → Type 0
Increasing t [] = Unit
Increasing t (x ∷ xs) = (less t x ≡ true) × Increasing x xs

abbrev pub LogicalUpTo : ℕ → Event → Type 0
LogicalUpTo bound (sends pt) = Unit
LogicalUpTo bound (receives t pt) = t.logical ≤ bound

Increasing-from :
    (t u : Timestamp) (xs : List Timestamp) → less t u ≡ true → Increasing u xs → Increasing t xs
Increasing-from t u [] h inc = tt
Increasing-from t u (x ∷ xs) h (hx, inc) = (less_trans t u x h hx, inc)

LogicalUpTo-mono : (b : ℕ) (es : List Event) → All (LogicalUpTo b) es → All (LogicalUpTo (b + 1)) es
LogicalUpTo-mono b [] h = tt
LogicalUpTo-mono b (sends pt ∷ es) (_, h) = (tt, LogicalUpTo-mono b es h)
LogicalUpTo-mono b (receives t pt ∷ es) (ht, h) = (omega arith, LogicalUpTo-mono b es h)

-- The timestamps that a clock issues are strictly increasing and after its last one, whatever the
-- physical clock says and whatever is received, as long as the logical counters, of which `bound`
-- is a limit, leave room for one step an event.
pub issued-Increasing :
    (c : Clock) (es : List Event) (bound : ℕ)
    → c.last.logical ≤ bound
    → All (LogicalUpTo bound) es
    → bound + length es < 2 ^ 32
    → Increasing c.last (issued c es)
unfolding issued
issued-Increasing c [] bound h hs room = tt
issued-Increasing c (sends pt ∷ es) bound h (_, hs) room = (
  now_after c pt (omega arith),
  issued-Increasing (now c pt) es (bound + 1) (now_logical c pt bound h (omega arith))
      (LogicalUpTo-mono bound es hs) (omega arith),
)
issued-Increasing c (receives t pt ∷ es) bound h (ht, hs) room =
    let rest =
      issued-Increasing (update c t pt).0 es (bound + 1)
        (update_logical c t pt bound h ht (omega arith)) (LogicalUpTo-mono bound es hs)
        (omega arith) in
    elim (Option-cases (update c t pt).1) [
      | inl accepted ↦
          Increasing-from c.last _ _ (update_after c t pt accepted (omega arith) (omega arith)).0
            rest
      | inr (e, refused) ↦
          subst (λ (d : Clock). Increasing d.last (issued (update c t pt).0 es))
            (update_refused c t pt e refused).0 rest
    ]
