-- ===== src/Wal/Calls.antt =====
-- The outcomes of a call, taken apart.
use lithicdb.Common.{◌≡◌, refl, ◌⊎◌, inl, inr}
use lithicdb.Wal.{Outcome, Error, ok, err, panics, stuck, ◌>>=◌}

pub Outcome-cases {ℓ} :
    {A : Type ℓ} (m : Outcome A)
    → ((a : A) × (m ≡ ok a)) ⊎ ((e : Error) × (m ≡ err e)) ⊎ (m ≡ panics) ⊎ (m ≡ stuck)
Outcome-cases (ok a) = inl (a, refl)
Outcome-cases (err e) = inr (inl (e, refl))
Outcome-cases panics = inr (inr (inl refl))
Outcome-cases stuck = inr (inr (inr refl))

-- A chain that returns has a first call that returns.
module _ {ℓ κ} {A : Type ℓ} {B : Type κ} (next : A → Outcome B) {result : B} where
  pub bind_returns :
      (first : Outcome A)
      → (first >>= next) ≡ ok result
      → (x : A) × (first ≡ ok x) × (next x ≡ ok result)
  bind_returns (ok x) chain = (x, refl, chain)
  bind_returns stuck chain = cc
  bind_returns panics chain = cc
  bind_returns (err why) chain = cc
