-- ===== src/Common/Search.antt =====
-- sort.Search: binary search for the first index at which a monotone test holds.
use lithicdb.Common.{
  ℕ, zero, suc, ◌+◌, ◌/◌, ◌≤◌, ◌<◌, ◌≡◌, inl, inr, Bool, true, false, Bool-cases, arith, ltb,
}

-- The loop on `i` and `j`; `n` rounds are enough for it.
search_loop : ℕ → (ℕ → Bool) → ℕ → ℕ → ℕ
search_loop zero test i j = i
search_loop (suc fuel) test i j = elim (ltb i j) [
  | true ↦ elim (test ((i + j) / 2)) [
    | true ↦ search_loop fuel test i ((i + j) / 2)
    | false ↦ search_loop fuel test ((i + j) / 2 + 1) j
  ]
  | false ↦ i
]

unfoldable pub search : ℕ → (ℕ → Bool) → ℕ
unfolding search_loop
search n test = search_loop n test 0 n

-- `r` is the first index below `n` at which the test holds, or `n`.
pub record IsFirst (n : ℕ) (test : ℕ → Bool) (r : ℕ) : Type 0 where
  pub within : r ≤ n
  pub before : (k : ℕ) → k < r → test k ≡ false
  pub here : r < n → test r ≡ true

step_done : (fuel i j : ℕ) (test : ℕ → Bool) → ltb i j ≡ false → search_loop (suc fuel) test i j ≡ i
unfolding search_loop
step_done fuel i j test h = ground arith

step_left :
    (fuel i j : ℕ) (test : ℕ → Bool)
    → ltb i j ≡ true
    → test ((i + j) / 2) ≡ true
    → search_loop (suc fuel) test i j ≡ search_loop fuel test i ((i + j) / 2)
unfolding search_loop
step_left fuel i j test h t = ground arith

step_right :
    (fuel i j : ℕ) (test : ℕ → Bool)
    → ltb i j ≡ true
    → test ((i + j) / 2) ≡ false
    → search_loop (suc fuel) test i j ≡ search_loop fuel test ((i + j) / 2 + 1) j
unfolding search_loop
step_right fuel i j test h t = ground arith

module _ (n : ℕ) (test : ℕ → Bool)
    (monotone : (a b : ℕ) → a ≤ b → b < n → test a ≡ true → test b ≡ true) where
  search_loop-IsFirst :
      (fuel i j : ℕ)
      → j ≤ i + fuel
      → i ≤ j
      → j ≤ n
      → ((k : ℕ) → k < i → test k ≡ false)
      → (j < n → test j ≡ true)
      → IsFirst n test (search_loop fuel test i j)
  unfolding search_loop
  search_loop-IsFirst zero i j f l m before here =
      let e : j ≡ i = omega arith in
      record { within = omega arith; before = before; here = λ h. rw e at (here (omega arith)) }
  search_loop-IsFirst (suc fuel) i j f l m before here = elim (Bool-cases (ltb i j)) [
    | inr done ↦
        let e : j ≡ i = ground arith in
        rw (step_done fuel i j test done) (record {
          within = omega arith;
          before = before;
          here = λ h. rw e at (here (omega arith));
        })
    | inl more ↦ elim (Bool-cases (test ((i + j) / 2))) [
      | inl t ↦ rw (step_left fuel i j test more t) (
          search_loop-IsFirst fuel i ((i + j) / 2) (ground arith) (ground arith) (ground arith)
            before (λ _. t))
      | inr t ↦ rw (step_right fuel i j test more t) (
          search_loop-IsFirst fuel ((i + j) / 2 + 1) j (ground arith) (ground arith) m
            (below_middle ((i + j) / 2) t (ground arith)) here)
    ]
  ]
    where
      below_middle : (mid : ℕ) → test mid ≡ false → mid < n → (k : ℕ) → k < mid + 1 → test k ≡ false
      below_middle mid t lt k h = elim (Bool-cases (test k)) [
        | inr no_k ↦ no_k
        | inl yes_k ↦ cc (monotone k mid (omega arith) lt yes_k)
      ]

  -- The loop ends at the first index.
  pub search-IsFirst : IsFirst n test (search n test)
  unfolding search
  search-IsFirst =
      search_loop-IsFirst n 0 n (omega arith) (omega arith) (omega arith)
        (λ k h. absurd (omega arith)) (λ h. absurd (omega arith))
