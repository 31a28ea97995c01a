-- ===== src/Hashring/Walk.antt =====
-- hashring/ring.go: the loop that collects distinct owners, against the list of owners it passes.
use lithicdb.Common.{
  ℕ, zero, suc, ◌+◌, ◌-◌, ◌%◌, ◌≤◌, ◌<◌, ◌≡◌, refl, ap, sym, ◌∙◌, Bool, Bool-cases, inl, inr, List,
  [], ◌∷◌, ◌++◌, append_assoc, append-nil, length, length-append, take, drop, get_or, arith, ◌==◌,
  if◌then◌else◌, ◌||◌,
}
use lithicdb.Common.Bytes.{Bytes, bytes_eq}
use lithicdb.Common.Names.{mem, distinct}
use lithicdb.Hashring.{VNode, zero_vnode, owner_ids, collect}

-- What the loop looks at, round by round.
visit : ℕ → List VNode → ℕ → List VNode
visit zero vs idx = []
visit (suc rounds) vs idx = get_or vs idx zero_vnode ∷ visit rounds vs ((idx + 1) % length vs)

pub drop-get_or :
    (vs : List VNode) (i : ℕ) → i < length vs → drop i vs ≡ get_or vs i zero_vnode ∷ drop (suc i) vs
drop-get_or [] i h = absurd (omega arith)
drop-get_or (v ∷ vs) zero h = refl
drop-get_or (v ∷ vs) (suc i) h = drop-get_or vs i (omega arith)

pub drop_end : (vs : List VNode) (i : ℕ) → i ≡ length vs → drop i vs ≡ []
drop_end [] zero h = refl
drop_end [] (suc i) h = refl
drop_end (v ∷ vs) zero h = absurd (omega arith)
drop_end (v ∷ vs) (suc i) h = drop_end vs i (omega arith)

module _ (vs : List VNode) where
  next_inside : (i : ℕ) → i + 1 < length vs → (i + 1) % length vs ≡ suc i
  next_inside i h = grind arith

  next_wraps : (i : ℕ) → i + 1 ≡ length vs → (i + 1) % length vs ≡ 0
  next_wraps i h = rw (sym h) (grind arith)

  visit-inside : (k i : ℕ) → i + k ≤ length vs → visit k vs i ≡ take k (drop i vs)
  unfolding visit
  visit-inside zero i h = refl
  visit-inside (suc zero) i h = rw (drop-get_or vs i (omega arith))
  visit-inside (suc (suc k)) i h =
      rw (drop-get_or vs i (omega arith), next_inside i (omega arith))
        (ap (λ (l : List VNode). get_or vs i zero_vnode ∷ l)
          (visit-inside (suc k) (suc i) (omega arith)))

  visit-around :
      (k m r i : ℕ)
      → r ≡ k + m
      → 1 ≤ k
      → i + k ≡ length vs
      → visit r vs i ≡ drop i vs ++ visit m vs 0
  unfolding visit
  visit-around zero m r i e l h = absurd (omega arith)
  visit-around (suc k) m zero i e l h = absurd (omega arith)
  visit-around (suc zero) m (suc r) i e l h =
      let same : r ≡ m = omega arith in
      rw (
        drop-get_or vs i (omega arith),
        drop_end vs (suc i) (omega arith),
        next_wraps i (omega arith),
        same,
      )
  visit-around (suc (suc k)) m (suc r) i e l h =
      rw (drop-get_or vs i (omega arith), next_inside i (omega arith))
        (ap (λ (rest : List VNode). get_or vs i zero_vnode ∷ rest)
          (visit-around (suc k) m r (suc i) (omega arith) (omega arith) (omega arith)))

  -- One round trip passes every virtual node, from the starting one on.
  visit_lem : (i : ℕ) → i < length vs → visit (length vs) vs i ≡ drop i vs ++ take i vs
  visit_lem i h =
      visit-around (length vs - i) i (length vs) i (omega arith) (omega arith) (omega arith)
      ∙ ap (λ (rest : List VNode). drop i vs ++ rest) (visit-inside i 0 (omega arith))

-- The loop's body over the ids that it meets.
gather : ℕ → List Bytes → List Bytes → List Bytes
gather n [] window = window
gather n (id ∷ ids) window =
    let again = gather n ids window in
    let more = gather n ids (window ++ (id ∷ [])) in
    if mem id window
    then again
    else if length (window ++ (id ∷ [])) == n
    then window ++ (id ∷ [])
    else more

collect-visit :
    (rounds : ℕ) (vs : List VNode) (n idx : ℕ) (window : List Bytes)
    → collect rounds vs n idx window ≡ gather n (owner_ids (visit rounds vs idx)) window
unfolding collect visit gather
collect-visit zero vs n idx window = refl
collect-visit (suc rounds) vs n idx window =
    let id = (get_or vs idx zero_vnode).node_id in
    let next = (idx + 1) % length vs in
    rw (collect-visit rounds vs n next window, collect-visit rounds vs n next (window ++ (id ∷ [])))

mem_snoc : (x id : Bytes) (ids : List Bytes) → mem x (ids ++ (id ∷ [])) ≡ mem x (id ∷ ids)
unfolding mem
mem_snoc x id [] = refl
mem_snoc x id (i ∷ ids) = ground (arith, mem_snoc x id ids)

distinct_cong :
    (ids s t : List Bytes) → ((x : Bytes) → mem x s ≡ mem x t) → distinct s ids ≡ distinct t ids
unfolding distinct
distinct_cong [] s t h = refl
distinct_cong (i ∷ ids) s t h = rw (
  h i,
  distinct_cong ids s t h,
  distinct_cong ids (i ∷ s) (i ∷ t) (λ x. unfold mem in ap (λ (b : Bool). bytes_eq x i || b) (h x)),
)

pub take_nil : (k : ℕ) → take {A = Bytes} k [] ≡ []
take_nil zero = refl
take_nil (suc k) = refl

take-suc :
    (n k : ℕ) (id : Bytes) (ids : List Bytes) → n ≡ suc k → take n (id ∷ ids) ≡ id ∷ take k ids
take-suc n k id ids h = rw h

gather-distinct :
    (n : ℕ) (ids window : List Bytes)
    → length window < n
    → gather n ids window ≡ window ++ take (n - length window) (distinct window ids)
unfolding gather distinct
gather-distinct n [] window h = sym (rw take_nil (append-nil window))
gather-distinct n (id ∷ ids) window h = elim (Bool-cases (mem id window)) [
  | inl t ↦ rw t (gather-distinct n ids window h)
  | inr t ↦
      let longer : length (window ++ (id ∷ [])) ≡ length window + 1 =
        omega (arith, length-append window (id ∷ [])) in
      elim (Bool-cases (length (window ++ (id ∷ [])) == n)) [
        | inl full ↦ rw (
          t,
          full,
          take-suc (n - length window) 0 id (distinct (id ∷ window) ids) (ground (arith, longer)),
        )
        | inr room ↦ rw (
          t,
          room,
          take-suc (n - length window) (n - length (window ++ (id ∷ []))) id
              (distinct (id ∷ window) ids) (ground (arith, longer)),
          gather-distinct n ids (window ++ (id ∷ [])) (ground (arith, longer)),
          distinct_cong ids (window ++ (id ∷ [])) (id ∷ window) (λ x. mem_snoc x id window),
          append_assoc,
        )
      ]
]

-- From a position of the ring the loop collects the first `n` distinct owners.
pub collect-distinct :
    (vs : List VNode) (n idx : ℕ)
    → 1 ≤ n
    → idx < length vs
    → collect (length vs) vs n idx []
      ≡ take n (distinct [] (owner_ids (drop idx vs ++ take idx vs)))
collect-distinct vs n idx h l =
    let all : n - 0 ≡ n = omega arith in
    let passed = owner_ids (drop idx vs ++ take idx vs) in
    rw (collect-visit (length vs) vs n idx [], visit_lem vs idx l)
      (gather-distinct n passed [] (omega arith) ∙ ap (λ (k : ℕ). take k (distinct [] passed)) all)
