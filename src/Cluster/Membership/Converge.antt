-- ===== src/Cluster/Membership/Converge.antt =====
-- cluster/gossip.go: the order of merges does not matter, and a node never takes itself for dead.
use lithicdb.Common.{
  ℕ, ◌+◌, ◌≡◌, refl, ap, ◌∙◌, true, false, Bool-cases, Option-cases, if_both, inl, inr, Option,
  none, some, List, [], ◌∷◌, ◌&&◌, arith, ltb, leb, ◌==◌, if◌then◌else◌,
}
use lithicdb.Common.Bytes.{Bytes, bytes_eq}
use lithicdb.Common.Names.{eq_of_bytes_eq}
use lithicdb.Cluster.Membership.{
  LivenessState, alive, suspect, dead, rank, MemberState, Membership, LivenessEvent, member_of,
  put_member, queue_broadcast, liveness_eq, transition, set_liveness,
}
use lithicdb.Cluster.Membership.Merge.{add_member, refute, renew, merge_known, merge, merge_all}
use lithicdb.Cluster.Membership.Lattice.{merged, merge-merged, set_liveness_found}

-- What the merge rule compares: the incarnation and the liveness.
abbrev pub view_of : Option MemberState → Option (ℕ × ℕ)
view_of none = none
view_of (some s) = some (s.incarnation, rank s.liveness)

abbrev pub view : Membership → Bytes → Option (ℕ × ℕ)
view m j = view_of (member_of m.members j)

-- The greater of the two, by the incarnation first.
abbrev pub join : Option (ℕ × ℕ) → ℕ × ℕ → ℕ × ℕ
join none r = r
join (some (i, l)) (j, k) = if ltb i j then (j, k) else if i == j && ltb l k then (j, k) else (i, l)

join_swap : (v : Option (ℕ × ℕ)) (a b : ℕ × ℕ) → join (some (join v a)) b ≡ join (some (join v b)) a
join_swap none (i, l) (j, k) = ground arith
join_swap (some (h, n)) (i, l) (j, k) = ground arith

-- The step keeps the node's own id and the ring description.
abbrev pub Kept : Membership → Membership → Type 0
Kept t m = (t.self_id ≡ m.self_id) × (t.ring_desc ≡ m.ring_desc)

set_liveness-Kept :
    (t : Membership) (id : Bytes) (to : LivenessState) (time : ℕ)
    → Kept (set_liveness t id to time).0 t
unfolding set_liveness transition queue_broadcast
set_liveness-Kept t id to time = elim (Option-cases (member_of t.members id)) [
  | inl e ↦ rw (e, set_liveness) ((refl, refl))
  | inr (s, e) ↦ rw (set_liveness_found t id s to time e) (
      if_both (λ (r : Membership × Option LivenessEvent). Kept r.0 t) (liveness_eq s.liveness to)
        (refl, refl) (refl, refl))
]

module _ (m : Membership) (remote : MemberState) (time : ℕ) where
  refute-Kept : (own : MemberState) → Kept (refute m own remote) m
  unfolding refute queue_broadcast
  refute-Kept own = elim (Bool-cases (leb own.incarnation remote.incarnation)) [
    | inl e ↦ rw e ((refl, refl))
    | inr e ↦ rw e ((refl, refl))
  ]

  renew-Kept : (own : MemberState) → Kept (renew m own remote time).0 m
  unfolding renew queue_broadcast
  renew-Kept own = elim (Bool-cases (liveness_eq remote.liveness own.liveness)) [
    | inl e ↦ rw e ((refl, refl))
    | inr e ↦ rw e (
        set_liveness-Kept
          (record m {
            members =
                put_member m.members (record remote { ring = own.ring; liveness = own.liveness });
            member_gen = m.member_gen + 1;
          })
          remote.node_id remote.liveness time)
  ]

  merge_known-Kept : (own : MemberState) → Kept (merge_known m own remote time).0 m
  unfolding merge_known
  merge_known-Kept own =
      elim (Bool-cases (bytes_eq remote.node_id m.self_id && ltb 0 (rank remote.liveness))) [
        | inl e ↦ rw e (refute-Kept own)
        | inr e ↦ elim (Bool-cases (ltb own.incarnation remote.incarnation)) [
          | inl f ↦ rw (e, f) (renew-Kept own)
          | inr f ↦
              elim (Bool-cases (
                own.incarnation == remote.incarnation
                && ltb (rank own.liveness) (rank remote.liveness))) [
                  | inl g ↦ rw (e, f, g) (set_liveness-Kept m remote.node_id remote.liveness time)
                  | inr g ↦ rw (e, f, g) ((refl, refl))
                ]
        ]
      ]

  pub merge-Kept : Kept (merge m remote time).0 m
  unfolding merge add_member
  merge-Kept = elim (Option-cases (member_of m.members remote.node_id)) [
    | inl e ↦ rw (e, merge) ((refl, refl))
    | inr (own, e) ↦ rw (e, merge) (merge_known-Kept own)
  ]

  merged-join :
      (old : Option MemberState)
      → bytes_eq remote.node_id m.self_id ≡ false
      → view_of (some (merged m old remote))
        ≡ some (join (view_of old) (remote.incarnation, rank remote.liveness))
  unfolding merged
  merged-join none h = refl
  merged-join (some own) h = rw h (ground arith)

  -- A merge about another node joins the entry of that node with the update, and leaves the rest.
  merge-join :
      (j : Bytes)
      → bytes_eq remote.node_id m.self_id ≡ false
      → view (merge m remote time).0 j ≡ (
          if bytes_eq remote.node_id j
          then some (join (view m j) (remote.incarnation, rank remote.liveness))
          else view m j)
  merge-join j h =
      rw (merge-merged m remote time j) (elim (Bool-cases (bytes_eq remote.node_id j)) [
        | inr e ↦ rw e refl
        | inl e ↦ rw e (
            merged-join (member_of m.members remote.node_id) h
            ∙ ap (λ (x : Bytes). some (join (view m x) (remote.incarnation, rank remote.liveness)))
                (eq_of_bytes_eq remote.node_id j e))
      ])

-- Two updates about other nodes leave the same incarnations and liveness states in either order.
pub merge_comm :
    (m : Membership) (a b : MemberState) (time time' : ℕ) (j : Bytes)
    → bytes_eq a.node_id m.self_id ≡ false
    → bytes_eq b.node_id m.self_id ≡ false
    → view (merge (merge m a time).0 b time').0 j ≡ view (merge (merge m b time').0 a time).0 j
merge_comm m a b time time' j ha hb =
    rw
      (
        merge-join (merge m a time).0 b time' j (other_id m a b time hb),
        merge-join (merge m b time').0 a time j (other_id m b a time' ha),
        merge-join m a time j ha,
        merge-join m b time' j hb,
      )
      (elim (Bool-cases (bytes_eq a.node_id j)) [
        | inr e ↦ rw e refl
        | inl e ↦ elim (Bool-cases (bytes_eq b.node_id j)) [
          | inr f ↦ rw (e, f) refl
          | inl f ↦
              rw (e, f)
                (ap some (
                  join_swap (view m j) (a.incarnation, rank a.liveness)
                    (b.incarnation, rank b.liveness)))
        ]
      ])
  where
    other_id :
        (t : Membership) (x y : MemberState) (now : ℕ)
        → bytes_eq y.node_id t.self_id ≡ false
        → bytes_eq y.node_id ((merge t x now).0).self_id ≡ false
    other_id t x y now h = rw ((merge-Kept t x now).0) h

-- The node's own entry is there and alive.
abbrev pub SelfAlive : Membership → Type 0
SelfAlive m =
    (own : MemberState) × ((member_of m.members m.self_id ≡ some own) × (own.liveness ≡ alive))

merged-alive :
    (m : Membership) (own remote : MemberState)
    → own.liveness ≡ alive
    → bytes_eq remote.node_id m.self_id ≡ true
    → (merged m (some own) remote).liveness ≡ alive
unfolding merged
merged-alive m own remote h self = elim (Bool-cases (ltb 0 (rank remote.liveness))) [
  | inl e ↦ rw (self, e) (if_both Up (leb own.incarnation remote.incarnation) refl h)
  | inr e ↦
      rw (self, e)
        (if_both Up (ltb own.incarnation remote.incarnation) (rank_zero remote.liveness e) (
          if_both Up
            (own.incarnation == remote.incarnation
              && ltb (rank own.liveness) (rank remote.liveness))
            (rank_zero remote.liveness e) h))
]
  where
    Up : MemberState → Type 0
    Up s = s.liveness ≡ alive

    rank_zero : (l : LivenessState) → ltb 0 (rank l) ≡ false → l ≡ alive
    rank_zero alive e = refl
    rank_zero suspect e = ground arith
    rank_zero dead e = ground arith

-- No update makes a node that is alive in its own table take itself for suspect or dead.
pub merge-SelfAlive :
    (m : Membership) (remote : MemberState) (time : ℕ)
    → SelfAlive m
    → SelfAlive (merge m remote time).0
merge-SelfAlive m remote time (own, (there, up)) =
    elim (Bool-cases (bytes_eq remote.node_id m.self_id)) [
      | inr e ↦ (own, (entry ∙ (merge-merged m remote time m.self_id ∙ rw e there), up))
      | inl e ↦
          let same : remote.node_id ≡ m.self_id = eq_of_bytes_eq remote.node_id m.self_id e in
          let known : member_of m.members remote.node_id ≡ some own =
            ap (member_of m.members) same ∙ there in
          (
            merged m (some own) remote,
            (
              entry ∙ (merge-merged m remote time m.self_id ∙ rw (e, known) refl),
              merged-alive m own remote up e,
            ),
          )
    ]
  where
    entry :
        member_of ((merge m remote time).0).members ((merge m remote time).0).self_id
        ≡ member_of ((merge m remote time).0).members m.self_id
    entry = ap (member_of ((merge m remote time).0).members) ((merge-Kept m remote time).0)

-- No list of updates makes a node that is alive in its own table take itself for suspect or dead.
pub merge_all-SelfAlive :
    (us : List MemberState) (m : Membership) (time : ℕ)
    → SelfAlive m
    → SelfAlive (merge_all m us time).0
unfolding merge_all
merge_all-SelfAlive [] m time h = h
merge_all-SelfAlive (u ∷ us) m time h =
    merge_all-SelfAlive us (merge m u time).0 time (merge-SelfAlive m u time h)
