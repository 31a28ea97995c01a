-- ===== src/Cluster/Membership/Lattice.antt =====
-- cluster/gossip.go: what a merge does to the table, and that the order of merges does not matter.
use lithicdb.Common.{
  ℕ, ◌+◌, ◌%◌, ◌^◌, ◌≡◌, refl, ap, sym, ◌∙◌, true, false, Bool-cases, Option-cases, inl, inr,
  Option, none, some, List, [], ◌∷◌, ◌&&◌, arith, ltb, leb, ◌==◌, if◌then◌else◌,
}
use lithicdb.Common.Bytes.{Bytes, bytes_eq, compare_bytes_refl}
use lithicdb.Common.Names.{eq_of_bytes_eq, bytes_eq_sym}
use lithicdb.Cluster.Membership.{
  LivenessState, alive, suspect, dead, rank, MemberState, Membership, member_of, put_member,
  queue_broadcast, liveness_eq, transition, set_liveness,
}
use lithicdb.Cluster.Membership.Merge.{role_in, add_member, refute, renew, merge_known, merge}

pub member_of-put_member :
    (ms : List MemberState) (s : MemberState) (j : Bytes)
    → member_of (put_member ms s) j ≡ (if bytes_eq s.node_id j then some s else member_of ms j)
unfolding member_of put_member
member_of-put_member [] s j = refl
member_of-put_member (m ∷ ms) s j = elim (Bool-cases (bytes_eq m.node_id s.node_id)) [
  | inl e ↦
      let same : bytes_eq m.node_id j ≡ bytes_eq s.node_id j =
        ap (λ (x : Bytes). bytes_eq x j) (eq_of_bytes_eq m.node_id s.node_id e) in
      rw (e, same)
        (elim (Bool-cases (bytes_eq s.node_id j)) [ inl h ↦ rw h refl | inr h ↦ rw h refl ])
  | inr e ↦ rw e (elim (Bool-cases (bytes_eq m.node_id j)) [
    | inr h ↦ rw h (member_of-put_member ms s j)
    | inl h ↦
        let other : bytes_eq s.node_id j ≡ false =
          ap (λ (x : Bytes). bytes_eq s.node_id x) (sym (eq_of_bytes_eq m.node_id j h))
          ∙ (bytes_eq_sym s.node_id m.node_id ∙ e) in
        rw (h, other) refl
  ])
]

pub member_of-id :
    (ms : List MemberState) (j : Bytes) (s : MemberState) → member_of ms j ≡ some s → s.node_id ≡ j
unfolding member_of
member_of-id [] j s h = ground arith
member_of-id (m ∷ ms) j s h = ground (arith, h, member_of-id ms j s, eq_of_bytes_eq m.node_id j)

liveness_eq-eq : (a b : LivenessState) → liveness_eq a b ≡ true → a ≡ b
liveness_eq-eq alive alive h = refl
liveness_eq-eq suspect suspect h = refl
liveness_eq-eq dead dead h = refl
liveness_eq-eq alive suspect h = ground arith
liveness_eq-eq alive dead h = ground arith
liveness_eq-eq suspect alive h = ground arith
liveness_eq-eq suspect dead h = ground arith
liveness_eq-eq dead alive h = ground arith
liveness_eq-eq dead suspect h = ground arith

member_of_here :
    (ms : List MemberState) (s : MemberState) (id j : Bytes)
    → member_of ms id ≡ some s
    → member_of ms j ≡ (if bytes_eq id j then some s else member_of ms j)
member_of_here ms s id j h = elim (Bool-cases (bytes_eq id j)) [
  | inr e ↦ rw e refl
  | inl e ↦ rw e (ap (member_of ms) (sym (eq_of_bytes_eq id j e)) ∙ h)
]

pub set_liveness_found :
    (m : Membership) (id : Bytes) (ms : MemberState) (to : LivenessState) (time : ℕ)
    → member_of m.members id ≡ some ms
    → set_liveness m id to time ≡ (
        if liveness_eq ms.liveness to
        then (m, none)
        else (transition m ms to time, some (record { node_id = id; from = ms.liveness; to = to })))
unfolding set_liveness
set_liveness_found m id ms to time h = rw (h, set_liveness) refl

transition-member_of :
    (m : Membership) (ms : MemberState) (to : LivenessState) (time : ℕ) (j : Bytes)
    → member_of (transition m ms to time).members j ≡ (
        if bytes_eq ms.node_id j then some (record ms { liveness = to }) else member_of m.members j)
unfolding transition queue_broadcast
transition-member_of m ms to time j = member_of-put_member m.members (record ms { liveness = to }) j

pub set_liveness-member_of :
    (m : Membership) (id j : Bytes) (ms : MemberState) (to : LivenessState) (time : ℕ)
    → member_of m.members id ≡ some ms
    → member_of ((set_liveness m id to time).0).members j
      ≡ (if bytes_eq id j then some (record ms { liveness = to }) else member_of m.members j)
set_liveness-member_of m id j ms to time h =
    rw (set_liveness_found m id ms to time h) (elim (Bool-cases (liveness_eq ms.liveness to)) [
      | inl e ↦ rw e (
          member_of_here m.members ms id j h
          ∙ ap
              (λ (l : LivenessState).
                if bytes_eq id j then some (record ms { liveness = l }) else member_of m.members j)
              (liveness_eq-eq ms.liveness to e))
      | inr e ↦ rw e (
          transition-member_of m ms to time j
          ∙ ap
              (λ (x : Bytes).
                if bytes_eq x j then some (record ms { liveness = to }) else member_of m.members j)
              (member_of-id m.members id ms h))
    ])

-- The specification: what an update makes of the entry of its node.
unfoldable pub merged : Membership → Option MemberState → MemberState → MemberState
merged m none remote = record remote { ring = role_in m.ring_desc.members remote.node_id }
merged m (some own) remote =
    if bytes_eq remote.node_id m.self_id && ltb 0 (rank remote.liveness)
    then (if leb own.incarnation remote.incarnation
        then record own { incarnation = (remote.incarnation + 1) % 2 ^ 64; liveness = alive }
        else own)
    else if ltb own.incarnation remote.incarnation
    then record remote { ring = own.ring }
    else if own.incarnation == remote.incarnation && ltb (rank own.liveness) (rank remote.liveness)
    then record own { liveness = remote.liveness }
    else own

abbrev at : Bytes → MemberState → Option MemberState → Bytes → Option MemberState
at id s old j = if bytes_eq id j then some s else old

module _ (m : Membership) (own remote : MemberState) (time : ℕ) (j : Bytes)
    (here : member_of m.members remote.node_id ≡ some own) where
  own_id : own.node_id ≡ remote.node_id
  own_id = member_of-id m.members remote.node_id own here

  abbrev renewed : MemberState
  renewed = record remote { ring = own.ring; liveness = own.liveness }

  abbrev renewed_table : Membership
  renewed_table = record m { members = put_member m.members renewed; member_gen = m.member_gen + 1 }

  found : member_of renewed_table.members remote.node_id ≡ some renewed
  found =
      member_of-put_member m.members renewed remote.node_id
      ∙ rw (compare_bytes_refl remote.node_id) refl

  put_twice :
      at remote.node_id (record remote { ring = own.ring }) (member_of renewed_table.members j) j
      ≡ at remote.node_id (record remote { ring = own.ring }) (member_of m.members j) j
  put_twice = elim (Bool-cases (bytes_eq remote.node_id j)) [
    | inl h ↦ rw h refl
    | inr h ↦ rw h (member_of-put_member m.members renewed j ∙ rw h refl)
  ]

  renew-member_of :
      member_of ((renew m own remote time).0).members j
      ≡ at remote.node_id (record remote { ring = own.ring }) (member_of m.members j) j
  unfolding renew queue_broadcast
  renew-member_of = elim (Bool-cases (liveness_eq remote.liveness own.liveness)) [
    | inl e ↦ rw e (
        member_of-put_member m.members renewed j
        ∙ ap
            (λ (l : LivenessState).
              at remote.node_id (record remote { ring = own.ring; liveness = l })
                (member_of m.members j) j)
            (sym (liveness_eq-eq remote.liveness own.liveness e)))
    | inr e ↦ rw e (
        set_liveness-member_of renewed_table remote.node_id j renewed remote.liveness time found
        ∙ put_twice)
  ]

  abbrev refuted : MemberState
  refuted = record own { incarnation = (remote.incarnation + 1) % 2 ^ 64; liveness = alive }

  refute-member_of :
      member_of (refute m own remote).members j
      ≡ at remote.node_id
          (if leb own.incarnation remote.incarnation
            then record own { incarnation = (remote.incarnation + 1) % 2 ^ 64; liveness = alive }
            else own)
          (member_of m.members j)
          j
  unfolding refute queue_broadcast
  refute-member_of = elim (Bool-cases (leb own.incarnation remote.incarnation)) [
    | inr e ↦ rw e (member_of_here m.members own remote.node_id j here)
    | inl e ↦ rw e (
        member_of-put_member m.members refuted j
        ∙ ap (λ (x : Bytes). at x refuted (member_of m.members j) j) own_id)
  ]

  merge_known-member_of :
      member_of ((merge_known m own remote time).0).members j
      ≡ at remote.node_id (merged m (some own) remote) (member_of m.members j) j
  unfolding merge_known merged
  merge_known-member_of =
      elim (Bool-cases (bytes_eq remote.node_id m.self_id && ltb 0 (rank remote.liveness))) [
        | inl e ↦ rw e refute-member_of
        | inr e ↦ elim (Bool-cases (ltb own.incarnation remote.incarnation)) [
          | inl f ↦ rw (e, f) renew-member_of
          | inr f ↦
              elim (Bool-cases (
                own.incarnation == remote.incarnation
                && ltb (rank own.liveness) (rank remote.liveness))) [
                  | inl g ↦
                      rw (e, f, g)
                        (set_liveness-member_of m remote.node_id j own remote.liveness time here)
                  | inr g ↦ rw (e, f, g) (member_of_here m.members own remote.node_id j here)
                ]
        ]
      ]

-- After a merge the entry of the update's node is what the rule makes of it, and every other entry
-- is as before.
pub merge-merged :
    (m : Membership) (remote : MemberState) (time : ℕ) (j : Bytes)
    → member_of ((merge m remote time).0).members j ≡ (
        if bytes_eq remote.node_id j
        then some (merged m (member_of m.members remote.node_id) remote)
        else member_of m.members j)
unfolding merge
merge-merged m remote time j = elim (Option-cases (member_of m.members remote.node_id)) [
  | inl e ↦ rw (e, merge) (unfold merged add_member in member_of-put_member m.members _ j)
  | inr (own, e) ↦ rw (e, merge) (merge_known-member_of m own remote time j e)
]
