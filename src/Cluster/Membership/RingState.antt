-- ===== src/Cluster/Membership/RingState.antt =====
-- cluster/gossip.go: gossip does not touch the ring states.
use lithicdb.Common.{
  ℕ, ◌≡◌, refl, ap, ◌∙◌, Bool-cases, inl, inr, Option, none, some, List, [], ◌∷◌, ◌&&◌, ltb, leb,
  ◌==◌, if_both,
}
use lithicdb.Common.Bytes.{Bytes, bytes_eq}
use lithicdb.Common.Names.{eq_of_bytes_eq}
use lithicdb.Cluster.Membership.{RingMember, rank, MemberState, Membership, member_of}
use lithicdb.Cluster.Membership.Merge.{role_in, merge, merge_all}
use lithicdb.Cluster.Membership.Lattice.{merged, merge-merged}
use lithicdb.Cluster.Membership.Converge.{merge-Kept}

abbrev pub InRole : List RingMember → Bytes → Option MemberState → Type 0
InRole rs j none = Unit
InRole rs j (some s) = s.ring ≡ role_in rs j

-- Every member's ring state is that of the ring descriptor.
abbrev pub InStep : Membership → Type 0
InStep m = (j : Bytes) → InRole m.ring_desc.members j (member_of m.members j)

merged-ring :
    (m : Membership) (old : Option MemberState) (remote : MemberState)
    → InRole m.ring_desc.members remote.node_id old
    → (merged m old remote).ring ≡ role_in m.ring_desc.members remote.node_id
unfolding merged
merged-ring m none remote h = refl
merged-ring m (some own) remote h =
    let Right = λ (s : MemberState). s.ring ≡ role_in m.ring_desc.members remote.node_id in
    if_both Right (bytes_eq remote.node_id m.self_id && ltb 0 (rank remote.liveness))
      (if_both Right (leb own.incarnation remote.incarnation) h h)
      (if_both Right (ltb own.incarnation remote.incarnation) h (
        if_both Right
          (own.incarnation == remote.incarnation && ltb (rank own.liveness) (rank remote.liveness))
          h h))

pub merge-InStep :
    (m : Membership) (remote : MemberState) (time : ℕ) → InStep m → InStep (merge m remote time).0
merge-InStep m remote time h j =
    rw ((merge-Kept m remote time).1, merge-merged m remote time j)
      (elim (Bool-cases (bytes_eq remote.node_id j)) [
        | inr b ↦ rw b (h j)
        | inl b ↦ rw b (
            merged-ring m (member_of m.members remote.node_id) remote (h remote.node_id)
            ∙ ap (role_in m.ring_desc.members) (eq_of_bytes_eq remote.node_id j b))
      ])

-- If every member's ring state is that of the ring descriptor, it is so after any list of updates.
pub merge_all-InStep :
    (us : List MemberState) (m : Membership) (time : ℕ) → InStep m → InStep (merge_all m us time).0
unfolding merge_all
merge_all-InStep [] m time h = h
merge_all-InStep (u ∷ us) m time h =
    merge_all-InStep us (merge m u time).0 time (merge-InStep m u time h)
