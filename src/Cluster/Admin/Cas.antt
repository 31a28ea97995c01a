-- ===== src/Cluster/Admin/Cas.antt =====
-- cluster/admin.go: requests one after another, and two requests that overlap.
use lithicdb.Common.{
  ℕ, ◌+◌, ◌-◌, ◌^◌, ◌<◌, ◌≡◌, ◌≢◌, refl, ap, ◌∙◌, true, false, ◌||◌, List, [], ◌∷◌, ◌++◌, arith,
  Option-cases, inl, inr, leb, ◌==◌,
}
use lithicdb.Common.Bytes.{Bytes, bytes_eq}
use lithicdb.Common.Names.{mem}
use lithicdb.Cluster.Membership.{ring_joining, RingMember, RingDescriptor, Membership}
use lithicdb.Cluster.Membership.Merge.{apply_ring_desc, apply_ring_descriptor}
use lithicdb.Cluster.Admin.{
  Decision, refused, apply, ring_ids, next_version, decide_join, decide_activate, decide_remove,
  finish, entry_state,
}

-- The descriptor that a join applies.
abbrev joined : Membership → Bytes → Bytes → RingDescriptor
joined m id addr = record {
  version = next_version m.ring_desc;
  members =
      m.ring_desc.members ++ (record { node_id = id; addr = addr; state = ring_joining } ∷ []);
}

module _ (m : Membership) (id : Bytes) (expected : ℕ) (rd : RingDescriptor) where
  decide_join-apply :
      (addr : Bytes)
      → decide_join m id addr expected ≡ apply rd
      → (expected ≡ m.ring_desc.version)
        × ((rd ≡ joined m id addr) × (mem id (ring_ids m.ring_desc.members) ≡ false))
  unfolding decide_join
  decide_join-apply addr h = ground arith

-- Of two requests that read the same descriptor the second has no effect, and is answered with
-- success all the same.
finish_overlap :
    (m : Membership) (first second : RingDescriptor)
    → m.ring_desc.version < 2 ^ 64 - 1
    → first.version ≡ next_version m.ring_desc
    → second.version ≡ next_version m.ring_desc
    → finish (finish m (apply first)).0 (apply second) ≡ ((finish m (apply first)).0, true)
unfolding finish apply_ring_descriptor apply_ring_desc
finish_overlap m first second room hf hs =
    let newer : leb first.version m.ring_desc.version ≡ false = ground arith in
    let stale : leb second.version first.version ≡ true = ground arith in rw (newer, stale) refl

-- A request and what is decided on it.
pub data Request : Type 0 where
  joins : Bytes → Bytes → Request
  activates : Bytes → Request
  removes : Bytes → Request

unfoldable pub decide : Membership → Request → ℕ → Decision
decide m (joins id addr) expected = decide_join m id addr expected
decide m (activates id) expected = decide_activate m id expected
decide m (removes id) expected = decide_remove m id expected

version_of : Decision → ℕ
version_of (refused why) = 0
version_of (apply rd) = rd.version

-- A descriptor that is applied is the next one of the version that the request named.
decide-apply :
    (m : Membership) (r : Request) (expected : ℕ) (rd : RingDescriptor)
    → decide m r expected ≡ apply rd
    → (expected ≡ m.ring_desc.version) × (rd.version ≡ next_version m.ring_desc)
unfolding decide decide_join decide_activate decide_remove version_of
decide-apply m (joins id addr) expected rd h = let v = ap version_of h in ground arith
decide-apply m (activates id) expected rd h =
    elim (Option-cases (entry_state m.ring_desc.members id)) [
      | inl e ↦ let v = ap version_of h in ground (arith, e)
      | inr (role, e) ↦ let v = ap version_of h in ground (arith, e)
    ]
decide-apply m (removes id) expected rd h = let v = ap version_of h in ground arith

finish_stale :
    (m : Membership) (r : Request) (expected : ℕ)
    → expected ≢ m.ring_desc.version
    → finish m (decide m r expected) ≡ (m, false)
unfolding decide decide_join decide_activate decide_remove finish
finish_stale m (joins id addr) expected h =
    let e : (expected == m.ring_desc.version) ≡ false = ground arith in ground (arith, e)
finish_stale m (activates id) expected h =
    let e : (expected == m.ring_desc.version) ≡ false = ground arith in ground (arith, e)
finish_stale m (removes id) expected h =
    let e : (expected == m.ring_desc.version) ≡ false = ground arith in ground (arith, e)

applied_version :
    (m : Membership) (rd : RingDescriptor)
    → m.ring_desc.version < 2 ^ 64 - 1
    → rd.version ≡ next_version m.ring_desc
    → ((finish m (apply rd)).0).ring_desc.version ≡ m.ring_desc.version + 1
unfolding finish apply_ring_descriptor apply_ring_desc
applied_version m rd room next =
    let newer : leb rd.version m.ring_desc.version ≡ false = ground arith in rw newer (omega arith)

-- Of two requests of any kind that name the same version and come one after the other, where the
-- first is accepted and the version is not the last one, the second fails and changes nothing.
pub second_refused :
    (m : Membership) (first second : Request) (expected : ℕ) (rd : RingDescriptor)
    → m.ring_desc.version < 2 ^ 64 - 1
    → decide m first expected ≡ apply rd
    → finish (finish m (apply rd)).0 (decide (finish m (apply rd)).0 second expected)
      ≡ ((finish m (apply rd)).0, false)
second_refused m first second expected rd room h =
    let (same, next) = decide-apply m first expected rd h in
    finish_stale (finish m (apply rd)).0 second expected
      (λ e. omega (arith, e, same, applied_version m rd room next))

mem-joined :
    (a : Bytes) (addr b : Bytes) (rs : List RingMember)
    → mem b (ring_ids (rs ++ (record { node_id = a; addr = addr; state = ring_joining } ∷ [])))
      ≡ (mem b (ring_ids rs) || bytes_eq b a)
unfolding mem
mem-joined a addr b [] = ground arith
mem-joined a addr b (r ∷ rs) = ground (arith, mem-joined a addr b rs)

-- Two joins of different nodes that are accepted on the same descriptor, whose version is not the
-- last one, are both answered with success, but the node of the second is not in the ring.
pub join_lost :
    (m : Membership) (a addr_a b addr_b : Bytes) (expected : ℕ) (first second : RingDescriptor)
    → m.ring_desc.version < 2 ^ 64 - 1
    → decide_join m a addr_a expected ≡ apply first
    → decide_join m b addr_b expected ≡ apply second
    → bytes_eq b a ≡ false
    → ((finish m (apply first)).1 ≡ true)
      × ((finish (finish m (apply first)).0 (apply second) ≡ ((finish m (apply first)).0, true))
          × (mem b (ring_ids ((finish m (apply first)).0).ring_desc.members) ≡ false))
unfolding finish apply_ring_descriptor apply_ring_desc
join_lost m a addr_a b addr_b expected first second room ha hb other =
    let ja = decide_join-apply m a expected first addr_a ha in
    let jb = decide_join-apply m b expected second addr_b hb in
    let va = ap (λ (d : RingDescriptor). d.version) (ja.1).0 in
    let vb = ap (λ (d : RingDescriptor). d.version) (jb.1).0 in
    let newer : leb first.version m.ring_desc.version ≡ false = ground arith in
    (
      refl,
      (
        finish_overlap m first second room va vb,
        rw newer (
            ap (λ (d : RingDescriptor). mem b (ring_ids d.members)) (ja.1).0
            ∙ (mem-joined a addr_a b m.ring_desc.members ∙ rw ((jb.1).1, other) refl)),
      ),
    )
