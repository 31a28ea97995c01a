-- ===== src/Memtable/Seek.antt =====
-- memtable/skiplist.go: the descent through the levels finds what a walk along level 0 finds.
use lithicdb.Common.{
  ℕ, zero, suc, ◌-◌, ◌≤◌, ◌≡◌, refl, sym, append_assoc, ◌++◌, ◌∙◌, true, Bool-cases, inl, inr, List,
  [], ◌∷◌, arith, leb, if◌then◌else◌,
}
use lithicdb.Common.Bytes.{Bytes, All, bytes_lt, NotAfter, NotAfter-lt}
use lithicdb.Memtable.{SkipListNode, SkipList, walk_level, descend, find_greater_or_equal}

abbrev pub IsOrdered : List SkipListNode → Type 0
IsOrdered [] = Unit
IsOrdered (n ∷ ns) = All (λ m. NotAfter n.key m.key) ns × IsOrdered ns

abbrev pub IsLinked : SkipListNode → Type 0
IsLinked n = 1 ≤ n.height

-- The specification: the nodes from the first one that is not below the target.
unfoldable pub from : Bytes → List SkipListNode → List SkipListNode
from target [] = []
from target (n ∷ ns) = if bytes_lt n.key target then from target ns else n ∷ ns

-- Every node of the list is below the target.
abbrev AllBelow : Bytes → List SkipListNode → Type 0
AllBelow target ns = All (λ m. bytes_lt m.key target ≡ true) ns

from-append_below :
    (target : Bytes) (pre ns : List SkipListNode)
    → AllBelow target pre
    → from target (pre ++ ns) ≡ from target ns
unfolding from
from-append_below target [] ns h = refl
from-append_below target (p ∷ pre) ns (hp, hs) = rw hp (from-append_below target pre ns hs)

-- What stands before a node below the target is below it too.
before_below :
    (target : Bytes) (pre ns : List SkipListNode) (n : SkipListNode)
    → IsOrdered (pre ++ (n ∷ ns))
    → bytes_lt n.key target ≡ true
    → AllBelow target pre
before_below target [] ns n o h = tt
before_below target (p ∷ pre) ns n (op, os) h =
    (NotAfter-lt p.key n.key target (middle pre op) h, before_below target pre ns n os h)
  where
    middle :
        (xs : List SkipListNode)
        → All (λ m. NotAfter p.key m.key) (xs ++ (n ∷ ns))
        → NotAfter p.key n.key
    middle [] a = a.0
    middle (x ∷ xs) a = middle xs a.1

IsOrdered-drop_front : (pre ns : List SkipListNode) → IsOrdered (pre ++ ns) → IsOrdered ns
IsOrdered-drop_front [] ns o = o
IsOrdered-drop_front (p ∷ pre) ns o = IsOrdered-drop_front pre ns o.1

walk_level-from :
    (i : ℕ) (target : Bytes) (pre ahead : List SkipListNode)
    → IsOrdered (pre ++ ahead)
    → from target (walk_level i target (pre ++ ahead) ahead) ≡ from target (pre ++ ahead)
unfolding walk_level
walk_level-from i target pre [] o = refl
walk_level-from i target pre (n ∷ ahead) o = elim (Bool-cases (leb n.height i)) [
  | inl unlinked ↦ rw unlinked (
      rw (← append_assoc pre (n ∷ []) ahead)
        (walk_level-from i target (pre ++ n ∷ []) ahead (rw append_assoc o)))
  | inr linked ↦ elim (Bool-cases (bytes_lt n.key target)) [
    | inr stop ↦ rw (linked, stop)
    | inl go ↦
        rw (linked, go)
          (walk_level-from i target [] ahead (IsOrdered-drop_front pre (n ∷ ahead) o).1
            ∙ sym (
                from-append_below target pre (n ∷ ahead) (before_below target pre ahead n o go)
                ∙ unfold from in rw go))
  ]
]

walk_level_zero :
    (target : Bytes) (ns : List SkipListNode)
    → All IsLinked ns
    → walk_level 0 target ns ns ≡ from target ns
unfolding walk_level from
walk_level_zero target [] l = refl
walk_level_zero target (n ∷ ns) (ln, ls) = ground (arith, walk_level_zero target ns ls)

module _ (i : ℕ) (target : Bytes) where
  walk_level-IsOrdered :
      (at ahead : List SkipListNode)
      → IsOrdered at
      → IsOrdered ahead
      → IsOrdered (walk_level i target at ahead)
  unfolding walk_level
  walk_level-IsOrdered at [] o p = o
  walk_level-IsOrdered at (n ∷ ahead) o p = elim (Bool-cases (leb n.height i)) [
    | inl t ↦ rw t (walk_level-IsOrdered at ahead o p.1)
    | inr t ↦ elim (Bool-cases (bytes_lt n.key target)) [
      | inl u ↦ rw (t, u) (walk_level-IsOrdered ahead ahead p.1 p.1)
      | inr u ↦ rw (t, u) o
    ]
  ]

  walk_level-IsLinked :
      (at ahead : List SkipListNode)
      → All IsLinked at
      → All IsLinked ahead
      → All IsLinked (walk_level i target at ahead)
  unfolding walk_level
  walk_level-IsLinked at [] o p = o
  walk_level-IsLinked at (n ∷ ahead) o p = elim (Bool-cases (leb n.height i)) [
    | inl t ↦ rw t (walk_level-IsLinked at ahead o p.1)
    | inr t ↦ elim (Bool-cases (bytes_lt n.key target)) [
      | inl u ↦ rw (t, u) (walk_level-IsLinked ahead ahead p.1 p.1)
      | inr u ↦ rw (t, u) o
    ]
  ]

descend-from :
    (i : ℕ) (target : Bytes) (ns : List SkipListNode)
    → IsOrdered ns
    → All IsLinked ns
    → descend (suc i) target ns ≡ from target ns
unfolding descend
descend-from zero target ns o l = walk_level_zero target ns l
descend-from (suc i) target ns o l =
    descend-from i target (walk_level (suc i) target ns ns)
      (walk_level-IsOrdered (suc i) target ns ns o o) (walk_level-IsLinked (suc i) target ns ns l l)
    ∙ walk_level-from (suc i) target [] ns o

-- What every skip list keeps: the nodes are in key order, and each is linked on level 0.
pub record IsSkipList (s : SkipList) : Type 0 where
  pub ordered : IsOrdered s.nodes
  pub linked : All IsLinked s.nodes
  pub levels : 1 ≤ s.height

-- The search through the levels finds the first node that is not below the target.
pub find_greater_or_equal-from :
    (s : SkipList) (target : Bytes)
    → IsSkipList s
    → find_greater_or_equal s target ≡ from target s.nodes
unfolding find_greater_or_equal
find_greater_or_equal-from s target v =
    let e : s.height ≡ suc (s.height - 1) = omega (arith, v.levels) in
    rw e (descend-from (s.height - 1) target s.nodes v.ordered v.linked)
