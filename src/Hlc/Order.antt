-- ===== src/Hlc/Order.antt =====
-- hlc/timestamp.go: `Less` and `Equal`.
use lithicdb.Common.{◌≡◌, ◌↔◌, true, false, not, arith}
use lithicdb.Common.Int.{eq_of_parts}
use lithicdb.Common.Bytes.{
  compare_bytes_refl, compare_bytes-flip, compare_bytes_trans, eq_of_compare_bytes,
}
use lithicdb.Hlc.{Timestamp, less, equal}

pub less_irrefl : (t : Timestamp) → less t t ≡ false
unfolding less
less_irrefl t = ground (arith, compare_bytes_refl t.node_id)

pub less_trans : (t u v : Timestamp) → less t u ≡ true → less u v ≡ true → less t v ≡ true
unfolding less
less_trans t u v h k = ground (arith, compare_bytes_trans t.node_id u.node_id v.node_id)

pub equal_iff : (t u : Timestamp) → (equal t u ≡ true) ↔ (t ≡ u)
unfolding equal
equal_iff t u = (
  λ h. ground (arith, eq_of_parts t.wall_time u.wall_time, eq_of_compare_bytes t.node_id u.node_id),
  λ e. rw e (ground (arith, compare_bytes_refl u.node_id)),
)

-- Of two timestamps that are not equal exactly one is less.
pub less_total : (t u : Timestamp) → equal t u ≡ false → less u t ≡ not (less t u)
unfolding less equal
less_total t u h = ground (arith, compare_bytes-flip t.node_id u.node_id)
