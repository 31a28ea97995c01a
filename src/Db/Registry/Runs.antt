-- ===== src/Db/Registry/Runs.antt =====
-- db/snapshot_registry.go: runs on concrete histories.
use lithicdb.Common.{◌≡◌, refl, false, [], ◌∷◌, arith}
use lithicdb.Common.Search.{search}
use lithicdb.Db.Registry.{Registry, Snapshot, position, register, deregister}
use lithicdb.Db.Registry.Order.{IsSorted}

abbrev three : Registry
three = 3 ∷ 5 ∷ 5 ∷ []

abbrev handle : Snapshot
handle = record { seq = 5; closed = false }

register_run : register three 4 ≡ 3 ∷ 4 ∷ 5 ∷ 5 ∷ []
unfolding register position search
register_run = refl

deregister_run : deregister three 5 ≡ 3 ∷ 5 ∷ []
unfolding deregister position search
deregister_run = refl

three-IsSorted : IsSorted three
three-IsSorted = omega arith
