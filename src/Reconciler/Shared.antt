-- ===== src/Reconciler/Shared.antt =====
-- A role that two inbound mappings tie to two groups, and a user who is in one of the groups only.
use patrice.Prelude.{◌≢◌, Bool, true, false, Option, none, some, arith}
use patrice.Reconciler.Data.{inbound, Source, native}
use patrice.Reconciler.Edge.{Sides, Settled}

abbrev sides : (external : Bool) → Option Source → Sides
sides external held = record { external = external; held = held }

-- Unless an administrator granted the role, no state of it settles both edges: the one asks that it is
-- held, and the other that no sync granted it.
never-Settled :
    (held : Option Source)
    → held ≢ some native
    → ¬ (Settled inbound (sides true held) × Settled inbound (sides false held))
never-Settled none d (grants, revokes) = ground (arith, grants)
never-Settled (some s) d (grants, revokes) = ground (arith, revokes)
