-- ===== src/Reconciler/Edge.antt =====
-- One edge, a user's membership in a mapped group: what the two sides agree on after its operation.
use patrice.Prelude.{
  ◌≡◌, ◌⊎◌, ◌↔◌, Bool, true, false, not, ◌&&◌, ◌||◌, Option, none, some, arith, is_some,
  if◌then◌else◌,
}
use patrice.Reconciler.Data.{
  SyncDirection, inbound, bidirectional, ConflictWinner, external_wins, Source, native, integration,
  grant, revoke, add, remove,
}
use patrice.Reconciler.{
  EdgeOp, nothing, pa, ext, differ, is_integration, cold_edge, warm_edge, bidirectional_edge, edge,
}

-- The two sides: the external membership, and the role held in Patrice with its source.
pub record Sides : Type 0 where
  pub external : Bool
  pub held : Option Source

-- What an operation does to the sides once the adapter has carried it out.
abbrev pub carry_out : EdgeOp → Sides → Sides
carry_out nothing s = s
carry_out (pa grant) s = record s { held = some integration }
carry_out (pa revoke) s = record s { held = none }
carry_out (ext add) s = record s { external = true }
carry_out (ext remove) s = record s { external = false }

-- Inbound asks that members hold the role, and that a role which a sync granted is held by members
-- only; the other directions ask that the sides agree.
abbrev pub Settled : SyncDirection → Sides → Type 0
Settled inbound s =
    (s.external ≡ true → is_some s.held ≡ true) × (s.held ≡ some integration → s.external ≡ true)
Settled _ s = s.external ≡ is_some s.held

-- The one disagreement that stays: with no baseline the external side wins, but it lacks a role
-- that an administrator granted.
abbrev pub Stalled : SyncDirection → Option Bool → Option ConflictWinner → Sides → Type 0
Stalled dir baseline winner s =
    (dir ≡ bidirectional)
    × (baseline ≡ none)
    × (winner ≡ some external_wins)
    × (s.external ≡ false)
    × (s.held ≡ some native)

ruleset edge_rules = (edge, bidirectional_edge, warm_edge, cold_edge)

module _ (dir : SyncDirection) (baseline : Option Bool) (winner : Option ConflictWinner) where
  -- An edge asks for an operation exactly when its sides are not settled, but for the stalled case.
  pub edge-nothing :
      (s : Sides)
      → (edge dir baseline winner s.external s.held ≡ nothing)
        ↔ (Settled dir s ⊎ Stalled dir baseline winner s)
  unfolding edge bidirectional_edge warm_edge cold_edge
  edge-nothing s = ground arith

  -- One operation settles an edge, in every direction and with any baseline, but for the stalled
  -- case, in which nothing is done.
  pub edge-Settled :
      (s : Sides)
      → Settled dir (carry_out (edge dir baseline winner s.external s.held) s)
        ⊎ (Stalled dir baseline winner s × (edge dir baseline winner s.external s.held ≡ nothing))
  unfolding edge bidirectional_edge warm_edge cold_edge
  edge-Settled s = ground arith

-- With a baseline the winner is never asked: exactly one side moved, and its state is the one that
-- both sides get, except that a role which an administrator granted stays.
pub warm_attribution :
    (was : Bool) (winner : Option ConflictWinner) (s : Sides)
    → let s' = carry_out (edge bidirectional (some was) winner s.external s.held) s in
      (s'.external ≡ is_some s'.held)
      × (s'.external ≡ (
          if differ s.external was
          then s.external || is_some s.held && not (is_integration s.held)
          else is_some s.held))
unfolding edge bidirectional_edge warm_edge cold_edge
warm_attribution was winner s = ground arith

-- A native role is kept by every edge.
pub edge-keeps_native :
    (dir : SyncDirection) (baseline : Option Bool) (winner : Option ConflictWinner) (s : Sides)
    → s.held ≡ some native
    → (carry_out (edge dir baseline winner s.external s.held) s).held ≡ some native
unfolding edge bidirectional_edge warm_edge cold_edge
edge-keeps_native dir baseline winner s h = ground arith
