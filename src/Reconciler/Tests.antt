-- ===== src/Reconciler/Tests.antt =====
-- Reconciles of a small connection, and the theorems at it.
use patrice.Prelude.{
  ◌≤◌, count, ◌==◌, arith, ℕ, ◌≡◌, ◌↔◌, refl, true, false, not, ◌&&◌, ◌||◌, none, some, [], ◌∷◌,
  All, is_some, if◌then◌else◌,
}
use patrice.Reconciler.Data.{
  SyncDirection, inbound, outbound, bidirectional, native, integration, Mapping, LinkedUser,
  ReconcileInput, grant, revoke, add,
}
use patrice.Reconciler.{
  differ, is_integration, cold_edge, warm_edge, bidirectional_edge, edge, edge_output, link_output,
  links_output, mapping_output, mappings_output, reconcile, build_index, add_groups, add_member,
  members_of, role_source, role_unusable, in_baseline,
}
use patrice.Reconciler.Edge.{Sides, carry_out, warm_attribution}
use patrice.Reconciler.Rule.{OpsHold}
use patrice.Reconciler.Once.{is_on, is_write_to}
use patrice.Reconciler.Safety.{
  PaNeeded, ExternalNeeded, reconcile_needed, reconcile_one_way, reconcile-Settled,
}
use patrice.Reconciler.Baseline.{is_empty, baseline_recorded}

reconciler : Unit {0}
unfolding reconcile mappings_output mapping_output links_output link_output edge_output edge
    bidirectional_edge warm_edge cold_edge build_index add_groups add_member members_of role_source
    role_unusable in_baseline
reconciler = tt

abbrev mapping : ℕ → ℕ → ℕ → SyncDirection → Mapping
mapping id role group dir = record {
  id = id;
  role_id = role;
  external_group_id = group;
  sync_direction = dir;
  conflict_winner = none;
  is_broken = false;
}

abbrev link : ℕ → ℕ → LinkedUser
link user external = record { user_id = user; external_user_id = external }

-- Ann (1, outside 11) is in groups 21 and 23, and Ben (2, outside 12) in none. Ben holds role 31 by
-- a sync and role 32 by an administrator. Group 24 is gone.
abbrev given : ReconcileInput
given = record {
  mappings =
      mapping 41 31 21 inbound
      ∷ mapping 42 32 22 outbound
      ∷ mapping 43 33 23 bidirectional
      ∷ mapping 44 34 24 inbound
      ∷ [];
  linked_users = link 1 11 ∷ link 2 12 ∷ [];
  external_membership = (11, 21 ∷ 23 ∷ []) ∷ (12, []) ∷ [];
  known_group_ids = 21 ∷ 22 ∷ 23 ∷ [];
  existing_roles = (2, 31, integration) ∷ (2, 32, native) ∷ [];
  role_rows = (31, false) ∷ (32, false) ∷ (33, false) ∷ (34, false) ∷ [];
  baseline = some [];
}

given_ops :
    ((reconcile given).pa_ops
      ≡ record { kind = grant; user_id = 1; role_id = 31; external_group_id = 21 }
        ∷ record { kind = revoke; user_id = 2; role_id = 31; external_group_id = 21 }
        ∷ record { kind = grant; user_id = 1; role_id = 33; external_group_id = 23 }
        ∷ [])
    × ((reconcile given).external_ops
        ≡ record { external_user_id = 12; external_group_id = 22; action = add } ∷ [])
    × ((reconcile given).broken_mapping_ids ≡ 44 ∷ [])
unfolding reconciler
given_ops = (refl, refl, refl)

abbrev lost : Sides
lost = record { external = false; held = some native }

warm_attribution_example :
    let s' = carry_out (edge bidirectional (some true) none false (some native)) lost in
    (s'.external ≡ is_some s'.held)
    × (s'.external ≡ (
        if differ false true
        then false || true && not (is_integration (some native))
        else is_some (some native)))
warm_attribution_example = warm_attribution true none lost

reconcile_needed_example :
    OpsHold (PaNeeded given) (ExternalNeeded given) (reconcile given)
    × (count (is_on 1 31) (reconcile given).pa_ops ≤ count (λ m. m.role_id == 31) given.mappings)
    × (count (is_write_to 12 22) (reconcile given).external_ops
        ≤ count (λ m. m.external_group_id == 22) given.mappings)
reconcile_needed_example = reconcile_needed given 1 31 12 22 (omega arith) (omega arith)

abbrev outward : ReconcileInput
outward = record given { mappings = mapping 42 32 22 outbound ∷ [] }

reconcile_one_way_example :
    (All (λ m. m.sync_direction ≡ inbound) outward.mappings → (reconcile outward).external_ops ≡ [])
    × (All (λ m. m.sync_direction ≡ outbound) outward.mappings → (reconcile outward).pa_ops ≡ [])
reconcile_one_way_example = reconcile_one_way outward

-- The connection once the addition is carried out.
abbrev converged : ReconcileInput
converged = record outward { external_membership = (11, []) ∷ (12, 22 ∷ []) ∷ [] }

reconcile-Settled_example :
    ((reconcile converged).pa_ops ≡ []) × ((reconcile converged).external_ops ≡ [])
unfolding reconciler
reconcile-Settled_example = reconcile-Settled converged (λ _. (refl, (refl, tt)), tt)

baseline_recorded_example :
    let op = edge outbound none none false (some native) in
    let out = edge_output (mapping 42 32 22 outbound) (link 2 12) false op in
    (is_empty out.baseline_upserts ≡ not false)
    × (is_empty out.baseline_deletes ≡ false)
    × ((not (is_empty out.baseline_upserts) ≡ (carry_out op lost).external)
        ↔ (out.external_ops ≡ []))
baseline_recorded_example = baseline_recorded (mapping 42 32 22 outbound) (link 2 12) none lost

-- Ann is in group 21 and not in group 22, which both feed role 31 inbound.
abbrev shared : ReconcileInput
shared = record given {
  mappings = mapping 41 31 21 inbound ∷ mapping 42 31 22 inbound ∷ [];
  linked_users = link 1 11 ∷ [];
  existing_roles = [];
}

-- A reconcile grants the role, the next one takes it away, and so on.
flapping :
    ((reconcile shared).pa_ops
      ≡ record { kind = grant; user_id = 1; role_id = 31; external_group_id = 21 } ∷ [])
    × ((reconcile (record shared { existing_roles = (1, 31, integration) ∷ [] })).pa_ops
        ≡ record { kind = revoke; user_id = 1; role_id = 31; external_group_id = 22 } ∷ [])
unfolding reconciler
flapping = (refl, refl)
