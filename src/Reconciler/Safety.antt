-- ===== src/Reconciler/Safety.antt =====
-- What holds of every operation that a whole reconcile asks for.
use patrice.Prelude.{
  ℕ, ◌≤◌, count, ◌==◌, ◌≡◌, refl, Bool, true, false, Option, none, some, List, [], ◌∷◌, arith, All,
  All-of, All-map, inl,
}
use patrice.Reconciler.Data.{
  SyncDirection, inbound, outbound, ConflictWinner, Source, integration, Mapping, LinkedUser,
  PaRoleOp, ExternalRoleOp, ReconcileInput, grant, revoke, add, remove,
}
use patrice.Reconciler.{
  role_source, pa, ext, edge, edge_output, edge_baseline, reconcile, bidirectional_edge, warm_edge,
  cold_edge,
}
use patrice.Reconciler.Once.{is_on, is_write_to, reconcile_once}
use patrice.Reconciler.Edge.{Sides, Settled, edge-nothing}
use patrice.Reconciler.Rule.{OpsHold, is_member, is_live, edge_result, reconcile_rule}

-- A grant is for a role that the user lacks, and a revoke takes a role that a sync granted.
abbrev pub PaNeeded : ReconcileInput → PaRoleOp → Type 0
PaNeeded input op =
    (op.kind ≡ grant → role_source op.user_id op.role_id input.existing_roles ≡ none)
    × (op.kind ≡ revoke → role_source op.user_id op.role_id input.existing_roles ≡ some integration)

-- An addition is for a user outside of the group, and a removal for a member.
abbrev pub ExternalNeeded : ReconcileInput → ExternalRoleOp → Type 0
ExternalNeeded input op =
    (op.action ≡ add → is_member input op.external_user_id op.external_group_id ≡ false)
    × (op.action ≡ remove → is_member input op.external_user_id op.external_group_id ≡ true)

edge_needed :
    (dir : SyncDirection) (baseline : Option Bool) (winner : Option ConflictWinner)
    (external : Bool) (held : Option Source)
    → let op = edge dir baseline winner external held in
      (op ≡ pa grant → held ≡ none)
      × (op ≡ pa revoke → held ≡ some integration)
      × (op ≡ ext add → external ≡ false)
      × (op ≡ ext remove → external ≡ true)
unfolding edge bidirectional_edge warm_edge cold_edge
edge_needed dir baseline winner external held = ground arith

edge_result_needed :
    (input : ReconcileInput) (m : Mapping) (link : LinkedUser)
    → OpsHold (PaNeeded input) (ExternalNeeded input) (edge_result input m link)
unfolding edge_output
edge_result_needed input m link = ground (
  arith,
  edge_needed m.sync_direction
      (edge_baseline input.baseline link.external_user_id m.external_group_id) m.conflict_winner
      (is_member input link.external_user_id m.external_group_id)
      (role_source link.user_id m.role_id input.existing_roles),
)

-- Against the state that it was given, every operation of a reconcile has something to do: a grant is for
-- a role that the user lacks, a revoke takes a role that a sync granted, never one of an administrator's,
-- an addition is for a user outside of the group and a removal for a member. For users who are linked
-- once, on one role of a user there are no more operations than mappings of the role, and on one place in
-- a group no more than mappings of the group: only several mappings of one role can ask for the same
-- grant twice.
pub reconcile_needed :
    (input : ReconcileInput) (user role external_user group : ℕ)
    → count (λ l. l.user_id == user) input.linked_users ≤ 1
    → count (λ l. l.external_user_id == external_user) input.linked_users ≤ 1
    → OpsHold (PaNeeded input) (ExternalNeeded input) (reconcile input)
      × (count (is_on user role) (reconcile input).pa_ops
          ≤ count (λ m. m.role_id == role) input.mappings)
      × (count (is_write_to external_user group) (reconcile input).external_ops
          ≤ count (λ m. m.external_group_id == group) input.mappings)
reconcile_needed input user role external_user group h k =
    let (roles, places) = reconcile_once input user role external_user group h k in
    (
      reconcile_rule input (PaNeeded input) (ExternalNeeded input) (
          All-of _ (λ m _. All-of _ (edge_result_needed input m) input.linked_users)
            input.mappings),
      roles,
      places,
    )

none_left {ℓ} : {A : Type ℓ} {l : List A} → All (λ _. ⊥) l → l ≡ []
none_left {l = []} h = refl
none_left {l = a ∷ rest} h = absurd h.0

inbound_edge :
    (input : ReconcileInput) (m : Mapping)
    → m.sync_direction ≡ inbound
    → (link : LinkedUser) → OpsHold (λ _. Unit {0}) (λ _. ⊥) (edge_result input m link)
unfolding edge_output edge
inbound_edge input m dir link = ground arith

outbound_edge :
    (input : ReconcileInput) (m : Mapping)
    → m.sync_direction ≡ outbound
    → (link : LinkedUser) → OpsHold (λ _. ⊥) (λ _. Unit {0}) (edge_result input m link)
unfolding edge_output edge
outbound_edge input m dir link = ground arith

-- A connection whose mappings are all inbound writes nothing outside, and one whose mappings are
-- all outbound changes no role in Patrice.
pub reconcile_one_way :
    (input : ReconcileInput)
    → (All (λ m. m.sync_direction ≡ inbound) input.mappings → (reconcile input).external_ops ≡ [])
      × (All (λ m. m.sync_direction ≡ outbound) input.mappings → (reconcile input).pa_ops ≡ [])
reconcile_one_way input = (
  λ h.
      none_left
        (reconcile_rule input (λ _. Unit {0}) (λ _. ⊥)
          (All-map _ _ (λ m dir _. All-of _ (inbound_edge input m dir) input.linked_users)
            input.mappings h)).1,
  λ h.
      none_left
        (reconcile_rule input (λ _. ⊥) (λ _. Unit {0})
          (All-map _ _ (λ m dir _. All-of _ (outbound_edge input m dir) input.linked_users)
            input.mappings h)).0,
)

-- The sides of the edge between a mapping and a user.
abbrev pub sides_of : ReconcileInput → Mapping → LinkedUser → Sides
sides_of input m link = record {
  external = is_member input link.external_user_id m.external_group_id;
  held = role_source link.user_id m.role_id input.existing_roles;
}

edge_quiet :
    (input : ReconcileInput) (m : Mapping) (link : LinkedUser)
    → Settled m.sync_direction (sides_of input m link)
    → OpsHold (λ _. ⊥) (λ _. ⊥) (edge_result input m link)
unfolding edge_output
edge_quiet input m link h =
    rw
      ((edge-nothing m.sync_direction
          (edge_baseline input.baseline link.external_user_id m.external_group_id) m.conflict_winner
          (sides_of input m link)).1
        (inl h))
      (tt, tt)

-- Where every edge of a live mapping is settled, a reconcile asks for no operation at all.
pub reconcile-Settled :
    (input : ReconcileInput)
    → All
        (λ m.
          is_live input m ≡ true
          → All (λ link. Settled m.sync_direction (sides_of input m link)) input.linked_users)
        input.mappings
    → ((reconcile input).pa_ops ≡ []) × ((reconcile input).external_ops ≡ [])
reconcile-Settled input h =
    let quiet =
      reconcile_rule input (λ _. ⊥) (λ _. ⊥)
        (All-map _ _
          (λ m settled live. All-map _ _ (edge_quiet input m) input.linked_users (settled live))
          input.mappings h) in
    (none_left quiet.0, none_left quiet.1)
