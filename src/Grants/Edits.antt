-- ===== src/Grants/Edits.antt =====
-- api/src/grants/grants.service.ts: validateActivation, create, update, retire and revive. `rejects` is
-- CedarEngine.validationErrors, of the Cedar package: whether the policies fail its schema.
use patrice.Prelude.{ℕ, Bool, true, false, not, Option, none, some, List, [], ◌∷◌, ◌++◌}
use patrice.Db.Directory.{
  Grant, grant_update, grant_retire, grant_created, grant_updated, grant_retired, grant_revived,
}
use patrice.Db.Rows.{
  Db, invalid_grant, grant_not_found, already_retired, not_revivable, not_found, conflict,
  unprocessable, fault,
}
use patrice.Db.Tx.{Result, ok, err, Tx, pure, ◌>>=◌, ◌>>◌, lift, refuse_if}
use patrice.Db.Tables.{is_retired}
use patrice.Lifecycle.{is_revivable}
use patrice.Access.Policies.{Policy, projected}
use patrice.Access.Op.{
  Op, after, unless, bump_config_version, log_directory, grace_window, find_organization,
  find_grant, update_grant,
}
use patrice.Access.Floor.{with_admin_floor}
use patrice.Grants.{
  assert_shape, assert_role, projected_grants, put_grant, NewGrant, GrantPatch, new_grant, merged,
  scope_of, retired_grant, revived_grant, rewritten,
}

module _ (rejects : List Policy → Bool) (seen : Db) where
  abbrev pub validated : Option (List Policy) → Result (Unit {0})
  validated none = err (unprocessable invalid_grant)
  validated (some policies) = elim (rejects policies) [
    | true ↦ err (unprocessable invalid_grant)
    | false ↦ ok tt
  ]

  unfoldable pub validate_activation :
      (organization : ℕ) → (candidate : Grant) → (excluded : Option ℕ) → Result (Unit {0})
  validate_activation organization candidate excluded = elim (find_organization organization seen) [
    | none ↦ err fault
    | some o ↦ validated (
        projected o.settings.self_review_allowed
          (projected_grants seen organization excluded ++ candidate ∷ []))
  ]

  unfoldable pub insert_grant : (organization : ℕ) → NewGrant → Tx Grant
  insert_grant organization dto db =
      let g = new_grant db.next_id organization dto in ok (g, put_grant g db)

  -- `candidate_id` is the `randomUUID()` of the candidate, which is not the id of the row.
  unfoldable pub create : (organization actor candidate_id : ℕ) → NewGrant → Tx Grant
  create organization actor candidate_id dto = do
    lift (assert_shape dto.action dto.scope)
    lift (assert_role seen organization dto.role_id)
    lift (validate_activation organization (new_grant candidate_id organization dto) none)
    g ← insert_grant organization dto
    log_directory organization actor g.id (grant_created g.id g.role_id)
    bump_config_version organization
    pure g

  module _ (id : ℕ) where
    unfoldable pub load : Result Grant
    load = elim (find_grant id seen) [ none ↦ err (not_found grant_not_found) | some g ↦ ok g ]

    unfoldable pub update_body : (actor : ℕ) → (existing new : Grant) → Tx Grant
    update_body actor existing new = do
      g ← update_grant existing.id (rewritten new)
      log_directory existing.organization_id actor g.id (grant_updated g.id g.role_id)
      bump_config_version existing.organization_id
      pure g

    unfoldable pub update : (actor : ℕ) → GrantPatch → Op Grant
    update actor dto = after load λ existing.
        after (assert_shape (merged dto existing).action (scope_of (merged dto existing))) λ shaped.
          after
            (validate_activation existing.organization_id (merged dto existing) (some existing.id))
            λ valid.
              with_admin_floor existing.organization_id actor existing.id grant_update
                (update_body actor existing (merged dto existing))

    unfoldable pub retire_body : (now actor : ℕ) → Grant → Tx Grant
    retire_body now actor existing = do
      g ← update_grant existing.id (retired_grant now)
      log_directory existing.organization_id actor g.id (grant_retired g.id g.role_id)
      bump_config_version existing.organization_id
      pure g

    unfoldable pub retire : (now actor : ℕ) → Op Grant
    retire now actor = after load λ existing.
        unless (is_retired existing.lifecycle_state) (conflict already_retired) (
          with_admin_floor existing.organization_id actor existing.id grant_retire
            (retire_body now actor existing))

    unfoldable pub revive : (now actor : ℕ) → Tx Grant
    revive now actor = do
      existing ← lift load
      refuse_if
          (not (
            is_revivable now existing.lifecycle_state existing.retired_at
              (grace_window existing.organization_id seen)))
          (conflict not_revivable)
      g ← update_grant existing.id revived_grant
      log_directory existing.organization_id actor g.id (grant_revived g.id g.role_id)
      bump_config_version existing.organization_id
      pure g
