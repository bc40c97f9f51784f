-- ===== src/Grants.antt =====
-- api/src/grants/grants.service.ts: the cells of the permission matrix. `list` and `listActions` are
-- not modelled. `rejects` is CedarEngine.validationErrors, of the Cedar package: whether the policies
-- fail the schema.
use patrice.Prelude.{
  ℕ, ◌+◌, Bool, true, false, not, ◌&&◌, ◌||◌, Option, none, some, List, [], ◌∷◌, ◌++◌, String,
  is_some, any, keep, get_or, ◌==◌,
}
use patrice.Db.Directory.{
  LifecycleState, GrantEffect, ScopeKind, specific_division, specific_team, own_division, own_team,
  role_scope, global, own, Role, Grant, grant_update, grant_retire, grant_created, grant_updated,
  grant_retired, grant_revived,
}
use patrice.Db.Rows.{
  Db, invalid_grant, unknown_role, grant_not_found, already_retired, not_revivable, not_found,
  conflict, unprocessable, fault,
}
use patrice.Db.Tx.{Result, ok, err, Tx, pure, ◌>>=◌, ◌>>◌, lift, refuse_if, modify}
use patrice.Db.Tables.{is_retired, is_active}
use patrice.Lifecycle.{is_revivable}
use patrice.Access.Actions.{
  CedarEntityType, resource_type, task, message, attachment, division, user,
}
use patrice.Access.Policies.{Policy, projected}
use patrice.Access.Op.{
  Op, after, unless, on_directory, bump_config_version, log_directory, grace_window,
  find_organization, find_grant, update_grant,
}
use patrice.Access.Admins.{is_active_role}
use patrice.Access.Floor.{with_admin_floor}
pub mod Edits
pub mod Shape
mod Tests

abbrev pub is_group_scopable : CedarEntityType → Bool
is_group_scopable task = true
is_group_scopable message = true
is_group_scopable attachment = true
is_group_scopable division = true
is_group_scopable _ = false

abbrev pub is_role_scopable : CedarEntityType → Bool
is_role_scopable user = true
is_role_scopable _ = false

-- `ScopeFields`, with what the switch reads. An absent id and `null` are `none`.
pub record Scope : Type 0 where
  pub scope_kind : ScopeKind
  pub scope_division_id : Option ℕ
  pub scope_team_id : Option ℕ
  pub scope_role_id : Option ℕ

-- `need`: the check that failed, or the later ones.
abbrev pub need : Bool → Result (Unit {0}) → Result (Unit {0})
need true next = next
need false next = err (unprocessable invalid_grant)

abbrev pub done : Result (Unit {0})
done = ok tt

-- The switch of `assertShape`.
unfoldable pub scope_errors : Scope → CedarEntityType → Result (Unit {0})
scope_errors s type = elim s.scope_kind [
  | specific_division ↦ need (is_some s.scope_division_id) (
      need (not (is_some s.scope_team_id) && not (is_some s.scope_role_id))
        (need (is_group_scopable type) done))
  | specific_team ↦ need (is_some s.scope_team_id) (
      need (not (is_some s.scope_division_id) && not (is_some s.scope_role_id))
        (need (is_group_scopable type) done))
  | own_division ↦
      need
        (not (is_some s.scope_division_id)
          && not (is_some s.scope_team_id)
          && not (is_some s.scope_role_id))
        (need (is_group_scopable type) done)
  | own_team ↦
      need
        (not (is_some s.scope_division_id)
          && not (is_some s.scope_team_id)
          && not (is_some s.scope_role_id))
        (need (is_group_scopable type) done)
  | role_scope ↦ need (is_some s.scope_role_id) (
      need (not (is_some s.scope_division_id) && not (is_some s.scope_team_id))
        (need (is_role_scopable type) done))
  | global ↦
      need
        (not (is_some s.scope_division_id)
          && not (is_some s.scope_team_id)
          && not (is_some s.scope_role_id))
        done
  | own ↦
      need
        (not (is_some s.scope_division_id)
          && not (is_some s.scope_team_id)
          && not (is_some s.scope_role_id))
        done
]

unfoldable pub assert_shape : (action : String) → Scope → Result (Unit {0})
assert_shape action s = elim (resource_type action) [
  | none ↦ err (unprocessable invalid_grant)
  | some type ↦ scope_errors s type
]

-- `assertRole`: the role is there; its lifecycle is not tested.
unfoldable pub assert_role : (seen : Db) (organization role : ℕ) → Result (Unit {0})
assert_role seen organization role =
    elim (any (λ r. r.id == role && r.organization_id == organization) seen.directory.roles) [
      | true ↦ ok tt
      | false ↦ err (unprocessable unknown_role)
    ]

abbrev pub is_excluded : Option ℕ → ℕ → Bool
is_excluded none id = false
is_excluded (some excluded) id = id == excluded

-- The grants that `validateActivation` projects beside the candidate.
unfoldable pub projected_grants : (seen : Db) (organization : ℕ) (excluded : Option ℕ) → List Grant
projected_grants seen organization excluded =
    keep
      (λ g.
        g.organization_id == organization
        && is_active g.lifecycle_state
        && any (is_active_role g.role_id) seen.directory.roles
        && not (is_excluded excluded g.id))
      seen.directory.grants

abbrev pub put_grant : Grant → Db → Db
put_grant g db = record db {
  directory = record db.directory { grants = db.directory.grants ++ g ∷ [] };
  next_id = db.next_id + 1;
}

-- `CreateGrantDto`
pub record NewGrant : Type 0 where
  pub role_id : ℕ
  pub action : String
  pub effect : GrantEffect
  pub scope : Scope

-- `UpdateGrantDto`: an id that is not given, or given as `null` or as an id.
pub record GrantPatch : Type 0 where
  pub action : Option String
  pub effect : Option GrantEffect
  pub scope_kind : Option ScopeKind
  pub scope_division_id : Option (Option ℕ)
  pub scope_team_id : Option (Option ℕ)
  pub scope_role_id : Option (Option ℕ)

abbrev pub new_grant : (id organization : ℕ) → NewGrant → Grant
new_grant id organization dto = record {
  id = id;
  organization_id = organization;
  role_id = dto.role_id;
  action = dto.action;
  effect = dto.effect;
  scope_kind = dto.scope.scope_kind;
  scope_division_id = dto.scope.scope_division_id;
  scope_team_id = dto.scope.scope_team_id;
  scope_role_id = dto.scope.scope_role_id;
  lifecycle_state = LifecycleState.active;
  retired_at = none;
  version = 0;
}

-- A new scope kind clears the id, unless one is given.
abbrev pub merged_id : (given : Option (Option ℕ)) → Option ScopeKind → (old : Option ℕ) → Option ℕ
merged_id (some id) kind old = id
merged_id none (some kind) old = none
merged_id none none old = old

abbrev pub merged : GrantPatch → Grant → Grant
merged dto g = record g {
  action = get_or g.action dto.action;
  effect = get_or g.effect dto.effect;
  scope_kind = get_or g.scope_kind dto.scope_kind;
  scope_division_id = merged_id dto.scope_division_id dto.scope_kind g.scope_division_id;
  scope_team_id = merged_id dto.scope_team_id dto.scope_kind g.scope_team_id;
  scope_role_id = merged_id dto.scope_role_id dto.scope_kind g.scope_role_id;
}

abbrev pub scope_of : Grant → Scope
scope_of g = record {
  scope_kind = g.scope_kind;
  scope_division_id = g.scope_division_id;
  scope_team_id = g.scope_team_id;
  scope_role_id = g.scope_role_id;
}

abbrev pub retired_grant : (now : ℕ) → Grant → Grant
retired_grant now g = record g {
  lifecycle_state = LifecycleState.retired;
  retired_at = some now;
  version = g.version + 1;
}

abbrev pub revived_grant : Grant → Grant
revived_grant g = record g {
  lifecycle_state = LifecycleState.active;
  retired_at = none;
  version = g.version + 1;
}

-- The columns that `update` writes, on the row that it finds.
abbrev pub rewritten : Grant → Grant → Grant
rewritten new g = record g {
  action = new.action;
  effect = new.effect;
  scope_kind = new.scope_kind;
  scope_division_id = new.scope_division_id;
  scope_team_id = new.scope_team_id;
  scope_role_id = new.scope_role_id;
  version = g.version + 1;
}
