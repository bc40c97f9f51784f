-- ===== src/Governance/Tests.antt =====
-- An organization with one administrator, by a role of its own or by that of a division.
use patrice.Prelude.{ℕ, ◌≡◌, refl, true, false, none, some, List, [], ◌∷◌, arith}
use patrice.Db.Directory.{
  UserRoleSource, LifecycleState, standalone, division_kind, Role, permit, global, Grant,
  role_retire,
}
use patrice.Db.Rows.{Db, AppUser, Division, last_admin, conflict}
use patrice.Db.Tx.{Result, ok, err}
use patrice.Db.Tables.{no_directory, find_division}
use patrice.Db.Emit.{log_activity}
use patrice.Access.Op
use patrice.Access.Op.{find_role, find_organization}
use patrice.Access.Actions.{is_admin_action}
use patrice.Access.Admins.{
  role_governs, holds_admin_role, is_effective_admin, effective_admin_count, effective_admin_ids,
  effective_admin_exists,
}
use patrice.Access.Floor.{
  guarded, with_admin_floor, refused_row, HasAdmin, FloorOutcome, floor_decides,
}
use patrice.Roles
use patrice.Divisions
use patrice.Governance.Run.{IsSingleton, retire_role, deactivate_user}
use patrice.Governance.History.{Call, history, history-HasAdmin}
use patrice.Governance.Cascade.{retire_empties}

abbrev role : Role
role = record {
  id = 20;
  organization_id = 9;
  name = "Admin";
  kind = standalone;
  division_id = none;
  team_id = none;
  lifecycle_state = LifecycleState.active;
  retired_at = none;
  version = 0;
}

abbrev inherent : Role
inherent = record role { kind = division_kind; division_id = some 3 }

abbrev grant : Grant
grant = record {
  id = 30;
  organization_id = 9;
  role_id = 20;
  action = "role:create";
  effect = permit;
  scope_kind = global;
  scope_division_id = none;
  scope_team_id = none;
  scope_role_id = none;
  lifecycle_state = LifecycleState.active;
  retired_at = none;
  version = 0;
}

abbrev user : ℕ → AppUser
user n = record {
  id = n;
  organization_id = 9;
  email = none;
  display_name = "Ada";
  created_via_invitation_id = none;
  lifecycle_state = LifecycleState.active;
  deactivated_at = none;
  retired_at = none;
  version = 0;
}

abbrev division : Division
division = record {
  id = 3;
  organization_id = 9;
  name = "workshop";
  default_openings = 1;
  openings_locked = false;
  restrict_claims = false;
  lifecycle_state = LifecycleState.active;
  retired_at = none;
  version = 0;
}

abbrev start : Role → Db
start r = record {
  tasks = [];
  claimants = [];
  divisions = division ∷ [];
  users = user 1 ∷ user 2 ∷ [];
  submissions = [];
  messages = [];
  activities = [];
  notifications = [];
  answers = [];
  attachments = [];
  templates = [];
  directory = record no_directory {
    organizations =
        record {
          id = 9;
          settings = record {
            self_review_allowed = false;
            grace_period_hours = none;
            session_absolute_days = none;
            session_idle_days = none;
          };
          config_version = 0;
        }
        ∷ [];
    roles = r ∷ [];
    user_roles =
        record {
          id = 40;
          user_id = 1;
          role_id = 20;
          source = UserRoleSource.native;
          source_connection_id = none;
          granted_by = none;
        }
        ∷ [];
    grants = grant ∷ [];
  };
  next_id = 50;
}

counting : Unit {0}
unfolding role_governs holds_admin_role is_effective_admin effective_admin_count is_admin_action
    effective_admin_ids effective_admin_exists HasAdmin
counting = tt

roles : Unit {0}
unfolding counting guarded with_admin_floor refused_row find_role find_organization log_activity
    Op.after Op.unless Op.return_if Op.transact Op.update_role Op.put_roles Op.bump_config_version
    Op.log_directory Roles.load_standalone Roles.retire Roles.retire_body
roles = tt

divisions : Unit {0}
unfolding roles find_division Divisions.inherent_role Divisions.find_with_role
    Divisions.put_divisions Divisions.update_division Divisions.load Divisions.retire
divisions = tt

one_admin :
    (effective_admin_ids 9 (start role) ≡ 1 ∷ []) × (effective_admin_exists 9 (start role) ≡ true)
unfolding counting
one_admin = (refl, refl)

-- The last administrator's role is not retired, and the refusal is recorded.
retire_refused :
    Roles.retire (start role) 20 100 1 (start role)
    ≡ (err (conflict last_admin), refused_row 9 1 20 role_retire (start role))
unfolding roles
retire_refused = refl

administered : (r : Role) → r ≡ role → HasAdmin 9 (start r)
unfolding counting
administered r e = rw e (omega arith)

single : IsSingleton 9 (start role)
unfolding IsSingleton
single = ((refl, tt), (refl, tt))

floor_decides_example :
    FloorOutcome 9 1 20 role_retire (Roles.retire_body (start role) 20 100 1 role) (start role) (
      with_admin_floor 9 1 20 role_retire
        (Roles.retire_body (start role) 20 100 1 role)
        (start role))
floor_decides_example =
    floor_decides 9 1 20 role_retire (Roles.retire_body (start role) 20 100 1 role) (start role)

abbrev calls : List Call
calls =
    record { seen = start role; now = 100; actor = 1; command = deactivate_user 1 }
    ∷ record { seen = start role; now = 101; actor = 1; command = retire_role 20 }
    ∷ []

history-HasAdmin_example : HasAdmin 9 (
    history
      (λ p. false)
      (λ db a t r. true)
      (λ db a r. true)
      (λ t. t)
      (λ s. 0)
      (λ s. s)
      (λ s t. false)
      9
      calls
      (start role))
history-HasAdmin_example =
    history-HasAdmin (λ p. false) (λ db a t r. true) (λ db a r. true) (λ t. t) (λ s. 0) (λ s. s)
      (λ s t. false) 9 calls (start role) (single, (single, tt)) (administered role refl)

-- The tables after a retire that returned.
abbrev after_retire : Result ((Division × ℕ) × Db) → Db
after_retire (ok (v, db)) = db
after_retire (err e) = start inherent

abbrev emptied : Db
emptied = after_retire (Divisions.retire (start inherent) 3 100 1 (start inherent))

retire_empties_example : effective_admin_count 9 emptied ≡ 0
unfolding divisions
retire_empties_example =
    retire_empties (start inherent) 3 100 1 9 division inherent (start inherent) refl
      ((λ h. refl), tt) refl
