-- ===== src/Roles.antt =====
-- api/src/roles/roles.service.ts: standalone roles. A load reads outside of the transaction, in `seen`.
-- `list` is not modelled.
use patrice.Prelude.{ℕ, ◌+◌, not, Option, none, some, [], ◌∷◌, ◌++◌, String}
use patrice.Db.Directory.{
  LifecycleState, RoleKind, standalone, Role, role_retire, role_created, role_updated, role_retired,
  role_revived,
}
use patrice.Db.Rows.{
  Db, role_not_found, not_standalone, already_retired, not_revivable, not_found, conflict,
  unprocessable,
}
use patrice.Db.Tx.{Result, ok, err, Tx, pure, ◌>>=◌, ◌>>◌, lift, refuse_if}
use patrice.Db.Tables.{is_retired}
use patrice.Lifecycle.{is_revivable}
use patrice.Access.Op.{
  Op, after, unless, bump_config_version, log_directory, grace_window, find_role, update_role,
}
use patrice.Access.Floor.{with_admin_floor}

abbrev pub renamed : String → Role → Role
renamed name r = record r { name = name; version = r.version + 1 }

abbrev pub retired_role : (now : ℕ) → Role → Role
retired_role now r = record r {
  lifecycle_state = LifecycleState.retired;
  retired_at = some now;
  version = r.version + 1;
}

abbrev pub revived_role : Role → Role
revived_role r = record r {
  lifecycle_state = LifecycleState.active;
  retired_at = none;
  version = r.version + 1;
}

-- A new active role.
abbrev pub new_role : (id organization : ℕ) → String → RoleKind → (division team : Option ℕ) → Role
new_role id organization name kind division team = record {
  id = id;
  organization_id = organization;
  name = name;
  kind = kind;
  division_id = division;
  team_id = team;
  lifecycle_state = LifecycleState.active;
  retired_at = none;
  version = 0;
}

unfoldable pub insert_role :
    (organization : ℕ) → String → RoleKind → (division team : Option ℕ) → Db → Db
insert_role organization name kind division team db = record db {
  directory = record db.directory {
    roles = db.directory.roles ++ new_role db.next_id organization name kind division team ∷ [];
  };
  next_id = db.next_id + 1;
}

-- `role.create`
unfoldable pub create_role :
    (organization : ℕ) → String → RoleKind → (division team : Option ℕ) → Tx Role
create_role organization name kind division team db = ok (
  new_role db.next_id organization name kind division team,
  insert_role organization name kind division team db,
)

unfoldable pub create : (organization actor : ℕ) → String → Tx Role
create organization actor name = do
  role ← create_role organization name standalone none none
  log_directory organization actor role.id (role_created role.id)
  pure role

abbrev pub standalone_or_422 : Role → RoleKind → Result Role
standalone_or_422 r standalone = ok r
standalone_or_422 r _ = err (unprocessable not_standalone)

module _ (seen : Db) (id : ℕ) where
  unfoldable pub load_standalone : Result Role
  load_standalone = elim (find_role id seen) [
    | none ↦ err (not_found role_not_found)
    | some r ↦ standalone_or_422 r r.kind
  ]

  unfoldable pub update : (actor : ℕ) → String → Tx Role
  update actor name = do
    role ← lift load_standalone
    updated ← update_role role.id (renamed name)
    log_directory role.organization_id actor role.id (role_updated role.id)
    pure updated

  unfoldable pub retire_body : (now actor : ℕ) → Role → Tx Role
  retire_body now actor role = do
    row ← update_role role.id (retired_role now)
    log_directory role.organization_id actor role.id (role_retired role.id)
    bump_config_version role.organization_id
    pure row

  unfoldable pub retire : (now actor : ℕ) → Op Role
  retire now actor = after load_standalone λ role.
      unless (is_retired role.lifecycle_state) (conflict already_retired) (
        with_admin_floor role.organization_id actor role.id role_retire
          (retire_body now actor role))

  unfoldable pub revive : (now actor : ℕ) → Tx Role
  revive now actor = do
    role ← lift load_standalone
    refuse_if
        (not (
          is_revivable now role.lifecycle_state role.retired_at
            (grace_window role.organization_id seen)))
        (conflict not_revivable)
    row ← update_role role.id revived_role
    log_directory role.organization_id actor role.id (role_revived role.id)
    bump_config_version role.organization_id
    pure row
