-- ===== src/Divisions.antt =====
-- api/src/divisions/divisions.service.ts: a division has an inherent role, which is created, renamed,
-- retired and revived with it. `list` is not modelled.
use patrice.Prelude.{
  ℕ, ◌+◌, Bool, false, not, Option, none, some, [], ◌∷◌, ◌++◌, String, get_or, find, update_where,
  opt_eq, ◌==◌,
}
use patrice.Db.Directory.{
  LifecycleState, division_kind, Role, division_created, division_updated, division_retired,
  division_revived, role_created, role_retired, role_revived,
}
use patrice.Db.Rows.{
  Division, Db, division_not_found, already_retired, not_revivable, not_found, conflict, fault,
}
use patrice.Db.Tx.{Result, ok, err, Tx, pure, ◌>>=◌, ◌>>◌, lift, refuse_if, modify, or_throw}
use patrice.Db.Tables.{is_retired, find_division}
use patrice.Lifecycle.{is_revivable}
use patrice.Access.Op.{bump_config_version, log_directory, grace_window, update_role}
use patrice.Roles.{create_role, retired_role, revived_role, renamed}

-- A division with its inherent role, `role.division_id` being unique.
abbrev pub WithRole : Type 0
WithRole = Division × Role

abbrev pub inherent_of : (division : ℕ) → Role → Bool
inherent_of division r = opt_eq r.division_id (some division)

unfoldable pub inherent_role : (division : ℕ) → Db → Option Role
inherent_role division db = find (inherent_of division) db.directory.roles

abbrev pub pair_up : Option Division → Option Role → Option WithRole
pair_up (some d) (some r) = some (d, r)
pair_up (some d) none = none
pair_up none r = none

unfoldable pub find_with_role : ℕ → Db → Option WithRole
find_with_role id db = pair_up (find_division id db) (inherent_role id db)

unfoldable pub put_divisions : (id : ℕ) → (Division → Division) → Db → Db
put_divisions id f db = record db { divisions = update_where (λ d. d.id == id) f db.divisions }

-- `division.update` with the inherent role as it was.
unfoldable pub update_division : (id : ℕ) → (Division → Division) → Tx WithRole
update_division id f = do
  λ db. or_throw fault (find_division id db) db
  modify (put_divisions id f)
  λ db. or_throw fault (find_with_role id db) db

-- `DivisionView`: the division and the id of its role.
abbrev pub view : WithRole → Division × ℕ
view (d, r) = (d, r.id)

-- `CreateDivisionDto`; for an update, each field as given.
pub record DivisionDto : Type 0 where
  pub name : Option String
  pub default_openings : Option ℕ
  pub openings_locked : Option Bool
  pub restrict_claims : Option Bool

abbrev pub new_division : (id organization : ℕ) → String → DivisionDto → Division
new_division id organization name dto = record {
  id = id;
  organization_id = organization;
  name = name;
  default_openings = get_or 1 dto.default_openings;
  openings_locked = get_or false dto.openings_locked;
  restrict_claims = get_or false dto.restrict_claims;
  lifecycle_state = LifecycleState.active;
  retired_at = none;
  version = 0;
}

unfoldable pub insert_division : (organization : ℕ) → String → DivisionDto → Tx ℕ
insert_division organization name dto db = ok (
  db.next_id,
  record db {
    divisions = db.divisions ++ new_division db.next_id organization name dto ∷ [];
    next_id = db.next_id + 1;
  },
)

unfoldable pub create : (organization actor : ℕ) → String → DivisionDto → Tx (Division × ℕ)
create organization actor name dto = do
  id ← insert_division organization name dto
  role ← create_role organization name division_kind (some id) none
  log_directory organization actor id (division_created id)
  log_directory organization actor role.id (role_created role.id)
  row ← λ db. or_throw fault (find_with_role id db) db
  pure (view row)

abbrev pub edited : DivisionDto → Division → Division
edited dto d = record d {
  name = get_or d.name dto.name;
  default_openings = get_or d.default_openings dto.default_openings;
  openings_locked = get_or d.openings_locked dto.openings_locked;
  restrict_claims = get_or d.restrict_claims dto.restrict_claims;
  version = d.version + 1;
}

-- The inherent role is renamed if a name is given.
abbrev pub rename : Option String → (role : ℕ) → Tx (Unit {0})
rename none role = pure tt
rename (some name) role = update_role role (renamed name) >> pure tt

abbrev pub retired_division : (now : ℕ) → Division → Division
retired_division now d = record d {
  lifecycle_state = LifecycleState.retired;
  retired_at = some now;
  version = d.version + 1;
}

abbrev pub revived_division : Division → Division
revived_division d = record d {
  lifecycle_state = LifecycleState.active;
  retired_at = none;
  version = d.version + 1;
}

module _ (seen : Db) (id : ℕ) where
  unfoldable pub load : Result WithRole
  load = elim (find_with_role id seen) [
    | none ↦ err (not_found division_not_found)
    | some row ↦ ok row
  ]

  unfoldable pub update : (actor : ℕ) → DivisionDto → Tx (Division × ℕ)
  update actor dto = do
    (division, role) ← lift load
    row ← update_division division.id (edited dto)
    rename dto.name role.id
    log_directory division.organization_id actor division.id (division_updated division.id)
    pure (view row)

  unfoldable pub retire : (now actor : ℕ) → Tx (Division × ℕ)
  retire now actor = do
    (division, role) ← lift load
    refuse_if (is_retired division.lifecycle_state) (conflict already_retired)
    row ← update_division division.id (retired_division now)
    update_role role.id (retired_role now)
    log_directory division.organization_id actor division.id (division_retired division.id)
    log_directory division.organization_id actor role.id (role_retired role.id)
    bump_config_version division.organization_id
    pure (view row)

  unfoldable pub revive : (now actor : ℕ) → Tx (Division × ℕ)
  revive now actor = do
    (division, role) ← lift load
    refuse_if
        (not (
          is_revivable now division.lifecycle_state division.retired_at
            (grace_window division.organization_id seen)))
        (conflict not_revivable)
    row ← update_division division.id revived_division
    update_role role.id revived_role
    log_directory division.organization_id actor division.id (division_revived division.id)
    log_directory division.organization_id actor role.id (role_revived role.id)
    bump_config_version division.organization_id
    pure (view row)
