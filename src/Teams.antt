-- ===== src/Teams.antt =====
-- api/src/teams/teams.service.ts: as divisions, without the settings on openings. `list` is not
-- modelled.
use patrice.Prelude.{
  ℕ, ◌+◌, Bool, false, not, Option, none, some, [], ◌∷◌, ◌++◌, String, get_or, find, update_where,
  opt_eq, ◌==◌,
}
use patrice.Db.Directory.{
  LifecycleState, team_kind, Role, Team, team_created, team_updated, team_retired, team_revived,
  role_created, role_retired, role_revived,
}
use patrice.Db.Rows.{Db, team_not_found, already_retired, not_revivable, not_found, conflict, fault}
use patrice.Db.Tx.{Result, ok, err, Tx, pure, ◌>>=◌, ◌>>◌, lift, refuse_if, modify, or_throw}
use patrice.Db.Tables.{is_retired}
use patrice.Lifecycle.{is_revivable}
use patrice.Access.Op.{on_directory, bump_config_version, log_directory, grace_window, update_role}
use patrice.Roles.{create_role, retired_role, revived_role, renamed}

unfoldable pub find_team : ℕ → Db → Option Team
find_team id db = find (λ t. t.id == id) db.directory.teams

-- A team with its inherent role, `role.team_id` being unique.
abbrev pub WithRole : Type 0
WithRole = Team × Role

abbrev pub inherent_of : (team : ℕ) → Role → Bool
inherent_of team r = opt_eq r.team_id (some team)

unfoldable pub inherent_role : (team : ℕ) → Db → Option Role
inherent_role team db = find (inherent_of team) db.directory.roles

abbrev pub pair_up : Option Team → Option Role → Option WithRole
pair_up (some d) (some r) = some (d, r)
pair_up (some d) none = none
pair_up none r = none

unfoldable pub find_with_role : ℕ → Db → Option WithRole
find_with_role id db = pair_up (find_team id db) (inherent_role id db)

unfoldable pub put_teams : (id : ℕ) → (Team → Team) → Db → Db
put_teams id f = on_directory (λ d. record d { teams = update_where (λ t. t.id == id) f d.teams })

-- `team.update` with the inherent role as it was.
unfoldable pub update_team : (id : ℕ) → (Team → Team) → Tx WithRole
update_team id f = do
  λ db. or_throw fault (find_team id db) db
  modify (put_teams id f)
  λ db. or_throw fault (find_with_role id db) db

-- `TeamView`: the team and the id of its role.
abbrev pub view : WithRole → Team × ℕ
view (d, r) = (d, r.id)

-- `CreateTeamDto`; for an update, each field as given.
pub record TeamDto : Type 0 where
  pub name : Option String
  pub restrict_claims : Option Bool

abbrev pub new_team : (id organization : ℕ) → String → TeamDto → Team
new_team id organization name dto = record {
  id = id;
  organization_id = organization;
  name = name;
  restrict_claims = get_or false dto.restrict_claims;
  lifecycle_state = LifecycleState.active;
  retired_at = none;
  version = 0;
}

unfoldable pub insert_team : (organization : ℕ) → String → TeamDto → Tx ℕ
insert_team organization name dto db = ok (
  db.next_id,
  record db {
    directory = record db.directory {
      teams = db.directory.teams ++ new_team db.next_id organization name dto ∷ [];
    };
    next_id = db.next_id + 1;
  },
)

unfoldable pub create : (organization actor : ℕ) → String → TeamDto → Tx (Team × ℕ)
create organization actor name dto = do
  id ← insert_team organization name dto
  role ← create_role organization name team_kind none (some id)
  log_directory organization actor id (team_created id)
  log_directory organization actor role.id (role_created role.id)
  row ← λ db. or_throw fault (find_with_role id db) db
  pure (view row)

abbrev pub edited : TeamDto → Team → Team
edited dto d = record d {
  name = get_or d.name dto.name;
  restrict_claims = get_or d.restrict_claims dto.restrict_claims;
  version = d.version + 1;
}

-- The inherent role is renamed if a name is given.
abbrev pub rename : Option String → (role : ℕ) → Tx (Unit {0})
rename none role = pure tt
rename (some name) role = update_role role (renamed name) >> pure tt

abbrev pub retired_team : (now : ℕ) → Team → Team
retired_team now d = record d {
  lifecycle_state = LifecycleState.retired;
  retired_at = some now;
  version = d.version + 1;
}

abbrev pub revived_team : Team → Team
revived_team d = record d {
  lifecycle_state = LifecycleState.active;
  retired_at = none;
  version = d.version + 1;
}

module _ (seen : Db) (id : ℕ) where
  unfoldable pub load : Result WithRole
  load = elim (find_with_role id seen) [ none ↦ err (not_found team_not_found) | some row ↦ ok row ]

  unfoldable pub update : (actor : ℕ) → TeamDto → Tx (Team × ℕ)
  update actor dto = do
    (team, role) ← lift load
    row ← update_team team.id (edited dto)
    rename dto.name role.id
    log_directory team.organization_id actor team.id (team_updated team.id)
    pure (view row)

  unfoldable pub retire : (now actor : ℕ) → Tx (Team × ℕ)
  retire now actor = do
    (team, role) ← lift load
    refuse_if (is_retired team.lifecycle_state) (conflict already_retired)
    row ← update_team team.id (retired_team now)
    update_role role.id (retired_role now)
    log_directory team.organization_id actor team.id (team_retired team.id)
    log_directory team.organization_id actor role.id (role_retired role.id)
    bump_config_version team.organization_id
    pure (view row)

  unfoldable pub revive : (now actor : ℕ) → Tx (Team × ℕ)
  revive now actor = do
    (team, role) ← lift load
    refuse_if
        (not (
          is_revivable now team.lifecycle_state team.retired_at
            (grace_window team.organization_id seen)))
        (conflict not_revivable)
    row ← update_team team.id revived_team
    update_role role.id revived_role
    log_directory team.organization_id actor team.id (team_revived team.id)
    log_directory team.organization_id actor role.id (role_revived role.id)
    bump_config_version team.organization_id
    pure (view row)
