-- ===== src/Governance/Run.antt =====
-- Any sequence of the operations of roles, grants, users, divisions, teams and invitations, but for the
-- retiring of a division or a team, each with the tables that it read before its transaction.
use patrice.Prelude.{ℕ, ◌≡◌, Bool, Option, String, List, All}
use patrice.Db.Rows.{Db}
use patrice.Access.Policies.{Policy}
use patrice.Access.Op.{Op, transact}
use patrice.Roles
use patrice.Roles.{standalone_or_422}
use patrice.Grants.{NewGrant, GrantPatch}
use patrice.Grants.Edits
use patrice.Users
use patrice.Divisions
use patrice.Divisions.{DivisionDto}
use patrice.Teams
use patrice.Teams.{TeamDto}
use patrice.Invitations.{Redemption}
use patrice.Invitations.Redeem

-- A call of a service with its arguments; the actor and the time are given apart.
pub data Command : Type 0 where
  create_role_named : String → Command
  rename_role_to : (role : ℕ) → String → Command
  retire_role revive_role retire_grant revive_grant : (id : ℕ) → Command
  create_grant : (candidate : ℕ) → NewGrant → Command
  update_grant_by : (grant : ℕ) → GrantPatch → Command
  rename_user : (user : ℕ) → String → Command
  deactivate_user reactivate_user retire_user revive_user : (user : ℕ) → Command
  grant_role_to revoke_role_of : (user role : ℕ) → Command
  create_division : String → DivisionDto → Command
  update_division_by : (division : ℕ) → DivisionDto → Command
  revive_division : (division : ℕ) → Command
  create_team : String → TeamDto → Command
  update_team_by : (team : ℕ) → TeamDto → Command
  revive_team : (team : ℕ) → Command
  redeem_invitation : (seen_at : ℕ) → Redemption → Command
  invite : (hash : ℕ) → (email : Option String) → (roles : List ℕ) → (expires : Option ℕ) → Command
  revoke_invitation : (id : ℕ) → Command

-- The tables have the rows of one organization, as its unique column `singleton` says.
unfoldable pub IsSingleton : (organization : ℕ) → Db → Type 0
IsSingleton organization db =
    All (λ r. r.organization_id ≡ organization) db.directory.roles
    × All (λ g. g.organization_id ≡ organization) db.directory.grants

abbrev pub settle : {A : Type 0} → Op A → Db → Db
settle op db = (op db).1

module _ (rejects : List Policy → Bool) (decides : Db → (actor target role : ℕ) → Bool)
    (may_grant : Db → (actor role : ℕ) → Bool) (token_hash : ℕ → ℕ) (passcode_hash : String → ℕ)
    (lower : String → String) (same_email : String → String → Bool) (organization : ℕ) where
  -- The tables after the operation, whether it returned or threw.
  unfoldable pub perform : (seen : Db) (now actor : ℕ) → Command → Db → Db
  perform seen now actor (create_role_named name) =
      settle (transact (Roles.create organization actor name))
  perform seen now actor (rename_role_to id name) =
      settle (transact (Roles.update seen id actor name))
  perform seen now actor (retire_role id) = settle (Roles.retire seen id now actor)
  perform seen now actor (revive_role id) = settle (transact (Roles.revive seen id now actor))
  perform seen now actor (create_grant candidate dto) =
      settle (transact (Edits.create rejects seen organization actor candidate dto))
  perform seen now actor (update_grant_by id dto) = settle (Edits.update rejects seen id actor dto)
  perform seen now actor (retire_grant id) = settle (Edits.retire rejects seen id now actor)
  perform seen now actor (revive_grant id) =
      settle (transact (Edits.revive rejects seen id now actor))
  perform seen now actor (rename_user id name) =
      settle (transact (Users.update seen organization id actor name))
  perform seen now actor (deactivate_user id) =
      settle (Users.deactivate seen organization id now actor)
  perform seen now actor (reactivate_user id) = settle (Users.reactivate seen organization id actor)
  perform seen now actor (retire_user id) = settle (Users.retire seen organization id now actor)
  perform seen now actor (revive_user id) =
      settle (transact (Users.revive seen organization id now actor))
  perform seen now actor (grant_role_to id role) =
      settle (Users.grant_role seen organization id decides role actor)
  perform seen now actor (revoke_role_of id role) =
      settle (Users.revoke_role seen organization id decides role actor)
  perform seen now actor (create_division name dto) =
      settle (transact (Divisions.create organization actor name dto))
  perform seen now actor (update_division_by id dto) =
      settle (transact (Divisions.update seen id actor dto))
  perform seen now actor (revive_division id) =
      settle (transact (Divisions.revive seen id now actor))
  perform seen now actor (create_team name dto) =
      settle (transact (Teams.create organization actor name dto))
  perform seen now actor (update_team_by id dto) =
      settle (transact (Teams.update seen id actor dto))
  perform seen now actor (revive_team id) = settle (transact (Teams.revive seen id now actor))
  perform seen now actor (redeem_invitation seen_at args) = settle (
      transact
        (Redeem.redeem token_hash passcode_hash lower same_email may_grant seen seen_at now args))
  perform seen now actor (invite hash email roles expires) =
      settle
        (transact (Redeem.create may_grant seen now hash organization actor email roles expires))
  perform seen now actor (revoke_invitation id) = settle (Redeem.revoke seen now id actor)
