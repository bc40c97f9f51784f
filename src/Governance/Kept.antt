-- ===== src/Governance/Kept.antt =====
-- That every operation of Run leaves the organization an administrator.
use patrice.Prelude.{ℕ, ◌≡◌, refl, Bool, some, String, List, All-find, arith}
use patrice.Db.Directory.{Role, Grant}
use patrice.Db.Rows.{Db}
use patrice.Db.Tx.{ok}
use patrice.Access.Policies.{Policy}
use patrice.Access.Op.{find_role, find_grant}
use patrice.Access.Floor.{HasAdmin}
use patrice.Roles
use patrice.Roles.{standalone_or_422}
use patrice.Grants.Edits
use patrice.Users
use patrice.Invitations.Redeem
use patrice.Governance.Safe.{
  settle-Safe, Safe-transact, Safe-floor, Safe-unless, Safe-return_if, Safe-after,
}
use patrice.Governance.Adding.{
  Adds-roles_create, Adds-roles_update, Adds-roles_revive, Adds-grants_create, Adds-grants_revive,
  Adds-users_update, Adds-reactivate_body, Adds-users_revive, Adds-grant_body,
}
use patrice.Governance.OfDivisions.{
  Adds-divisions_create, Adds-divisions_update, Adds-divisions_revive,
}
use patrice.Governance.OfTeams.{Adds-teams_create, Adds-teams_update, Adds-teams_revive}
use patrice.Governance.OfInvitations.{Adds-redeem, Adds-create, Adds-revoke_body}
use patrice.Governance.Run.{
  Command, create_role_named, rename_role_to, retire_role, revive_role, retire_grant, revive_grant,
  create_grant, update_grant_by, rename_user, deactivate_user, reactivate_user, retire_user,
  revive_user, grant_role_to, revoke_role_of, create_division, update_division_by, revive_division,
  create_team, update_team_by, revive_team, redeem_invitation, invite, revoke_invitation,
  IsSingleton, perform,
}

module _ (rejects : List Policy → Bool) (decides : Db → (actor target role : ℕ) → Bool)
    (may_grant : Db → (actor role : ℕ) → Bool) (token_hash : ℕ → ℕ) (passcode_hash : String → ℕ)
    (lower : String → String) (same_email : String → String → Bool) (organization : ℕ) where
  load_standalone_found :
      (seen : Db) (id : ℕ) {role : Role}
      → Roles.load_standalone seen id ≡ ok role
      → find_role id seen ≡ some role
  unfolding Roles.load_standalone
  load_standalone_found seen id h = ground arith

  load_found :
      (seen : Db) (id : ℕ) {g : Grant}
      → Edits.load rejects seen id ≡ ok g
      → find_grant id seen ≡ some g
  unfolding Edits.load
  load_found seen id h = ground arith

  role_of_organization :
      (seen : Db) (id : ℕ) {role : Role}
      → IsSingleton organization seen
      → Roles.load_standalone seen id ≡ ok role
      → role.organization_id ≡ organization
  unfolding IsSingleton find_role
  role_of_organization seen id single h =
      All-find (λ r. r.organization_id ≡ organization) _ seen.directory.roles single.0
        (load_standalone_found seen id h)

  grant_of_organization :
      (seen : Db) (id : ℕ) {g : Grant}
      → IsSingleton organization seen
      → Edits.load rejects seen id ≡ ok g
      → g.organization_id ≡ organization
  unfolding IsSingleton find_grant
  grant_of_organization seen id single h =
      All-find (λ g. g.organization_id ≡ organization) _ seen.directory.grants single.1
        (load_found seen id h)

  -- Every operation leaves the organization an effective administrator, if it had one: an operation that
  -- would not is refused.
  pub perform-HasAdmin :
      (seen : Db) (now actor : ℕ) (command : Command) (db : Db)
      → IsSingleton organization seen
      → HasAdmin organization db
      → HasAdmin organization (
          perform rejects decides may_grant token_hash passcode_hash lower same_email organization
            seen now actor command db)
  unfolding perform Roles.retire Edits.update Edits.retire Users.deactivate Users.reactivate
      Users.retire Users.grant_role Users.revoke_role Redeem.revoke
  perform-HasAdmin seen now actor (create_role_named name) db single h =
      settle-Safe organization _
        (Safe-transact organization _ (Adds-roles_create organization actor name)) db h
  perform-HasAdmin seen now actor (rename_role_to id name) db single h =
      settle-Safe organization _
        (Safe-transact organization _ (Adds-roles_update seen id actor name)) db h
  perform-HasAdmin seen now actor (retire_role id) db single h =
      settle-Safe organization _
        (Safe-after organization (Roles.load_standalone seen id) _ (λ role found.
          Safe-unless organization _ _ _ (
            Safe-floor organization role.organization_id actor role.id _ _
              (role_of_organization seen id single found))))
        db h
  perform-HasAdmin seen now actor (revive_role id) db single h =
      settle-Safe organization _
        (Safe-transact organization _ (Adds-roles_revive seen id now actor)) db h
  perform-HasAdmin seen now actor (create_grant candidate dto) db single h =
      settle-Safe organization _
        (Safe-transact organization _
          (Adds-grants_create rejects seen organization actor candidate dto))
        db h
  perform-HasAdmin seen now actor (update_grant_by id dto) db single h =
      settle-Safe organization _
        (Safe-after organization (Edits.load rejects seen id) _ (λ existing found.
          Safe-after organization _ _ (λ shaped e1. Safe-after organization _ _ (λ valid e2.
            Safe-floor organization existing.organization_id actor existing.id _ _
              (grant_of_organization seen id single found)))))
        db h
  perform-HasAdmin seen now actor (retire_grant id) db single h =
      settle-Safe organization _
        (Safe-after organization (Edits.load rejects seen id) _ (λ existing found.
          Safe-unless organization _ _ _ (
            Safe-floor organization existing.organization_id actor existing.id _ _
              (grant_of_organization seen id single found))))
        db h
  perform-HasAdmin seen now actor (revive_grant id) db single h =
      settle-Safe organization _
        (Safe-transact organization _ (Adds-grants_revive rejects seen id now actor)) db h
  perform-HasAdmin seen now actor (rename_user id name) db single h =
      settle-Safe organization _
        (Safe-transact organization _ (Adds-users_update seen organization id actor name)) db h
  perform-HasAdmin seen now actor (deactivate_user id) db single h =
      settle-Safe organization _
        (Safe-after organization (Users.load_user seen organization id) _ (λ user found.
          Safe-return_if organization _ _ _
            (Safe-floor organization organization actor user.id _ _ refl)))
        db h
  perform-HasAdmin seen now actor (reactivate_user id) db single h =
      settle-Safe organization _
        (Safe-after organization (Users.load_user seen organization id) _ (λ user found.
          Safe-return_if organization _ _ _
            (Safe-transact organization _ (Adds-reactivate_body seen organization id actor user))))
        db h
  perform-HasAdmin seen now actor (retire_user id) db single h =
      settle-Safe organization _
        (Safe-after organization (Users.load_user seen organization id) _ (λ user found.
          Safe-unless organization _ _ _
            (Safe-floor organization organization actor user.id _ _ refl)))
        db h
  perform-HasAdmin seen now actor (revive_user id) db single h =
      settle-Safe organization _
        (Safe-transact organization _ (Adds-users_revive seen organization id now actor)) db h
  perform-HasAdmin seen now actor (grant_role_to id role) db single h =
      settle-Safe organization _
        (Safe-after organization (Users.load_user seen organization id) _ (λ user found.
          Safe-unless organization _ _ _ (
            Safe-unless organization _ _ _ (
              Safe-return_if organization _ _ _ (
                Safe-transact organization _
                  (Adds-grant_body seen organization id decides role actor user))))))
        db h
  perform-HasAdmin seen now actor (revoke_role_of id role) db single h =
      settle-Safe organization _
        (Safe-after organization (Users.load_user seen organization id) _ (λ user found.
          Safe-unless organization _ _ _ (
            Safe-unless organization _ _ _
              (Safe-floor organization organization actor user.id _ _ refl))))
        db h
  perform-HasAdmin seen now actor (create_division name dto) db single h =
      settle-Safe organization _
        (Safe-transact organization _ (Adds-divisions_create organization actor name dto)) db h
  perform-HasAdmin seen now actor (update_division_by id dto) db single h =
      settle-Safe organization _
        (Safe-transact organization _ (Adds-divisions_update seen id actor dto)) db h
  perform-HasAdmin seen now actor (revive_division id) db single h =
      settle-Safe organization _
        (Safe-transact organization _ (Adds-divisions_revive seen id now actor)) db h
  perform-HasAdmin seen now actor (create_team name dto) db single h =
      settle-Safe organization _
        (Safe-transact organization _ (Adds-teams_create organization actor name dto)) db h
  perform-HasAdmin seen now actor (update_team_by id dto) db single h =
      settle-Safe organization _
        (Safe-transact organization _ (Adds-teams_update seen id actor dto)) db h
  perform-HasAdmin seen now actor (revive_team id) db single h =
      settle-Safe organization _
        (Safe-transact organization _ (Adds-teams_revive seen id now actor)) db h
  perform-HasAdmin seen now actor (redeem_invitation seen_at args) db single h =
      settle-Safe organization _
        (Safe-transact organization _
          (Adds-redeem token_hash passcode_hash lower same_email may_grant seen seen_at now args))
        db h
  perform-HasAdmin seen now actor (invite hash email roles expires) db single h =
      settle-Safe organization _
        (Safe-transact organization _
          (Adds-create may_grant seen now hash organization actor email roles expires))
        db h
  perform-HasAdmin seen now actor (revoke_invitation id) db single h =
      settle-Safe organization _
        (Safe-after organization (Redeem.load_invitation seen id) _ (λ inv found.
          Safe-return_if organization _ _ _
            (Safe-transact organization _ (Adds-revoke_body now actor inv))))
        db h
