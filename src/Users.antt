-- ===== src/Users.antt =====
-- api/src/users/users.service.ts: users and what roles they hold. `list` is not modelled. `decides` is
-- AccessService.decide, of the Cedar package, for `user:grant_role` and `user:revoke_role`: it reads
-- the actor, the target user and the role. The delayed push of a change to the integration, after the
-- commit, is left out.
use patrice.Prelude.{
  ℕ, ◌+◌, Bool, true, false, not, ◌&&◌, ◌||◌, Option, none, some, [], ◌∷◌, ◌++◌, String, is_some,
  any, keep, find, update_where, ◌==◌,
}
use patrice.Db.Directory.{
  LifecycleState, deactivated, UserRole, UserRoleSource, Session, user_deactivate, user_retire,
  user_revoke_role, user_updated, user_deactivated, user_reactivated, user_gone, user_revived,
  user_role_granted, user_role_revoked,
}
use patrice.Db.Rows.{
  AppUser, Db, user_not_found, role_not_found, role_forbidden, not_a_member, already_retired,
  not_revivable, not_found, conflict, denied, fault,
}
use patrice.Db.Tx.{Result, ok, err, Tx, pure, ◌>>=◌, ◌>>◌, lift, refuse_if, modify, or_throw}
use patrice.Db.Tables.{is_retired, is_active, find_user}
use patrice.Lifecycle.{is_revivable}
use patrice.Access.Op.{
  Op, after, return_if, unless, transact, on_directory, bump_config_version, log_directory,
  grace_window, update_user,
}
use patrice.Access.Floor.{with_admin_floor}

abbrev pub is_deactivated : LifecycleState → Bool
is_deactivated deactivated = true
is_deactivated _ = false

abbrev pub deactivated_user : (now : ℕ) → AppUser → AppUser
deactivated_user now u = record u {
  lifecycle_state = LifecycleState.deactivated;
  deactivated_at = some now;
  version = u.version + 1;
}

abbrev pub reactivated_user : AppUser → AppUser
reactivated_user u = record u {
  lifecycle_state = LifecycleState.active;
  deactivated_at = none;
  version = u.version + 1;
}

abbrev pub retired_user : (now : ℕ) → AppUser → AppUser
retired_user now u = record u {
  lifecycle_state = LifecycleState.retired;
  retired_at = some now;
  version = u.version + 1;
}

abbrev pub revived_user : AppUser → AppUser
revived_user u = record u {
  lifecycle_state = LifecycleState.active;
  retired_at = none;
  version = u.version + 1;
}

-- The sessions of a user that are not revoked yet get the time.
abbrev pub revoke_session : (now : ℕ) → Session → Session
revoke_session now s = record s { revoked_at = some now }

unfoldable pub revoke_sessions : (now user : ℕ) → Db → Db
revoke_sessions now user = on_directory (λ d. record d {
  sessions =
      update_where (λ s. s.user_id == user && not (is_some s.revoked_at)) (revoke_session now)
        d.sessions;
})

abbrev pub holds : (user role : ℕ) → UserRole → Bool
holds user role link = link.user_id == user && link.role_id == role

unfoldable pub find_link : (user role : ℕ) → Db → Option UserRole
find_link user role db = find (holds user role) db.directory.user_roles

unfoldable pub add_link : (user role : ℕ) → (granted_by : Option ℕ) → Db → Db
add_link user role granted_by db = record db {
  directory = record db.directory {
    user_roles =
        db.directory.user_roles
        ++ record {
          id = db.next_id;
          user_id = user;
          role_id = role;
          source = UserRoleSource.native;
          source_connection_id = none;
          granted_by = granted_by;
        }
          ∷ [];
  };
  next_id = db.next_id + 1;
}

-- `userRole.create`, with the unique index on the user and the role, and the role's foreign key.
unfoldable pub insert_link : (user role : ℕ) → (granted_by : Option ℕ) → Tx (Unit {0})
insert_link user role granted_by db =
    elim (is_some (find_link user role db) || not (any (λ r. r.id == role) db.directory.roles)) [
      | true ↦ err fault
      | false ↦ ok (tt, add_link user role granted_by db)
    ]

unfoldable pub drop_link : (user role : ℕ) → Db → Db
drop_link user role =
    on_directory (λ d. record d { user_roles = keep (λ l. not (holds user role l)) d.user_roles })

-- `userRole.delete`, which throws if the row is not there.
unfoldable pub delete_link : (user role : ℕ) → Tx (Unit {0})
delete_link user role = do
  λ db. or_throw fault (find_link user role db) db
  modify (drop_link user role)

module _ (seen : Db) (organization : ℕ) where
  -- `role.findFirst({ where: { id, organizationId } })`
  unfoldable pub has_role : ℕ → Bool
  has_role role = any (λ r. r.id == role && r.organization_id == organization) seen.directory.roles

  module _ (id : ℕ) where
    unfoldable pub load_user : Result AppUser
    load_user = elim (find_user id organization seen) [
      | none ↦ err (not_found user_not_found)
      | some u ↦ ok u
    ]

    unfoldable pub update : (actor : ℕ) → (display_name : String) → Tx (ℕ × String)
    update actor display_name = do
      user ← lift load_user
      updated ←
          update_user user.id
            (λ u. record u { display_name = display_name; version = u.version + 1 })
      log_directory organization actor user.id (user_updated user.id)
      pure (updated.id, updated.display_name)

    unfoldable pub deactivate_body : (now actor : ℕ) → AppUser → Tx (Unit {0})
    deactivate_body now actor user = do
      update_user user.id (deactivated_user now)
      log_directory organization actor user.id (user_deactivated user.id)
      bump_config_version organization

    unfoldable pub deactivate : (now actor : ℕ) → Op (Unit {0})
    deactivate now actor = after load_user λ user.
        return_if (is_deactivated user.lifecycle_state) tt (
          with_admin_floor organization actor user.id user_deactivate
            (deactivate_body now actor user))

    unfoldable pub reactivate_body : (actor : ℕ) → AppUser → Tx (Unit {0})
    reactivate_body actor user = do
      update_user user.id reactivated_user
      log_directory organization actor user.id (user_reactivated user.id)
      bump_config_version organization

    unfoldable pub reactivate : (actor : ℕ) → Op (Unit {0})
    reactivate actor = after load_user λ user.
        return_if (is_active user.lifecycle_state) tt (transact (reactivate_body actor user))

    unfoldable pub retire_body : (now actor : ℕ) → AppUser → Tx (Unit {0})
    retire_body now actor user = do
      update_user user.id (retired_user now)
      modify (revoke_sessions now user.id)
      log_directory organization actor user.id (user_gone user.id)
      bump_config_version organization

    unfoldable pub retire : (now actor : ℕ) → Op (Unit {0})
    retire now actor = after load_user λ user.
        unless (is_retired user.lifecycle_state) (conflict already_retired)
          (with_admin_floor organization actor user.id user_retire (retire_body now actor user))

    unfoldable pub revive : (now actor : ℕ) → Tx (Unit {0})
    revive now actor = do
      user ← lift load_user
      refuse_if
          (not (
            is_revivable now user.lifecycle_state user.retired_at (grace_window organization seen)))
          (conflict not_revivable)
      update_user user.id revived_user
      log_directory organization actor user.id (user_revived user.id)
      bump_config_version organization

    module _ (decides : Db → (actor target role : ℕ) → Bool) (role : ℕ) where
      unfoldable pub grant_body : (actor : ℕ) → AppUser → Tx (Unit {0})
      grant_body actor user = do
        insert_link user.id role (some actor)
        log_directory organization actor user.id (user_role_granted user.id role)
        bump_config_version organization

      unfoldable pub grant_role : (actor : ℕ) → Op (Unit {0})
      grant_role actor = after load_user λ user.
          unless (not (has_role role)) (not_found role_not_found) (
            unless (not (decides seen actor user.id role)) (denied role_forbidden) (
              return_if (is_some (find_link user.id role seen)) tt
                (transact (grant_body actor user))))

      unfoldable pub revoke_body : (actor : ℕ) → AppUser → Tx (Unit {0})
      revoke_body actor user = do
        delete_link user.id role
        log_directory organization actor user.id (user_role_revoked user.id role)
        bump_config_version organization

      unfoldable pub revoke_role : (actor : ℕ) → Op (Unit {0})
      revoke_role actor = after load_user λ user.
          unless (not (decides seen actor user.id role)) (denied role_forbidden) (
            unless (not (is_some (find_link user.id role seen))) (conflict not_a_member) (
              with_admin_floor organization actor user.id user_revoke_role
                (revoke_body actor user)))
