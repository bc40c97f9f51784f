-- ===== src/Governance/Adding.antt =====
-- The operations of roles, grants, users, divisions and teams that have no floor check only add
-- authority.
use patrice.Prelude.{not, ℕ, Bool, List, Option, none, some, String, arith}
use patrice.Db.Directory.{Role, Grant, RoleKind, DirectoryVerb}
use patrice.Db.Rows.{Db, AppUser, conflict, not_revivable}
use patrice.Db.Tx.{pure, ◌>>◌}
use patrice.Lifecycle.{is_revivable}
use patrice.Access.Policies.{Policy}
use patrice.Access.Op.{grace_window, log_directory, bump_config_version}
use patrice.Access.Admins.{governs, is_active_role}
use patrice.Access.Growth.{any-insert}
use patrice.Access.Adds.{
  Adds, Adds-bind, Adds-known, Adds-pure, Adds-lift, Adds-refuse_if, Adds-log_directory,
  Adds-bump_config_version, Adds-update_role, Adds-update_grant, Adds-update_user,
}
use patrice.Roles
use patrice.Roles.{create_role, insert_role, new_role, renamed, revived_role}
use patrice.Grants.{assert_shape, assert_role, NewGrant, revived_grant, put_grant, new_grant}
use patrice.Grants.Edits
use patrice.Grants.Edits.{insert_grant}
use patrice.Users
use patrice.Users.{insert_link, add_link, reactivated_user, revived_user}

-- The audit row, the version and the answer that end a transaction.
pub Adds-recorded :
    {A : Type 0} (o actor subject : ℕ) (verb : DirectoryVerb) (a : A)
    → Adds (log_directory o actor subject verb >> (bump_config_version o >> pure a))
Adds-recorded o actor subject verb a =
    Adds-bind _ _ (Adds-log_directory o actor subject verb)
      (λ u. Adds-bind _ _ (Adds-bump_config_version o) (λ v. Adds-pure a))

pub Adds-logged :
    {A : Type 0} (o actor subject : ℕ) (verb : DirectoryVerb) (a : A)
    → Adds (log_directory o actor subject verb >> pure a)
Adds-logged o actor subject verb a =
    Adds-bind _ _ (Adds-log_directory o actor subject verb) (λ u. Adds-pure a)

pub Adds-create_role :
    (o : ℕ) (name : String) (kind : RoleKind) (division team : Option ℕ)
    → Adds (create_role o name kind division team)
unfolding create_role insert_role
Adds-create_role o name kind division team =
    Adds-known _ (insert_role o name kind division team) (λ db out e. ground arith)
      (λ db. record {
        roles_stay = λ k h. any-insert (is_active_role k) db.directory.roles _ h;
        grants_stay = λ role h. h;
        links_stay = λ p h. h;
        users_stay = λ o' holds h. h;
      })

pub Adds-roles_create : (o actor : ℕ) (name : String) → Adds (Roles.create o actor name)
unfolding Roles.create
Adds-roles_create o actor name =
    Adds-bind _ _ (Adds-create_role o name _ none none)
      (λ (role : Role). Adds-logged o actor _ _ role)

pub Adds-rename_role :
    (id : ℕ) (name : String) → Adds (patrice.Access.Op.update_role id (renamed name))
Adds-rename_role id name = Adds-update_role id (renamed name) (λ k r h. h)

pub Adds-revive_role : (id : ℕ) → Adds (patrice.Access.Op.update_role id revived_role)
Adds-revive_role id = Adds-update_role id revived_role (λ k r h. ground arith)

pub Adds-roles_update :
    (seen : Db) (id actor : ℕ) (name : String) → Adds (Roles.update seen id actor name)
unfolding Roles.update
Adds-roles_update seen id actor name =
    Adds-bind _ _ (Adds-lift (Roles.load_standalone seen id)) (λ (role : Role).
      Adds-bind _ _ (Adds-rename_role role.id name) (λ row. Adds-logged _ actor _ _ row))

pub Adds-roles_revive : (seen : Db) (id now actor : ℕ) → Adds (Roles.revive seen id now actor)
unfolding Roles.revive
Adds-roles_revive seen id now actor =
    Adds-bind _ _ (Adds-lift (Roles.load_standalone seen id)) (λ (role : Role).
      Adds-bind _ _
        (Adds-refuse_if
          (not (
            is_revivable now role.lifecycle_state role.retired_at
              (grace_window role.organization_id seen)))
          (conflict not_revivable))
        (λ u. Adds-bind _ _ (Adds-revive_role role.id) (λ row. Adds-recorded _ actor _ _ row)))

Adds-insert_grant :
    (rejects : List Policy → Bool) (seen : Db) (o : ℕ) (dto : NewGrant)
    → Adds (insert_grant rejects seen o dto)
unfolding insert_grant
Adds-insert_grant rejects seen o dto =
    Adds-known _ (λ db. put_grant (new_grant db.next_id o dto) db) (λ db out e. ground arith)
      (λ db. record {
        roles_stay = λ k h. h;
        grants_stay = λ role h. any-insert (governs role) db.directory.grants _ h;
        links_stay = λ p h. h;
        users_stay = λ o' holds h. h;
      })

pub Adds-grants_create :
    (rejects : List Policy → Bool) (seen : Db) (o actor candidate : ℕ) (dto : NewGrant)
    → Adds (Edits.create rejects seen o actor candidate dto)
unfolding Edits.create
Adds-grants_create rejects seen o actor candidate dto =
    Adds-bind _ _ (Adds-lift (assert_shape dto.action dto.scope)) (λ a.
      Adds-bind _ _ (Adds-lift (assert_role seen o dto.role_id)) (λ b.
        Adds-bind _ _
          (Adds-lift (Edits.validate_activation rejects seen o (new_grant candidate o dto) none))
          (λ c.
            Adds-bind _ _ (Adds-insert_grant rejects seen o dto)
              (λ g. Adds-recorded o actor _ _ g))))

pub Adds-grants_revive :
    (rejects : List Policy → Bool) (seen : Db) (id now actor : ℕ)
    → Adds (Edits.revive rejects seen id now actor)
unfolding Edits.revive
Adds-grants_revive rejects seen id now actor =
    Adds-bind _ _ (Adds-lift (Edits.load rejects seen id)) (λ (existing : Grant).
      Adds-bind _ _
        (Adds-refuse_if
          (not (
            is_revivable now existing.lifecycle_state existing.retired_at
              (grace_window existing.organization_id seen)))
          (conflict not_revivable))
        (λ u.
          Adds-bind _ _ (Adds-update_grant existing.id revived_grant (λ role g h. ground arith))
            (λ row. Adds-recorded _ actor _ _ row)))

pub Adds-users_update :
    (seen : Db) (o id actor : ℕ) (name : String) → Adds (Users.update seen o id actor name)
unfolding Users.update
Adds-users_update seen o id actor name =
    Adds-bind _ _ (Adds-lift (Users.load_user seen o id)) (λ (user : AppUser).
      Adds-bind _ _ (Adds-update_user user.id _ (λ k holds u h. h))
        (λ row. Adds-logged o actor _ _ _))

pub Adds-reactivate_body :
    (seen : Db) (o id actor : ℕ) (user : AppUser)
    → Adds (Users.reactivate_body seen o id actor user)
unfolding Users.reactivate_body
Adds-reactivate_body seen o id actor user =
    Adds-bind _ _ (Adds-update_user user.id reactivated_user (λ k holds u h. ground arith))
      (λ row. Adds-bind _ _ (Adds-log_directory o actor _ _) (λ u. Adds-bump_config_version o))

pub Adds-users_revive : (seen : Db) (o id now actor : ℕ) → Adds (Users.revive seen o id now actor)
unfolding Users.revive
Adds-users_revive seen o id now actor =
    Adds-bind _ _ (Adds-lift (Users.load_user seen o id)) (λ (user : AppUser).
      Adds-bind _ _
        (Adds-refuse_if
          (not (is_revivable now user.lifecycle_state user.retired_at (grace_window o seen)))
          (conflict not_revivable))
        (λ u.
          Adds-bind _ _ (Adds-update_user user.id revived_user (λ k holds x h. ground arith))
            (λ row.
              Adds-bind _ _ (Adds-log_directory o actor _ _) (λ v. Adds-bump_config_version o))))

pub Adds-insert_link : (user role : ℕ) (by : Option ℕ) → Adds (insert_link user role by)
unfolding insert_link add_link
Adds-insert_link user role by =
    Adds-known _ (add_link user role by) (λ db out e. ground arith)
      (λ db. record {
        roles_stay = λ k h. h;
        grants_stay = λ r h. h;
        links_stay = λ p h. any-insert p db.directory.user_roles _ h;
        users_stay = λ o holds h. h;
      })

pub Adds-grant_body :
    (seen : Db) (o id : ℕ) (decides : Db → ℕ → ℕ → ℕ → Bool) (role actor : ℕ) (user : AppUser)
    → Adds (Users.grant_body seen o id decides role actor user)
unfolding Users.grant_body
Adds-grant_body seen o id decides role actor user =
    Adds-bind _ _ (Adds-insert_link user.id role (some actor))
      (λ u. Adds-bind _ _ (Adds-log_directory o actor _ _) (λ v. Adds-bump_config_version o))
