-- ===== src/Governance/Cascade.antt =====
-- Retiring a division retires its inherent role with no check of the floor
-- (api/src/divisions/divisions.service.ts, retire).
use patrice.Prelude.{
  ℕ, ◌≡◌, ◌≢◌, refl, true, false, List, [], ◌∷◌, arith, any, count, update_where, ◌==◌, All, inl,
  inr, Bool-cases,
}
use patrice.Db.Directory.{Role, UserRole}
use patrice.Db.Rows.{Db, Division, AppUser}
use patrice.Db.Tx.{ok}
use patrice.Db.Emit.{log_activity}
use patrice.Access.Op.{update_role, put_roles, log_directory, bump_config_version}
use patrice.Access.Admins.{
  is_active_role, role_governs, holds_admin_role, gives_admin, is_effective_admin,
  effective_admin_count,
}
use patrice.Roles.{retired_role}
use patrice.Divisions.{load, retire, update_division, put_divisions}

-- What the floor is about: users, memberships, grants and roles.
retire_writes :
    (seen : Db) (id now actor : ℕ) (division : Division) (role : Role) (db : Db) {v : Division × ℕ}
    {db' : Db}
    → load seen id ≡ ok (division, role)
    → retire seen id now actor db ≡ ok (v, db')
    → (db'.users ≡ db.users)
      × (db'.directory.user_roles ≡ db.directory.user_roles)
      × (db'.directory.grants ≡ db.directory.grants)
      × (db'.directory.roles
          ≡ update_where (λ r. r.id == role.id) (retired_role now) db.directory.roles)
unfolding retire update_division put_divisions update_role put_roles log_directory log_activity
    bump_config_version
retire_writes seen id now actor division role db loaded h = ground arith

retired_role-any :
    (now id k : ℕ) (roles : List Role)
    → any (is_active_role k) (update_where (λ r. r.id == id) (retired_role now) roles) ≡ true
    → (any (is_active_role k) roles ≡ true) × (k ≢ id)
retired_role-any now id k [] h = absurd (cc)
retired_role-any now id k (r ∷ roles) h = ground (arith, retired_role-any now id k roles)

role_governs-retired :
    (now id k : ℕ) (db db' : Db)
    → db'.directory.grants ≡ db.directory.grants
    → db'.directory.roles ≡ update_where (λ r. r.id == id) (retired_role now) db.directory.roles
    → role_governs k db' ≡ true
    → (role_governs k db ≡ true) × (k ≢ id)
unfolding role_governs
role_governs-retired now id k db db' g r h =
    let here : any (is_active_role k) db'.directory.roles ≡ true = ground arith in
    let (there, other) = retired_role-any now id k db.directory.roles (rw (← r) here) in
    (ground arith, other)

none_left :
    (user role : ℕ) (db db' : Db) (links : List UserRole)
    → All (λ l. role_governs l.role_id db ≡ true → l.role_id ≡ role) links
    → ((k : ℕ) → role_governs k db' ≡ true → (role_governs k db ≡ true) × (k ≢ role))
    → any (gives_admin user db') links ≡ false
none_left user role db db' [] h k = refl
none_left user role db db' (l ∷ links) h k =
    let later = none_left user role db db' links h.1 k in
    elim (Bool-cases (role_governs l.role_id db')) [
      | inl still ↦ absurd ((k l.role_id still).1 (h.0 (k l.role_id still).0))
      | inr gone ↦ ground arith
    ]

nobody :
    (o : ℕ) (db : Db) (users : List AppUser)
    → ((user : ℕ) → holds_admin_role user db ≡ false)
    → count (is_effective_admin o db) users ≡ 0
unfolding is_effective_admin
nobody o db [] h = refl
nobody o db (u ∷ users) h = ground (arith, h u.id, nobody o db users h)

-- If the only memberships that make administrators are of the inherent role of a division, a retire of
-- that division that returns leaves the organization with no effective administrator: no floor check
-- refuses it.
pub retire_empties :
    (seen : Db) (id now actor organization : ℕ) (division : Division) (role : Role) (db : Db)
    {v : Division × ℕ} {db' : Db}
    → load seen id ≡ ok (division, role)
    → All (λ l. role_governs l.role_id db ≡ true → l.role_id ≡ role.id) db.directory.user_roles
    → retire seen id now actor db ≡ ok (v, db')
    → effective_admin_count organization db' ≡ 0
unfolding effective_admin_count holds_admin_role
retire_empties seen id now actor organization division role db {v} {db'} loaded only h =
    let (users, links, grants, roles) = retire_writes seen id now actor division role db loaded h in
    nobody organization db' db'.users (λ user.
      none_left user role.id db db' db'.directory.user_roles (rw links only)
        (λ k. role_governs-retired now role.id k db db' grants roles))
