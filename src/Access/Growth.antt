-- ===== src/Access/Growth.antt =====
-- Operations that only add authority keep the administrators.
use patrice.Prelude.{
  ℕ, ◌<◌, ◌≡◌, Bool, true, ◌&&◌, List, [], ◌∷◌, ◌++◌, any, count, update_where, arith, ◌==◌,
  any-append,
}
use patrice.Db.Directory.{UserRole}
use patrice.Db.Rows.{Db}
use patrice.Db.Tables.{is_active}
use patrice.Access.Admins.{
  governs, is_active_role, role_governs, holds_admin_role, gives_admin, is_effective_admin,
  effective_admin_count,
}
use patrice.Access.Floor.{HasAdmin}

any_weaken {ℓ} :
    {A : Type ℓ} (p q : A → Bool) (xs : List A)
    → ((a : A) → p a ≡ true → q a ≡ true)
    → any p xs ≡ true
    → any q xs ≡ true
any_weaken p q [] k h = h
any_weaken p q (x ∷ xs) k h = ground (arith, k x, any_weaken p q xs k)

any-count {ℓ} : {A : Type ℓ} (p : A → Bool) (xs : List A) → any p xs ≡ true → 0 < count p xs
any-count p [] h = absurd (cc)
any-count p (x ∷ xs) h = ground (arith, any-count p xs)

count-any {ℓ} : {A : Type ℓ} (p : A → Bool) (xs : List A) → 0 < count p xs → any p xs ≡ true
count-any p [] h = absurd (omega arith)
count-any p (x ∷ xs) h = ground (arith, count-any p xs)

-- A row that passes is still there, after an update or an insertion.
pub any-update_where {ℓ} :
    {A : Type ℓ} (p t : A → Bool) (f : A → A) (xs : List A)
    → ((a : A) → p a ≡ true → p (f a) ≡ true)
    → any p xs ≡ true
    → any p (update_where t f xs) ≡ true
any-update_where p t f [] k h = h
any-update_where p t f (x ∷ xs) k h = ground (arith, k x, any-update_where p t f xs k)

pub any-insert {ℓ} :
    {A : Type ℓ} (p : A → Bool) (xs : List A) (x : A)
    → any p xs ≡ true
    → any p (xs ++ x ∷ []) ≡ true
any-insert p xs x h = ground (arith, any-append p xs (x ∷ []))

-- Every active role, governing grant, membership and active user of `db` is one of `db'`.
pub record Grows (db db' : Db) : Type 0 where
  pub roles_stay :
      (id : ℕ)
      → any (is_active_role id) db.directory.roles ≡ true
      → any (is_active_role id) db'.directory.roles ≡ true
  pub grants_stay :
      (role : ℕ)
      → any (governs role) db.directory.grants ≡ true
      → any (governs role) db'.directory.grants ≡ true
  pub links_stay :
      (p : UserRole → Bool)
      → any p db.directory.user_roles ≡ true
      → any p db'.directory.user_roles ≡ true
  pub users_stay :
      (organization : ℕ) (holds : ℕ → Bool)
      → any
          (λ u. u.organization_id == organization && is_active u.lifecycle_state && holds u.id)
          db.users
        ≡ true
      → any
          (λ u. u.organization_id == organization && is_active u.lifecycle_state && holds u.id)
          db'.users
        ≡ true

role_governs-Grows :
    {db db' : Db}
    → Grows db db'
    → (role : ℕ) → role_governs role db ≡ true
    → role_governs role db' ≡ true
unfolding role_governs
role_governs-Grows g role h = ground (arith, g.roles_stay role, g.grants_stay role)

holds_admin_role-Grows :
    {db db' : Db}
    → Grows db db'
    → (user : ℕ) → holds_admin_role user db ≡ true
    → holds_admin_role user db' ≡ true
unfolding holds_admin_role
holds_admin_role-Grows {db} {db'} g user h =
    any_weaken (gives_admin user db) (gives_admin user db') db'.directory.user_roles
      (λ link e. ground (arith, role_governs-Grows g link.role_id))
      (g.links_stay (gives_admin user db) h)

pub Grows-HasAdmin :
    {db db' : Db}
    → Grows db db'
    → (organization : ℕ) → HasAdmin organization db
    → HasAdmin organization db'
unfolding HasAdmin effective_admin_count is_effective_admin
Grows-HasAdmin {db} {db'} g organization h =
    any-count (is_effective_admin organization db') db'.users (
      any_weaken _ (is_effective_admin organization db') db'.users
        (λ u e. ground (arith, holds_admin_role-Grows g u.id))
        (g.users_stay organization (λ id. holds_admin_role id db)
          (count-any (is_effective_admin organization db) db.users h)))
