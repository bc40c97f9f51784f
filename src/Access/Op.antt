-- ===== src/Access/Op.antt =====
-- What a service does outside of one transaction: an operation has tables afterwards whether it
-- returns or throws. api/src/access/access.service.ts (bumpConfigVersion) and the rows that the
-- services of users and access find and write.
use patrice.Prelude.{true, false, ℕ, ◌+◌, Bool, Option, none, some, find, update_where, ◌==◌}
use patrice.Db.Directory.{Organization, Role, Grant, Directory, DirectoryVerb}
use patrice.Db.Rows.{AppUser, Db, Error, fault, directory_verb}
use patrice.Db.Tx.{Result, ok, err, Tx, pure, ◌>>=◌, ◌>>◌, modify, or_throw}
use patrice.Db.Emit.{log_activity}
use patrice.Lifecycle.{window_ms}

abbrev pub Op : Type 0 → Type 0
Op A = Db → Result A × Db

abbrev pub fail : {A : Type 0} → Error → Op A
fail e db = (err e, db)

-- `prisma.$transaction`: an error rolls back.
unfoldable pub transact : {A : Type 0} → Tx A → Op A
transact body db = elim (body db) [ ok (a, db') ↦ (ok a, db') | err e ↦ (err e, db) ]

-- Goes on with what a read gave, or throws its error.
unfoldable pub after : {A B : Type 0} → Result A → (A → Op B) → Op B
after (ok a) k = k a
after (err e) k = fail e

-- `if (bad) throw e`
unfoldable pub unless : {A : Type 0} → Bool → Error → Op A → Op A
unless bad e k db = elim bad [ true ↦ (err e, db) | false ↦ k db ]

-- `if (bad) return`
unfoldable pub return_if : {A : Type 0} → Bool → A → Op A → Op A
return_if true a k db = (ok a, db)
return_if false a k db = k db

abbrev pub on_directory : (Directory → Directory) → Db → Db
on_directory f db = record db { directory = f db.directory }

unfoldable pub find_organization : ℕ → Db → Option Organization
find_organization id db = find (λ o. o.id == id) db.directory.organizations

abbrev pub count_version : (organization : ℕ) → Db → Db
count_version organization = on_directory (λ d. record d {
  organizations =
      update_where (λ o. o.id == organization)
        (λ o. record o { config_version = o.config_version + 1 }) d.organizations;
})

-- AccessService.bumpConfigVersion; the projection cache that it drops is not state of the tables.
unfoldable pub bump_config_version : (organization : ℕ) → Tx (Unit {0})
bump_config_version organization = do
  λ db. or_throw fault (find_organization organization db) db
  modify (count_version organization)

-- `logActivity` of a verb of these services.
unfoldable pub log_directory : (organization actor subject : ℕ) → DirectoryVerb → Tx (Unit {0})
unfolding log_activity
log_directory organization actor subject verb =
    log_activity organization actor subject (directory_verb verb)

abbrev pub grace_of : Option Organization → ℕ
grace_of none = window_ms none
grace_of (some o) = window_ms o.settings.grace_period_hours

-- `GraceService.windowMs`
unfoldable pub grace_window : (organization : ℕ) → Db → ℕ
grace_window organization seen = grace_of (find_organization organization seen)

unfoldable pub find_role : ℕ → Db → Option Role
find_role id db = find (λ r. r.id == id) db.directory.roles

unfoldable pub find_grant : ℕ → Db → Option Grant
find_grant id db = find (λ g. g.id == id) db.directory.grants

unfoldable pub put_roles : (id : ℕ) → (Role → Role) → Db → Db
put_roles id f = on_directory (λ d. record d { roles = update_where (λ r. r.id == id) f d.roles })

unfoldable pub put_grants : (id : ℕ) → (Grant → Grant) → Db → Db
put_grants id f =
    on_directory (λ d. record d { grants = update_where (λ g. g.id == id) f d.grants })

unfoldable pub put_users : (id : ℕ) → (AppUser → AppUser) → Db → Db
put_users id f db = record db { users = update_where (λ u. u.id == id) f db.users }

-- `tx.role.update({ where: { id } })`: the new row, or an error if there is none.
unfoldable pub update_role : (id : ℕ) → (Role → Role) → Tx Role
update_role id f = do
  row ← λ db. or_throw fault (find_role id db) db
  modify (put_roles id f)
  pure (f row)

unfoldable pub update_grant : (id : ℕ) → (Grant → Grant) → Tx Grant
update_grant id f = do
  row ← λ db. or_throw fault (find_grant id db) db
  modify (put_grants id f)
  pure (f row)

unfoldable pub update_user : (id : ℕ) → (AppUser → AppUser) → Tx AppUser
update_user id f = do
  row ← λ db. or_throw fault (find (λ u. u.id == id) db.users) db
  modify (put_users id f)
  pure (f row)
