-- ===== src/Access/Adds.antt =====
-- The writes of the services of users and access that only add authority.
use patrice.Prelude.{ℕ, ◌≡◌, Bool, true, ◌&&◌, Option, ◌==◌, find}
use patrice.Db.Directory.{Role, Grant, DirectoryVerb}
use patrice.Db.Rows.{Db, AppUser, Error, fault}
use patrice.Db.Tx.{Result, ok, Tx, pure, lift, refuse_if, or_throw, modify, ◌>>=◌}
use patrice.Db.Frame.{
  Moves, Moves-bind, Moves-known, Moves-pure, Moves-lift, Moves-refuse_if, Moves-read, Moves-modify,
}
use patrice.Db.Tables.{is_active}
use patrice.Db.Emit.{log_activity}
use patrice.Access.Op.{
  bump_config_version, log_directory, find_organization, find_role, find_grant, put_roles,
  put_grants, put_users, update_role, update_grant, update_user,
}
use patrice.Access.Admins.{governs, is_active_role}
use patrice.Access.Growth.{Grows, any-update_where}

pub Grows-self : (db : Db) → Grows db db
Grows-self db = record {
  roles_stay = λ id h. h;
  grants_stay = λ role h. h;
  links_stay = λ p h. h;
  users_stay = λ o holds h. h;
}

pub Grows-trans : {a b c : Db} → Grows a b → Grows b c → Grows a c
Grows-trans g h = record {
  roles_stay = λ id e. h.roles_stay id (g.roles_stay id e);
  grants_stay = λ role e. h.grants_stay role (g.grants_stay role e);
  links_stay = λ p e. h.links_stay p (g.links_stay p e);
  users_stay = λ o holds e. h.users_stay o holds (g.users_stay o holds e);
}

Grows-compose : (a b c : Db) → Grows a b → Grows b c → Grows a c
Grows-compose a b c g h = Grows-trans g h

-- A body that loses no administrator if it returns.
abbrev pub Adds : {A : Type 0} → Tx A → Type 0
Adds m = Moves Grows m

pub Adds-bind :
    {A B : Type 0} (m : Tx A) (f : A → Tx B) → Adds m → ((a : A) → Adds (f a)) → Adds (m >>= f)
Adds-bind m f g h = Moves-bind Grows Grows-compose m f g h

pub Adds-known :
    {A : Type 0} (m : Tx A) (next : Db → Db)
    → ((db : Db) (out : A × Db) → m db ≡ ok out → out.1 ≡ next db)
    → ((db : Db) → Grows db (next db))
    → Adds m
Adds-known m next known g = Moves-known Grows m next known g

pub Adds-pure : {A : Type 0} (a : A) → Adds (pure a)
Adds-pure a = Moves-pure Grows Grows-self a

pub Adds-lift : {A : Type 0} (r : Result A) → Adds (lift r)
Adds-lift r = Moves-lift Grows Grows-self r

pub Adds-refuse_if : (b : Bool) (e : Error) → Adds (refuse_if b e)
Adds-refuse_if b e = Moves-refuse_if Grows Grows-self b e

pub Adds-read : {A : Type 0} (x : Error) (f : Db → Option A) → Adds (λ db. or_throw x (f db) db)
Adds-read x f = Moves-read Grows Grows-self x f

pub Adds-modify : (next : Db → Db) → ((db : Db) → Grows db (next db)) → Adds (modify next)
Adds-modify next g = Moves-modify Grows next g

pub Adds-log_directory :
    (organization actor subject : ℕ) (verb : DirectoryVerb)
    → Adds (log_directory organization actor subject verb)
unfolding log_directory log_activity
Adds-log_directory organization actor subject verb = Adds-modify _ (λ db. record {
  roles_stay = λ id h. h;
  grants_stay = λ role h. h;
  links_stay = λ p h. h;
  users_stay = λ o holds h. h;
})

pub Adds-bump_config_version : (organization : ℕ) → Adds (bump_config_version organization)
unfolding bump_config_version
Adds-bump_config_version organization =
    Adds-bind _ _ (Adds-read fault (find_organization organization)) (λ o. Adds-modify _ (λ db.
      record {
        roles_stay = λ id h. h;
        grants_stay = λ role h. h;
        links_stay = λ p h. h;
        users_stay = λ o holds h. h;
      }))

-- Updates that take no active row away.
pub Adds-update_role :
    (id : ℕ) (f : Role → Role)
    → ((k : ℕ) (r : Role) → is_active_role k r ≡ true → is_active_role k (f r) ≡ true)
    → Adds (update_role id f)
unfolding update_role put_roles
Adds-update_role id f keeps = Adds-bind _ _ (Adds-read fault (find_role id)) (λ row.
    Adds-bind _ _
      (Adds-modify _ (λ db. record {
        roles_stay = λ k h. any-update_where (is_active_role k) _ f db.directory.roles (keeps k) h;
        grants_stay = λ role h. h;
        links_stay = λ p h. h;
        users_stay = λ o holds h. h;
      }))
      (λ u. Adds-pure (f row)))

pub Adds-update_grant :
    (id : ℕ) (f : Grant → Grant)
    → ((role : ℕ) (g : Grant) → governs role g ≡ true → governs role (f g) ≡ true)
    → Adds (update_grant id f)
unfolding update_grant put_grants
Adds-update_grant id f keeps = Adds-bind _ _ (Adds-read fault (find_grant id)) (λ row.
    Adds-bind _ _
      (Adds-modify _ (λ db. record {
        roles_stay = λ k h. h;
        grants_stay =
            λ role h. any-update_where (governs role) _ f db.directory.grants (keeps role) h;
        links_stay = λ p h. h;
        users_stay = λ o holds h. h;
      }))
      (λ u. Adds-pure (f row)))

abbrev pub counts_in : (organization : ℕ) → (ℕ → Bool) → AppUser → Bool
counts_in organization holds u =
    u.organization_id == organization && is_active u.lifecycle_state && holds u.id

pub Adds-update_user :
    (id : ℕ) (f : AppUser → AppUser)
    → ((o : ℕ) (holds : ℕ → Bool) (u : AppUser)
        → counts_in o holds u ≡ true
        → counts_in o holds (f u) ≡ true)
    → Adds (update_user id f)
unfolding update_user put_users
Adds-update_user id f keeps =
    Adds-bind _ _ (Adds-read fault (λ db. find (λ u. u.id == id) db.users)) (λ row.
      Adds-bind _ _
        (Adds-modify _ (λ db. record {
          roles_stay = λ k h. h;
          grants_stay = λ role h. h;
          links_stay = λ p h. h;
          users_stay =
              λ o holds h. any-update_where (counts_in o holds) _ f db.users (keeps o holds) h;
        }))
        (λ u. Adds-pure (f row)))
