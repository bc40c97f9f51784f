-- ===== src/Invitations/Steps.antt =====
-- What a redemption that returns did to the invitations and their uses.
use patrice.Prelude.{
  ℕ, ◌≤◌, ◌≡◌, refl, ◌∙◌, ap, Bool, not, Option, none, some, String, List, [], ◌∷◌, ◌++◌, arith,
  is_some, find, update_where, if◌then◌else◌, Option-cases, inl, inr,
}
use patrice.Db.Directory.{
  Invitation, InvitationUse, AuthProvider, DirectoryVerb, bootstrap_completed,
}
use patrice.Db.Rows.{Db}
use patrice.Db.Tx.{Tx, pure, ok, ◌>>=◌, >>=-eq-ok}
use patrice.Db.Frame.{Moves, Moves-bind, Moves-known, Moves-pure, Moves-read, Moves-modify}
use patrice.Db.Emit.{log_activity}
use patrice.Access.Op.{bump_config_version, log_directory, find_organization}
use patrice.Users.{insert_link, add_link}
use patrice.Invitations.{
  IdentitySpec, Redemption, provider_of, consume, use_once, is_open, count_use, add_user, add_use,
  add_identity, insert_identity, grant_all, write_accept_activity,
}
use patrice.Invitations.Redeem.{create_user, redeem_body}

-- The invitations and their uses stay, and ids grow.
pub record Leaves (a b : Db) : Type 0 where
  pub same_invitations : b.directory.invitations ≡ a.directory.invitations
  pub same_uses : b.directory.invitation_uses ≡ a.directory.invitation_uses
  pub later_ids : a.next_id ≤ b.next_id

Leaves-self : (db : Db) → Leaves db db
Leaves-self db = record { same_invitations = refl; same_uses = refl; later_ids = omega arith }

pub Leaves-trans : (a b c : Db) → Leaves a b → Leaves b c → Leaves a c
Leaves-trans a b c g h = record {
  same_invitations = h.same_invitations ∙ g.same_invitations;
  same_uses = h.same_uses ∙ g.same_uses;
  later_ids = omega (arith, g.later_ids, h.later_ids);
}

bind :
    {A B : Type 0} (m : Tx A) (f : A → Tx B)
    → Moves Leaves m
    → ((a : A) → Moves Leaves (f a))
    → Moves Leaves (m >>= f)
bind m f g h = Moves-bind Leaves Leaves-trans m f g h

pub Leaves-log_directory :
    (o actor subject : ℕ) (verb : DirectoryVerb) → Moves Leaves (log_directory o actor subject verb)
unfolding log_directory log_activity
Leaves-log_directory o actor subject verb =
    Moves-modify Leaves _
      (λ db. record { same_invitations = refl; same_uses = refl; later_ids = omega arith })

Leaves-bump_config_version : (o : ℕ) → Moves Leaves (bump_config_version o)
unfolding bump_config_version
Leaves-bump_config_version o =
    bind _ _ (Moves-read Leaves Leaves-self _ (find_organization o)) (λ x.
      Moves-modify Leaves _
        (λ db. record { same_invitations = refl; same_uses = refl; later_ids = omega arith }))

Leaves-insert_link : (user role : ℕ) (by : Option ℕ) → Moves Leaves (insert_link user role by)
unfolding insert_link add_link
Leaves-insert_link user role by =
    Moves-known Leaves _ (add_link user role by) (λ db out e. ground arith)
      (λ db. record { same_invitations = refl; same_uses = refl; later_ids = omega arith })

Leaves-grant_all :
    (user : ℕ) (by : Option ℕ) (roles : List ℕ) → Moves Leaves (grant_all user by roles)
unfolding grant_all
Leaves-grant_all user by [] = Moves-pure Leaves Leaves-self tt
Leaves-grant_all user by (role ∷ rest) =
    bind _ _ (Leaves-insert_link user role by) (λ u. Leaves-grant_all user by rest)

Leaves-insert_identity :
    (now user : ℕ) (spec : IdentitySpec) (is_bootstrap : Bool)
    → Moves Leaves (insert_identity now user spec is_bootstrap)
unfolding insert_identity add_identity
Leaves-insert_identity now user spec is_bootstrap =
    Moves-known Leaves _ (add_identity now user spec is_bootstrap) (λ db out e. ground arith)
      (λ db. record { same_invitations = refl; same_uses = refl; later_ids = omega arith })

Leaves-write_accept_activity :
    (user : ℕ) (inv : Invitation) (provider : AuthProvider)
    → Moves Leaves (write_accept_activity user inv provider)
unfolding write_accept_activity
Leaves-write_accept_activity user inv provider =
    bind _ _ (Leaves-log_directory inv.organization_id user user _) (λ a.
      bind _ _ (Leaves-log_directory inv.organization_id user inv.id _) (λ b. last inv.created_by))
  where
    last :
        (by : Option ℕ)
        → Moves Leaves (
            if is_some by
            then pure tt
            else log_directory inv.organization_id user user (bootstrap_completed user inv.id))
    last none = Leaves-log_directory inv.organization_id user user _
    last (some c) = Moves-pure Leaves Leaves-self tt

-- One use of an open invitation was taken and recorded.
pub record Used (now id : ℕ) (a b : Db) : Type 0 where
  pub taken : Invitation
  pub was_open : find (is_open now id) a.directory.invitations ≡ some taken
  pub counted_up :
      b.directory.invitations ≡ update_where (is_open now id) count_use a.directory.invitations
  pub new_use : InvitationUse
  pub new_use_of : new_use.invitation_id ≡ id
  pub recorded : b.directory.invitation_uses ≡ a.directory.invitation_uses ++ new_use ∷ []
  pub later_ids : a.next_id ≤ b.next_id

consume_opens :
    (now id : ℕ) (db : Db) {u : Unit {0}} {db' : Db}
    → consume now id db ≡ ok (u, db')
    → ((taken : Invitation) × (find (is_open now id) db.directory.invitations ≡ some taken))
      × (db' ≡ use_once now id db)
unfolding consume
consume_opens now id db h = elim (Option-cases (find (is_open now id) db.directory.invitations)) [
  | inl missing ↦ absurd (ground arith)
  | inr (taken, found) ↦ ((taken, found), ground arith)
]

Used-of :
    (now id who : ℕ) (row : Invitation) (db db1 db3 db' : Db)
    → find (is_open now id) db.directory.invitations ≡ some row
    → db1 ≡ use_once now id db
    → Leaves db1 db3
    → Leaves (add_use id who db3) db'
    → Used now id db db'
unfolding use_once add_use
Used-of now id who row db db1 db3 db' found opened before later = record {
  taken = row;
  was_open = found;
  counted_up =
      later.same_invitations
      ∙ (before.same_invitations ∙ ap (λ (d : Db). d.directory.invitations) opened);
  new_use = record { id = db3.next_id; invitation_id = id; created_user_id = who };
  new_use_of = refl;
  recorded =
      later.same_uses
      ∙ ap (λ l. l ++ record { id = db3.next_id; invitation_id = id; created_user_id = who } ∷ [])
          (before.same_uses ∙ ap (λ (d : Db). d.directory.invitation_uses) opened);
  later_ids =
      let first : db.next_id ≤ db1.next_id = rw opened (omega arith) in
      omega (arith, before.later_ids, later.later_ids);
}

module _ (token_hash : ℕ → ℕ) (passcode_hash : String → ℕ) (lower : String → String)
    (same_email : String → String → Bool) (decides : Db → (actor role : ℕ) → Bool) where
  Leaves-create_user :
      (inv : Invitation) (args : Redemption)
      → Moves Leaves (create_user token_hash passcode_hash lower same_email decides inv args)
  unfolding create_user add_user
  Leaves-create_user inv args =
      Moves-known Leaves _ (add_user inv.organization_id args.email args.display_name inv.id)
        (λ db out e. ground arith)
        (λ db. record { same_invitations = refl; same_uses = refl; later_ids = omega arith })

  pub redeem_body-Used :
      (now : ℕ) (inv : Invitation) (args : Redemption) (db : Db) {user : ℕ} {db' : Db}
      → redeem_body token_hash passcode_hash lower same_email decides now inv args db
        ≡ ok (user, db')
      → Used now inv.id db db'
  unfolding redeem_body Moves use_once add_use
  redeem_body-Used now inv args db {user} {db'} h =
      let (a, db1, taken, h1) = >>=-eq-ok (consume now inv.id) _ db h in
      let ((row, found), opened) = consume_opens now inv.id db taken in
      let (who, db2, made, h2) =
        >>=-eq-ok (create_user token_hash passcode_hash lower same_email decides inv args) _ db1
          h1 in
      let (c, db3, identified, h3) =
        >>=-eq-ok (insert_identity now who args.identity (not (is_some inv.created_by))) _ db2 h2 in
      let before = Leaves-trans db1 db2 db3 (Leaves-create_user inv args db1 (who, db2) made) (
        Leaves-insert_identity now who args.identity (not (is_some inv.created_by)) db2 (c, db3)
          identified) in
      let later =
        bind _ _ (Leaves-grant_all who inv.created_by inv.intended_role_ids)
          (λ e. bind _ _ (Leaves-bump_config_version inv.organization_id) (λ f.
            bind _ _ (Leaves-write_accept_activity who inv (provider_of args.identity))
              (λ g. Moves-pure Leaves Leaves-self who)))
          (add_use inv.id who db3) (user, db') h3 in
      Used-of now inv.id who row db db1 db3 db' found opened before later
