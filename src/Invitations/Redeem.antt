-- ===== src/Invitations/Redeem.antt =====
-- api/src/invitations/invitations.service.ts: create, view, revoke and redeem, which accept and
-- acceptWithDiscord call with their sign-in method. What redeem reads before its transaction is `seen`.
use text.Mathlib.Text.{◌==◌ as ◌=ₜ◌}
use patrice.Prelude.{
  ℕ, ◌+◌, Bool, true, false, not, ◌&&◌, ◌||◌, Option, none, some, List, [], ◌∷◌, ◌++◌, String,
  is_some, any, find, update_where, get_or, ◌==◌,
}
use patrice.Db.Directory.{Invitation, invite_created, invite_revoked}
use patrice.Db.Rows.{
  Db, invite_not_found, invite_unavailable, invalid_passcode, email_mismatch, role_not_grantable,
  discord_already_linked, email_taken, not_found, conflict, unprocessable, denied, gone, fault,
}
use patrice.Db.Tx.{Result, ok, err, Tx, pure, ◌>>=◌, ◌>>◌, lift, refuse_if, modify, or_throw}
use patrice.Access.Op.{
  Op, after, return_if, transact, on_directory, bump_config_version, log_directory,
}
use patrice.Invitations.{
  derive_invitation_status, is_pending, default_expiry_ms, given, InviteView, Redemption,
  provider_of, consume, add_user, add_use, insert_identity, is_linked, grant_all,
  write_accept_activity,
}

abbrev pub new_invitation :
    (id organization token_hash : ℕ) → Option String → List ℕ → (creator expires : ℕ) → Invitation
new_invitation id organization token_hash email roles creator expires = record {
  id = id;
  organization_id = organization;
  token_hash = token_hash;
  email = email;
  intended_role_ids = roles;
  passcode_hash = none;
  max_uses = 1;
  use_count = 0;
  created_by = some creator;
  expires_at = expires;
  revoked_at = none;
}

unfoldable pub insert_invitation : (ℕ → Invitation) → Db → Db
insert_invitation make db = record db {
  directory = record db.directory {
    invitations = db.directory.invitations ++ make db.next_id ∷ [];
  };
  next_id = db.next_id + 1;
}

unfoldable pub mark_revoked : (now id : ℕ) → Db → Db
mark_revoked now id = on_directory (λ d. record d {
  invitations =
      update_where (λ i. i.id == id) (λ i. record i { revoked_at = some now }) d.invitations;
})

unfoldable pub find_invitation : ℕ → Db → Option Invitation
find_invitation id db = find (λ i. i.id == id) db.directory.invitations

unfoldable pub revoke_body : (now actor : ℕ) → Invitation → Tx (Unit {0})
revoke_body now actor inv = do
  λ db. or_throw fault (find_invitation inv.id db) db
  modify (mark_revoked now inv.id)
  log_directory inv.organization_id actor inv.id (invite_revoked inv.id)

unfoldable pub load_invitation : (seen : Db) (id : ℕ) → Result Invitation
load_invitation seen id = elim (find_invitation id seen) [
  | none ↦ err (not_found invite_not_found)
  | some inv ↦ ok inv
]

unfoldable pub revoke : (seen : Db) (now id actor : ℕ) → Op (Unit {0})
revoke seen now id actor =
    after (load_invitation seen id)
      λ inv. return_if (is_some inv.revoked_at) tt (transact (revoke_body now actor inv))

module _ (decides : Db → (actor role : ℕ) → Bool) (seen : Db) where
  -- `assertRolesGrantable`
  abbrev pub grantable : (actor : ℕ) → List ℕ → Bool
  grantable actor [] = true
  grantable actor (role ∷ rest) = decides seen actor role && grantable actor rest

  -- Bootstrap invitations are exempt.
  abbrev pub issuer_may_grant : Option ℕ → List ℕ → Bool
  issuer_may_grant none roles = true
  issuer_may_grant (some creator) roles = grantable creator roles

  unfoldable pub create :
      (now token_hash organization creator : ℕ)
      → Option String
      → List ℕ
      → (expires : Option ℕ) → Tx ℕ
  create now token_hash organization creator email roles expires = do
    refuse_if (not (grantable creator roles)) (denied role_not_grantable)
    id ← λ db. ok (db.next_id, db)
    modify (
        insert_invitation (λ id.
          new_invitation id organization token_hash email roles creator
            (get_or (now + default_expiry_ms) expires)))
    log_directory organization creator id (invite_created id roles false)
    pure id

module _ (token_hash : ℕ → ℕ) (passcode_hash : String → ℕ) (lower : String → String)
    (same_email : String → String → Bool) (decides : Db → (actor role : ℕ) → Bool) where
  -- `findByToken`
  unfoldable pub find_by_token : ℕ → Db → Option Invitation
  find_by_token token db = find (λ i. i.token_hash == token_hash token) db.directory.invitations

  unfoldable pub load_by_token : (seen : Db) → ℕ → Result Invitation
  load_by_token seen token = elim (find_by_token token seen) [
    | none ↦ err (not_found invite_not_found)
    | some inv ↦ ok inv
  ]

  abbrev pub view_of : (now : ℕ) → Invitation → InviteView
  view_of now inv = record {
    requires_email = is_some inv.email;
    requires_passcode = is_some inv.passcode_hash;
    status = derive_invitation_status now inv;
    is_bootstrap = not (is_some inv.created_by);
  }

  unfoldable pub view : (seen : Db) (now token : ℕ) → Result InviteView
  view seen now token = elim (load_by_token seen token) [
    | err e ↦ err e
    | ok inv ↦ ok (view_of now inv)
  ]

  -- `provided` and its comparison; an empty passcode is none.
  abbrev pub passcode_fails : (wanted : Option ℕ) → (passcode : Option String) → Bool
  passcode_fails none passcode = false
  passcode_fails (some wanted) none = true
  passcode_fails (some wanted) (some s) = s =ₜ "" || not (passcode_hash s == wanted)

  abbrev pub other_email : (wanted : String) → Option String → Bool
  other_email wanted none = true
  other_email wanted (some e) = not (lower e =ₜ lower wanted)

  abbrev pub email_fails : (wanted email : Option String) → Bool
  email_fails none email = false
  email_fails (some wanted) email = not (wanted =ₜ "") && other_email wanted email

  abbrev pub same_optional : Option String → Option String → Bool
  same_optional none e = false
  same_optional (some d) none = false
  same_optional (some d) (some e) = same_email d e

  abbrev pub has_email : (organization : ℕ) → Option String → Db → Bool
  has_email organization email db =
      any (λ u. u.organization_id == organization && same_optional u.email email) db.users

  -- `appUser.create`, with the unique index on the organization and the email.
  unfoldable pub create_user : Invitation → Redemption → Tx ℕ
  create_user inv args db = elim (has_email inv.organization_id args.email db) [
    | true ↦ err fault
    | false ↦ ok (db.next_id, add_user inv.organization_id args.email args.display_name inv.id db)
  ]

  -- The transaction of `redeem`.
  unfoldable pub redeem_body : (now : ℕ) → Invitation → Redemption → Tx ℕ
  redeem_body now inv args = do
    consume now inv.id
    user ← create_user inv args
    insert_identity now user args.identity (not (is_some inv.created_by))
    modify (add_use inv.id user)
    grant_all user inv.created_by inv.intended_role_ids
    bump_config_version inv.organization_id
    write_accept_activity user inv (provider_of args.identity)
    pure user

  -- `seen_at` is the time of the checks, and `now` that of the transaction.
  unfoldable pub redeem : (seen : Db) (seen_at now : ℕ) → Redemption → Tx (ℕ × Bool)
  redeem seen seen_at now args = do
    inv ← lift (load_by_token seen args.token)
    refuse_if (not (is_pending (derive_invitation_status seen_at inv))) (gone invite_unavailable)
    refuse_if (passcode_fails inv.passcode_hash args.passcode) (denied invalid_passcode)
    refuse_if (email_fails inv.email args.email) (denied email_mismatch)
    refuse_if (not (issuer_may_grant decides seen inv.created_by inv.intended_role_ids))
        (denied role_not_grantable)
    refuse_if (is_linked args.identity seen) (conflict discord_already_linked)
    refuse_if (given args.email && has_email inv.organization_id args.email seen)
        (unprocessable email_taken)
    user ← redeem_body now inv args
    pure (user, not (is_some inv.created_by))
