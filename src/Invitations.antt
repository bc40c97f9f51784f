-- ===== src/Invitations.antt =====
-- api/src/invitations/invitation-status.ts and invitations.service.ts: an account is made by redeeming
-- an invitation. What the repository does not have is a parameter: `token_hash` and `passcode_hash`
-- are node:crypto, `lower` is `toLowerCase`, `same_email` is the equality of the column's type citext,
-- and `decides` is AccessService.decide, of the Cedar package, for `user:grant_role`. `list`, the hash
-- of the password and the mail that is sent after the commit are not modelled.
use text.Mathlib.Text.{◌==◌ as ◌=ₜ◌}
use patrice.Prelude.{
  ℕ, ◌+◌, ◌*◌, ltb, leb, Bool, true, false, not, ◌&&◌, ◌||◌, Option, none, some, List, [], ◌∷◌,
  ◌++◌, String, is_some, any, find, update_where, get_or, opt_eq, ◌==◌, if◌then◌else◌,
}
use patrice.Db.Directory.{
  LifecycleState, AuthProvider, password, discord, UserIdentity, Invitation, InvitationUse,
  user_registered, invite_created, invite_revoked, invite_redeemed, bootstrap_completed,
}
use patrice.Db.Rows.{
  AppUser, Db, invite_not_found, invite_unavailable, invalid_passcode, email_mismatch,
  role_not_grantable, discord_already_linked, email_taken, invite_race_lost, not_found, conflict,
  unprocessable, denied, gone, fault,
}
use patrice.Db.Tx.{Result, ok, err, Tx, pure, ◌>>=◌, ◌>>◌, lift, refuse_if, modify, or_throw}
use patrice.Access.Op.{on_directory, bump_config_version, log_directory}
use patrice.Users.{insert_link}
pub mod Redeem
pub mod Steps
pub mod Uses
pub mod Safety
pub mod History
mod Tests

pub data InvitationStatus : Type 0 where
  revoked exhausted expired pending : InvitationStatus

-- `deriveInvitationStatus`
unfoldable pub derive_invitation_status : (now : ℕ) → Invitation → InvitationStatus
derive_invitation_status now inv =
    if is_some inv.revoked_at
    then revoked
    else if leb inv.max_uses inv.use_count
    then exhausted
    else if leb inv.expires_at now
    then expired
    else pending

abbrev pub is_pending : InvitationStatus → Bool
is_pending pending = true
is_pending _ = false

abbrev pub default_expiry_ms : ℕ
default_expiry_ms = 7 * 24 * 60 * 60 * 1000

-- A text that is there and is not empty.
abbrev pub given : Option String → Bool
given none = false
given (some s) = not (s =ₜ "")

-- `InviteView`
pub record InviteView : Type 0 where
  pub requires_email : Bool
  pub requires_passcode : Bool
  pub status : InvitationStatus
  pub is_bootstrap : Bool

-- The sign-in method that the new user starts with.
pub data IdentitySpec : Type 0 where
  by_password : (password_hash : ℕ) → IdentitySpec
  by_discord : (subject : ℕ) → IdentitySpec

pub record Redemption : Type 0 where
  pub token : ℕ
  pub passcode : Option String
  pub email : Option String
  pub display_name : String
  pub identity : IdentitySpec

abbrev pub provider_of : IdentitySpec → AuthProvider
provider_of (by_password h) = password
provider_of (by_discord s) = discord

abbrev pub subject_of : IdentitySpec → Option ℕ
subject_of (by_password h) = none
subject_of (by_discord s) = some s

abbrev pub password_of : IdentitySpec → Option ℕ
password_of (by_password h) = some h
password_of (by_discord s) = none

-- `verifiedAt`
abbrev pub verified_from : (now : ℕ) → IdentitySpec → (is_bootstrap : Bool) → Option ℕ
verified_from now (by_discord s) is_bootstrap = some now
verified_from now (by_password h) true = some now
verified_from now (by_password h) false = none

-- The conditions of the `UPDATE` that consumes a use.
abbrev pub is_open : (now id : ℕ) → Invitation → Bool
is_open now id inv =
    inv.id == id
    && (ltb inv.use_count inv.max_uses && (not (is_some inv.revoked_at) && ltb now inv.expires_at))

abbrev pub count_use : Invitation → Invitation
count_use inv = record inv { use_count = inv.use_count + 1 }

unfoldable pub use_once : (now id : ℕ) → Db → Db
use_once now id =
    on_directory
      (λ d. record d { invitations = update_where (is_open now id) count_use d.invitations })

-- Takes one use of an invitation that is open, or gives 409.
unfoldable pub consume : (now id : ℕ) → Tx (Unit {0})
consume now id = do
  λ db. or_throw (conflict invite_race_lost) (find (is_open now id) db.directory.invitations) db
  modify (use_once now id)

abbrev pub new_user : (id organization : ℕ) → Option String → String → (invitation : ℕ) → AppUser
new_user id organization email display_name invitation = record {
  id = id;
  organization_id = organization;
  email = email;
  display_name = display_name;
  created_via_invitation_id = some invitation;
  lifecycle_state = LifecycleState.active;
  deactivated_at = none;
  retired_at = none;
  version = 0;
}

unfoldable pub add_user : (organization : ℕ) → Option String → String → (invitation : ℕ) → Db → Db
add_user organization email display_name invitation db = record db {
  users = db.users ++ new_user db.next_id organization email display_name invitation ∷ [];
  next_id = db.next_id + 1;
}

unfoldable pub add_identity : (now user : ℕ) → IdentitySpec → (is_bootstrap : Bool) → Db → Db
add_identity now user spec is_bootstrap db = record db {
  directory = record db.directory {
    identities =
        db.directory.identities
        ++ record {
          id = db.next_id;
          user_id = user;
          provider = provider_of spec;
          provider_subject = subject_of spec;
          password_hash = password_of spec;
          verified_at = verified_from now spec is_bootstrap;
        }
          ∷ [];
  };
  next_id = db.next_id + 1;
}

-- `invitationUse.create`
unfoldable pub add_use : (invitation user : ℕ) → Db → Db
add_use invitation user db = record db {
  directory = record db.directory {
    invitation_uses =
        db.directory.invitation_uses
        ++ record { id = db.next_id; invitation_id = invitation; created_user_id = user } ∷ [];
  };
  next_id = db.next_id + 1;
}

abbrev pub is_discord : AuthProvider → Bool
is_discord discord = true
is_discord _ = false

-- The discord identity of this subject, which the unique index allows once.
abbrev pub is_linked : IdentitySpec → Db → Bool
is_linked (by_password h) db = false
is_linked (by_discord s) db =
    any (λ i. is_discord i.provider && opt_eq i.provider_subject (some s)) db.directory.identities

unfoldable pub insert_identity :
    (now user : ℕ) → IdentitySpec → (is_bootstrap : Bool) → Tx (Unit {0})
insert_identity now user spec is_bootstrap db = elim (is_linked spec db) [
  | true ↦ err fault
  | false ↦ ok (tt, add_identity now user spec is_bootstrap db)
]

-- `for (const roleId of inv.intendedRoleIds)`
unfoldable pub grant_all : (user : ℕ) → (granted_by : Option ℕ) → List ℕ → Tx (Unit {0})
grant_all user granted_by [] = pure tt
grant_all user granted_by (role ∷ rest) =
    insert_link user role granted_by >> grant_all user granted_by rest

-- `writeAcceptActivity`
unfoldable pub write_accept_activity : (user : ℕ) → Invitation → AuthProvider → Tx (Unit {0})
write_accept_activity user inv provider = do
  log_directory inv.organization_id user user (user_registered user inv.id provider)
  log_directory inv.organization_id user inv.id (invite_redeemed inv.id user inv.intended_role_ids)
  if is_some inv.created_by
      then pure tt
      else log_directory inv.organization_id user user (bootstrap_completed user inv.id)
