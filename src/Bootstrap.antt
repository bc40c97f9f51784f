-- ===== src/Bootstrap.antt =====
-- api/src/invitations/bootstrap.service.ts: the seeded role with its grants, and the system invitation
-- that is open while the organization has no effective administrator. `token_hash` and the hash of the
-- key are of node:crypto; the key and the token are what the service drew at random. The printing of the
-- key is not modelled.
use text.Mathlib.Text.{◌==◌ as ◌=ₜ◌}
use patrice.Prelude.{
  ℕ, ◌+◌, ◌*◌, Bool, true, false, not, ◌&&◌, Option, none, some, List, [], ◌∷◌, ◌++◌, String,
  is_some, any, keep, find, update_where, ◌==◌, if◌then◌else◌,
}
use patrice.Db.Directory.{
  LifecycleState, RoleKind, standalone, Role, permit, global, Grant, Invitation, Organization,
}
use patrice.Db.Rows.{Db, fault}
use patrice.Db.Tx.{Tx, ok, err, pure, ◌>>=◌, ◌>>◌, modify, gets, or_throw}
use patrice.Access.Op.{on_directory}
use patrice.Access.Admins.{is_global, effective_admin_exists}
use patrice.Roles.{create_role}
use patrice.Invitations.Redeem.{insert_invitation}
pub mod Recovery
mod Tests

abbrev pub admin_role_name : String
admin_role_name = "Admin"

abbrev pub bootstrap_expiry_ms : ℕ
bootstrap_expiry_ms = 365 * 24 * 60 * 60 * 1000

-- `ADMIN_SEED_ACTIONS`
abbrev pub admin_seed_actions : List String
admin_seed_actions =
    "invite:create" ∷ "invite:retire" ∷ "role:revive" ∷ "division:create" ∷ "division:update"
    ∷ "division:retire" ∷ "division:revive" ∷ "team:create" ∷ "team:update" ∷ "team:retire"
    ∷ "team:revive" ∷ "grant:revive" ∷ "config:update" ∷ "integration:create" ∷ "integration:update"
    ∷ "integration:retire" ∷ "integration:revive" ∷ "user:update" ∷ "user:retire" ∷ "user:revive"
    ∷ "user:deactivate" ∷ "user:reactivate" ∷ "user:grant_role" ∷ "user:revoke_role"
    ∷ "grant:create" ∷ "grant:update" ∷ "grant:retire" ∷ "role:create" ∷ "role:update"
    ∷ "role:retire" ∷ []

abbrev pub is_standalone : RoleKind → Bool
is_standalone standalone = true
is_standalone _ = false

abbrev pub is_admin_role : (organization : ℕ) → Role → Bool
is_admin_role organization r =
    r.organization_id == organization && is_standalone r.kind && r.name =ₜ admin_role_name

unfoldable pub find_admin_role : (organization : ℕ) → Db → Option Role
find_admin_role organization db = find (is_admin_role organization) db.directory.roles

-- A new organization has no settings.
unfoldable pub insert_organization : Db → Db
insert_organization db = record db {
  directory = record db.directory {
    organizations =
        db.directory.organizations
        ++ record {
          id = db.next_id;
          settings = record {
            self_review_allowed = false;
            grace_period_hours = none;
            session_absolute_days = none;
            session_idle_days = none;
          };
          config_version = 0;
        }
          ∷ [];
  };
  next_id = db.next_id + 1;
}

abbrev pub first_id : List Organization → Option ℕ
first_id [] = none
first_id (o ∷ rest) = some o.id

unfoldable pub ensure_organization : Tx ℕ
ensure_organization db = elim (first_id db.directory.organizations) [
  | some id ↦ ok (id, db)
  | none ↦ ok (db.next_id, insert_organization db)
]

unfoldable pub ensure_admin_role : (organization : ℕ) → Tx ℕ
ensure_admin_role organization db = elim (find_admin_role organization db) [
  | some r ↦ ok (r.id, db)
  | none ↦ (create_role organization admin_role_name standalone none none >>= λ r. pure r.id) db
]

-- The global grants of the role, whatever their effect and lifecycle.
abbrev pub has_action : (role : ℕ) → String → Db → Bool
has_action role action db =
    any (λ g. g.role_id == role && is_global g.scope_kind && g.action =ₜ action) db.directory.grants

unfoldable pub insert_seed_grant : (organization role : ℕ) → String → Db → Db
insert_seed_grant organization role action db = record db {
  directory = record db.directory {
    grants =
        db.directory.grants
        ++ record {
          id = db.next_id;
          organization_id = organization;
          role_id = role;
          action = action;
          effect = permit;
          scope_kind = global;
          scope_division_id = none;
          scope_team_id = none;
          scope_role_id = none;
          lifecycle_state = LifecycleState.active;
          retired_at = none;
          version = 0;
        }
          ∷ [];
  };
  next_id = db.next_id + 1;
}

unfoldable pub insert_seed_grants : (organization role : ℕ) → List String → Db → Db
insert_seed_grants organization role [] db = db
insert_seed_grants organization role (a ∷ rest) db =
    insert_seed_grants organization role rest (insert_seed_grant organization role a db)

unfoldable pub ensure_seed : Tx ℕ
ensure_seed = do
  organization ← ensure_organization
  role ← ensure_admin_role organization
  missing ← gets (λ db. keep (λ a. not (has_action role a db)) admin_seed_actions)
  modify (insert_seed_grants organization role missing)
  pure organization

abbrev pub is_system : (organization : ℕ) → Invitation → Bool
is_system organization i =
    i.organization_id == organization && not (is_some i.created_by) && not (is_some i.revoked_at)

unfoldable pub close_bootstrap : (now organization : ℕ) → Db → Db
close_bootstrap now organization = on_directory (λ d. record d {
  invitations =
      update_where (is_system organization) (λ i. record i { revoked_at = some now }) d.invitations;
})

abbrev pub rotated : (passcode_hash token_hash expires : ℕ) → Invitation → Invitation
rotated passcode_hash token_hash expires i = record i {
  passcode_hash = some passcode_hash;
  token_hash = token_hash;
  expires_at = expires;
}

abbrev pub system_invitation :
    (organization role passcode_hash token_hash expires id : ℕ) → Invitation
system_invitation organization role passcode_hash token_hash expires id = record {
  id = id;
  organization_id = organization;
  token_hash = token_hash;
  email = none;
  intended_role_ids = role ∷ [];
  passcode_hash = some passcode_hash;
  max_uses = 1;
  use_count = 0;
  created_by = none;
  expires_at = expires;
  revoked_at = none;
}

module _ (token_hash key_hash : ℕ → ℕ) (now organization key token : ℕ) where
  unfoldable pub rotate : (id : ℕ) → Db → Db
  rotate id = on_directory (λ d. record d {
    invitations =
        update_where (λ i. i.id == id)
          (rotated (key_hash key) (token_hash token) (now + bootstrap_expiry_ms)) d.invitations;
  })

  unfoldable pub open_invitation : (role : ℕ) → Db → Db
  open_invitation role db = elim (find (is_system organization) db.directory.invitations) [
    | some existing ↦ rotate existing.id db
    | none ↦
        insert_invitation
          (system_invitation organization role (key_hash key) (token_hash token)
            (now + bootstrap_expiry_ms))
          db
  ]

  -- `refreshBootstrap`, with the live token that it leaves in the service.
  unfoldable pub refresh_bootstrap : Tx (Option ℕ)
  refresh_bootstrap db = elim (effective_admin_exists organization db) [
    | true ↦ ok (none, close_bootstrap now organization db)
    | false ↦ elim (find_admin_role organization db) [
      | none ↦ err fault
      | some role ↦ ok (some token, open_invitation role.id db)
    ]
  ]

-- `onApplicationBootstrap`
unfoldable pub on_application_bootstrap :
    (token_hash key_hash : ℕ → ℕ) → (now key token : ℕ) → Tx (Option ℕ)
on_application_bootstrap token_hash key_hash now key token = do
  organization ← ensure_seed
  refresh_bootstrap token_hash key_hash now organization key token

-- `BootstrapStatus`
pub record BootstrapStatus : Type 0 where
  pub is_open : Bool
  pub invite_token : Option ℕ

abbrev pub status_of : (has_admin : Bool) → (live : Option ℕ) → BootstrapStatus
status_of true live = record { is_open = false; invite_token = none }
status_of false live = record { is_open = true; invite_token = live }

unfoldable pub get_status : (live : Option ℕ) → Db → BootstrapStatus
get_status live db = elim (first_id db.directory.organizations) [
  | none ↦ record { is_open = false; invite_token = none }
  | some id ↦ status_of (effective_admin_exists id db) live
]
