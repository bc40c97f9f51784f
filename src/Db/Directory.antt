-- ===== src/Db/Directory.antt =====
-- The rows of api/prisma/schema.prisma that say who is who and who may do what, with the audit verbs
-- of the services that write them (api/src/activity/activity.types.ts). Tokens and passcodes are
-- their hashes, which are numbers here.
use patrice.Prelude.{ℕ, Bool, Option, List, String}

pub data LifecycleState : Type 0 where
  active deactivated retired : LifecycleState

-- The settings that the modelled services read: `none` and `false` where the key is not set.
pub record Settings : Type 0 where
  pub self_review_allowed : Bool
  pub grace_period_hours : Option ℕ
  pub session_absolute_days : Option ℕ
  pub session_idle_days : Option ℕ

pub record Organization : Type 0 where
  pub id : ℕ
  pub settings : Settings
  pub config_version : ℕ

pub data RoleKind : Type 0 where
  standalone division_kind team_kind : RoleKind

pub record Role : Type 0 where
  pub id : ℕ
  pub organization_id : ℕ
  pub name : String
  pub kind : RoleKind
  pub division_id : Option ℕ
  pub team_id : Option ℕ
  pub lifecycle_state : LifecycleState
  pub retired_at : Option ℕ
  pub version : ℕ

-- `patrice` in the schema is `native` here.
pub data UserRoleSource : Type 0 where
  native integration : UserRoleSource

pub record UserRole : Type 0 where
  pub id : ℕ
  pub user_id : ℕ
  pub role_id : ℕ
  pub source : UserRoleSource
  pub source_connection_id : Option ℕ
  pub granted_by : Option ℕ

pub data GrantEffect : Type 0 where
  permit forbid : GrantEffect

pub data ScopeKind : Type 0 where
  global own own_division own_team specific_division specific_team role_scope : ScopeKind

pub record Grant : Type 0 where
  pub id : ℕ
  pub organization_id : ℕ
  pub role_id : ℕ
  pub action : String
  pub effect : GrantEffect
  pub scope_kind : ScopeKind
  pub scope_division_id : Option ℕ
  pub scope_team_id : Option ℕ
  pub scope_role_id : Option ℕ
  pub lifecycle_state : LifecycleState
  pub retired_at : Option ℕ
  pub version : ℕ

pub record Team : Type 0 where
  pub id : ℕ
  pub organization_id : ℕ
  pub name : String
  pub restrict_claims : Bool
  pub lifecycle_state : LifecycleState
  pub retired_at : Option ℕ
  pub version : ℕ

pub data AuthProvider : Type 0 where
  password google discord : AuthProvider

pub record UserIdentity : Type 0 where
  pub id : ℕ
  pub user_id : ℕ
  pub provider : AuthProvider
  pub provider_subject : Option ℕ
  pub password_hash : Option ℕ
  pub verified_at : Option ℕ

pub record Session : Type 0 where
  pub id : ℕ
  pub user_id : ℕ
  pub token_hash : ℕ
  pub auth_method : AuthProvider
  pub last_seen_at : ℕ
  pub absolute_expires_at : ℕ
  pub idle_expires_at : ℕ
  pub revoked_at : Option ℕ

pub record Invitation : Type 0 where
  pub id : ℕ
  pub organization_id : ℕ
  pub token_hash : ℕ
  pub email : Option String
  pub intended_role_ids : List ℕ
  pub passcode_hash : Option ℕ
  pub max_uses : ℕ
  pub use_count : ℕ
  pub created_by : Option ℕ
  pub expires_at : ℕ
  pub revoked_at : Option ℕ

pub record InvitationUse : Type 0 where
  pub id : ℕ
  pub invitation_id : ℕ
  pub created_user_id : ℕ

pub record Directory : Type 0 where
  pub organizations : List Organization
  pub roles : List Role
  pub user_roles : List UserRole
  pub grants : List Grant
  pub teams : List Team
  pub identities : List UserIdentity
  pub sessions : List Session
  pub invitations : List Invitation
  pub invitation_uses : List InvitationUse

-- The operation of a refused row, which the source writes as a path such as `role.retire`.
pub data GuardedPath : Type 0 where
  role_retire grant_update grant_retire user_deactivate user_retire user_revoke_role : GuardedPath

pub data DirectoryVerb : Type 0 where
  role_created role_updated role_retired role_revived : (role : ℕ) → DirectoryVerb
  grant_created grant_updated grant_retired grant_revived : (grant role : ℕ) → DirectoryVerb
  division_created division_updated division_retired division_revived :
      (division : ℕ) → DirectoryVerb
  team_created team_updated team_retired team_revived : (team : ℕ) → DirectoryVerb
  user_updated user_deactivated user_reactivated user_gone user_revived : (user : ℕ) → DirectoryVerb
  user_role_granted user_role_revoked : (user role : ℕ) → DirectoryVerb
  user_registered : (user invitation : ℕ) → AuthProvider → DirectoryVerb
  invite_created :
      (invitation : ℕ) (intended_role_ids : List ℕ) (is_bootstrap : Bool) → DirectoryVerb
  invite_revoked : (invitation : ℕ) → DirectoryVerb
  invite_redeemed : (invitation user : ℕ) (granted_role_ids : List ℕ) → DirectoryVerb
  bootstrap_completed : (user invitation : ℕ) → DirectoryVerb
  last_admin_refused : GuardedPath → (subject : ℕ) → DirectoryVerb
  gc_task_collected : (task : ℕ) → DirectoryVerb
  gc_user_scrubbed gc_user_collected : (user : ℕ) → DirectoryVerb
  invite_auto_revoked : (invitation issuer : ℕ) → DirectoryVerb
