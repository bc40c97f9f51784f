-- ===== src/Access/Admins.antt =====
-- api/src/access/administrability.service.ts: who is an effective administrator.
use patrice.Prelude.{ℕ, Bool, true, false, ◌&&◌, List, map, any, count, keep, ltb, ◌==◌}
use patrice.Db.Directory.{GrantEffect, permit, ScopeKind, global, Role, UserRole, Grant}
use patrice.Db.Rows.{AppUser, Db}
use patrice.Db.Tables.{is_active}
use patrice.Access.Actions.{is_admin_action}

abbrev pub is_permit : GrantEffect → Bool
is_permit permit = true
is_permit _ = false

abbrev pub is_global : ScopeKind → Bool
is_global global = true
is_global _ = false

-- The join's conditions on a grant of the role.
abbrev pub governs : (role : ℕ) → Grant → Bool
governs role g =
    g.role_id == role
    && is_active g.lifecycle_state
    && is_permit g.effect
    && is_global g.scope_kind
    && is_admin_action g.action

-- The join's conditions on a role.
abbrev pub is_active_role : (id : ℕ) → Role → Bool
is_active_role id r = r.id == id && is_active r.lifecycle_state

unfoldable pub role_governs : (role : ℕ) → Db → Bool
role_governs role db =
    any (is_active_role role) db.directory.roles && any (governs role) db.directory.grants

abbrev pub gives_admin : (user : ℕ) → Db → UserRole → Bool
gives_admin user db link = link.user_id == user && role_governs link.role_id db

unfoldable pub holds_admin_role : (user : ℕ) → Db → Bool
holds_admin_role user db = any (gives_admin user db) db.directory.user_roles

unfoldable pub is_effective_admin : (organization : ℕ) → Db → AppUser → Bool
is_effective_admin organization db u =
    u.organization_id == organization && is_active u.lifecycle_state && holds_admin_role u.id db

-- `COUNT(DISTINCT u.id)`: each user is one row.
unfoldable pub effective_admin_count : (organization : ℕ) → Db → ℕ
effective_admin_count organization db = count (is_effective_admin organization db) db.users

unfoldable pub effective_admin_exists : (organization : ℕ) → Db → Bool
effective_admin_exists organization db = ltb 0 (effective_admin_count organization db)

unfoldable pub effective_admin_ids : (organization : ℕ) → Db → List ℕ
effective_admin_ids organization db =
    map (λ u. u.id) (keep (is_effective_admin organization db) db.users)
