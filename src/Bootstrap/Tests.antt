-- ===== src/Bootstrap/Tests.antt =====
-- A first start, the redemption of the system invitation, and a restart without an administrator.
use patrice.Prelude.{
  ℕ, ◌≡◌, refl, true, Option, none, some, List, [], ◌∷◌, find, arith, ◌==◌, length,
}
use patrice.Db.Directory.{LifecycleState, standalone, Invitation}
use patrice.Db.Rows.{Db}
use patrice.Db.Tx.{Result, ok, err}
use patrice.Db.Tables.{no_rows, no_directory}
use patrice.Access.Actions.{is_admin_action}
use patrice.Access.Admins.{
  role_governs, holds_admin_role, is_effective_admin, effective_admin_count, effective_admin_exists,
}
use patrice.Roles.{insert_role, create_role}
use patrice.Invitations.{derive_invitation_status, exhausted}
use patrice.Invitations.Redeem.{insert_invitation}
use patrice.Bootstrap.{
  find_admin_role, insert_organization, ensure_organization, ensure_admin_role, insert_seed_grant,
  insert_seed_grants, ensure_seed, close_bootstrap, rotate, open_invitation, refresh_bootstrap,
  on_application_bootstrap, system_invitation, get_status,
}
use patrice.Bootstrap.Recovery.{recovery_is_exhausted}

bootstrap : Unit {0}
unfolding is_admin_action role_governs holds_admin_role is_effective_admin effective_admin_count
    effective_admin_exists insert_role create_role insert_invitation derive_invitation_status
    find_admin_role insert_organization ensure_organization ensure_admin_role insert_seed_grant
    insert_seed_grants ensure_seed close_bootstrap rotate open_invitation refresh_bootstrap
    on_application_bootstrap get_status
bootstrap = tt

abbrev tables : Result (Option ℕ × Db) → Db
tables (ok (live, db)) = db
tables (err e) = no_rows

-- After the first start.
abbrev started : Db
started = tables (on_application_bootstrap (λ t. t) (λ k. k) 10 5 77 no_rows)

first_start :
    (length started.directory.grants ≡ 30)
    × (length started.directory.invitations ≡ 1)
    × (effective_admin_count 100 started ≡ 0)
    × (get_status (some 77) started ≡ record { is_open = true; invite_token = some 77 })
unfolding bootstrap
first_start = (refl, refl, refl, refl)

abbrev used : Invitation
used = record (system_invitation 9 20 5 77 1000 60) { use_count = 1 }

abbrev start : List Invitation → Db
start invitations = record no_rows {
  directory = record no_directory {
    roles =
        record {
          id = 20;
          organization_id = 9;
          name = "Admin";
          kind = standalone;
          division_id = none;
          team_id = none;
          lifecycle_state = LifecycleState.active;
          retired_at = none;
          version = 0;
        }
        ∷ [];
    invitations = invitations;
  };
}

abbrev restarted : List Invitation → Db
restarted l = tables (refresh_bootstrap (λ t. t) (λ k. k) 10 9 6 88 (start l))

abbrev live_token : Option ℕ
live_token = some 88

recovery_is_exhausted_example :
    (new : Invitation) × (live_token ≡ some 88)
    × (find (λ i. i.id == 60) (restarted (used ∷ [])).directory.invitations ≡ some new)
    × (new.token_hash ≡ 88)
    × ((later : ℕ) → derive_invitation_status later new ≡ exhausted)
unfolding bootstrap
recovery_is_exhausted_example =
    recovery_is_exhausted (λ t. t) (λ k. k) 10 9 6 88 (start (used ∷ [])) used (tt, tt) refl
      (omega arith) refl refl
