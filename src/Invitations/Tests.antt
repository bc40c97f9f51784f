-- ===== src/Invitations/Tests.antt =====
-- An invitation with one use left, redeemed twice at once.
use patrice.Prelude.{ℕ, ◌≡◌, refl, Bool, true, false, none, some, [], ◌∷◌, arith}
use patrice.Db.Directory.{LifecycleState, standalone, Invitation}
use patrice.Db.Rows.{Db, Error, conflict, invite_race_lost, gone, invite_unavailable}
use patrice.Db.Tx.{Result, ok, err}
use patrice.Db.Tables.{no_rows, no_directory}
use patrice.Db.Emit.{log_activity}
use patrice.Access.Op.{find_organization, bump_config_version, log_directory, transact}
use patrice.Users.{find_link, add_link, insert_link}
use patrice.Invitations.{
  derive_invitation_status, use_once, consume, add_user, add_identity, add_use, insert_identity,
  grant_all, write_accept_activity, Redemption, by_discord,
}
use patrice.Invitations.Redeem.{find_by_token, load_by_token, create_user, redeem_body, redeem}
use patrice.Invitations.Uses.{IsCounted, uses_of}
use patrice.Invitations.Safety.{first_come}
use patrice.Invitations.History.{
  redeems, invitation_step, invitation_steps, invitation_steps-IsCounted,
}

abbrev invitation : Invitation
invitation = record {
  id = 60;
  organization_id = 9;
  token_hash = 7;
  email = none;
  intended_role_ids = 20 ∷ [];
  passcode_hash = none;
  max_uses = 1;
  use_count = 0;
  created_by = some 1;
  expires_at = 1000;
  revoked_at = none;
}

abbrev start : Db
start = record no_rows {
  directory = record no_directory {
    organizations =
        record {
          id = 9;
          settings = record {
            self_review_allowed = false;
            grace_period_hours = none;
            session_absolute_days = none;
            session_idle_days = none;
          };
          config_version = 0;
        }
        ∷ [];
    roles =
        record {
          id = 20;
          organization_id = 9;
          name = "Member";
          kind = standalone;
          division_id = none;
          team_id = none;
          lifecycle_state = LifecycleState.active;
          retired_at = none;
          version = 0;
        }
        ∷ [];
    invitations = invitation ∷ [];
  };
}

abbrev by : ℕ → Redemption
by n = record {
  token = 7;
  passcode = none;
  email = none;
  display_name = "Ada";
  identity = by_discord n;
}

abbrev redeem_at : (seen : Db) (at : ℕ) → ℕ → Db → Result ((ℕ × Bool) × Db)
redeem_at seen at n db =
    redeem (λ t. t) (λ s. 0) (λ s. s) (λ s t. false) (λ d a r. true) seen at at (by n) db

abbrev tables : Result ((ℕ × Bool) × Db) → Db
tables (ok (a, db)) = db
tables (err e) = start

abbrev redeemed : Db
redeemed = tables (redeem_at start 100 1 start)

invitations : Unit {0}
unfolding derive_invitation_status use_once consume add_user add_identity add_use insert_identity
    grant_all write_accept_activity find_by_token load_by_token create_user redeem_body redeem
    find_organization bump_config_version log_directory log_activity find_link add_link insert_link
    uses_of transact invitation_step invitation_steps
invitations = tt

redeem_runs :
    (uses_of 60 redeemed.directory.invitation_uses ≡ 1)
    × (redeem_at start 100 2 redeemed ≡ err (conflict invite_race_lost))
    × (redeem_at redeemed 100 2 redeemed ≡ err (gone invite_unavailable))
unfolding invitations
redeem_runs = (refl, refl, refl)

start-IsCounted : IsCounted start
unfolding invitations
start-IsCounted = record {
  distinct = (tt, tt);
  old = (omega arith, tt);
  uses_old = tt;
  counted = ((refl, omega arith), tt);
}

invitation_steps-IsCounted_example : IsCounted (
    invitation_steps
      (λ t. t)
      (λ s. 0)
      (λ s. s)
      (λ s t. false)
      (λ d a r. true)
      (redeems start 100 100 (by 1) ∷ redeems start 100 101 (by 2) ∷ [])
      start)
invitation_steps-IsCounted_example =
    invitation_steps-IsCounted (λ t. t) (λ s. 0) (λ s. s) (λ s t. false) (λ d a r. true)
      (redeems start 100 100 (by 1) ∷ redeems start 100 101 (by 2) ∷ []) start start-IsCounted

first_come_example : (e : Error) × (redeem_at start 100 2 redeemed ≡ err e)
unfolding invitations
first_come_example =
    first_come (λ t. t) (λ s. 0) (λ s. s) (λ s t. false) (λ d a r. true) start 100 100 (by 1) start
      100 100 (by 2) invitation start start-IsCounted ((λ e. refl), tt) refl refl refl
