-- ===== src/Sessions/Tests.antt =====
-- A user with one session that ends at 1000, and was last seen at 10.
use patrice.Prelude.{◌≡◌, refl, Bool, none, some, [], ◌∷◌, arith}
use patrice.Db.Directory.{LifecycleState, password, Session}
use patrice.Db.Rows.{AppUser, Db}
use patrice.Db.Tx.{ok}
use patrice.Db.Tables.{no_rows, no_directory}
use patrice.Users.{revoke_sessions}
use patrice.Sessions.{
  find_session, new_session, create, resolve, slide_on, touch, revoke_by_token, revoke_all_for_user,
  ResolvedSession,
}
use patrice.Sessions.Ended.{
  signs_out, resolves, session_step, session_steps, revoked_for_good, ends_absolutely, IsOther,
}

abbrev user : AppUser
user = record {
  id = 1;
  organization_id = 9;
  email = none;
  display_name = "Ada";
  created_via_invitation_id = none;
  lifecycle_state = LifecycleState.active;
  deactivated_at = none;
  retired_at = none;
  version = 0;
}

abbrev session : Session
session = record {
  id = 5;
  user_id = 1;
  token_hash = 77;
  auth_method = password;
  last_seen_at = 10;
  absolute_expires_at = 1000;
  idle_expires_at = 500;
  revoked_at = none;
}

abbrev start : Db
start = record no_rows {
  users = user ∷ [];
  directory = record no_directory {
    organizations =
        record {
          id = 9;
          settings = record {
            self_review_allowed = Bool.false;
            grace_period_hours = none;
            session_absolute_days = none;
            session_idle_days = some 0;
          };
          config_version = 0;
        }
        ∷ [];
    sessions = session ∷ [];
  };
}

abbrev answer : ResolvedSession
answer = record { session_id = 5; user_id = 1; organization_id = 9 }

sessions : Unit {0}
unfolding find_session new_session create resolve slide_on touch revoke_by_token revoke_sessions
    revoke_all_for_user session_step session_steps
sessions = tt

resolve_runs : resolve (λ t. t) 100 77 start ≡ ok (some answer, touch 100 0 5 start)
unfolding sessions
resolve_runs = refl

revoked_for_good_example :
    resolve
      (λ t. t)
      300
      77
      (session_steps
        (λ t. t)
        (resolves 250 77 ∷ [])
        (session_step (λ t. t) (signs_out 200 77) start))
    ≡ ok (
      none,
      session_steps
          (λ t. t)
          (resolves 250 77 ∷ [])
          (session_step (λ t. t) (signs_out 200 77) start),
    )
unfolding IsOther
revoked_for_good_example =
    revoked_for_good (λ t. t) 77 200 300 (resolves 250 77 ∷ []) start (tt, tt)

ends_absolutely_example :
    resolve (λ t. t) 1000 77 (session_steps (λ t. t) (resolves 400 77 ∷ []) start)
    ≡ ok (none, session_steps (λ t. t) (resolves 400 77 ∷ []) start)
unfolding IsOther
ends_absolutely_example =
    ends_absolutely (λ t. t) 77 1000 (resolves 400 77 ∷ []) start ((λ e. omega arith), tt) (tt, tt)
