-- ===== src/Sessions.antt =====
-- api/src/auth/session.service.ts: sessions with an absolute and a sliding expiry. `hash` is the hash of
-- a token, of node:crypto, and a token is what the caller drew at random; the token for forged requests
-- is not kept in a table and is left out.
use patrice.Prelude.{
  ℕ, ◌+◌, ◌*◌, leb, Bool, true, false, not, ◌&&◌, ◌||◌, Option, none, some, List, [], ◌∷◌, ◌++◌,
  is_some, find, update_where, get_or, ◌==◌, if◌then◌else◌,
}
use patrice.Db.Directory.{Settings, Organization, AuthProvider, Session}
use patrice.Db.Rows.{AppUser, Db, fault}
use patrice.Db.Tx.{Result, ok, err, Tx, pure, ◌>>=◌, ◌>>◌, modify}
use patrice.Db.Tables.{is_active}
use patrice.Access.Op.{on_directory}
use patrice.Users.{revoke_session, revoke_sessions}
pub mod Expiry
pub mod Ended
mod Tests

abbrev pub day_ms : ℕ
day_ms = 24 * 60 * 60 * 1000

-- `findFirstOrThrow`: the one organization.
abbrev pub first : List Organization → Option Settings
first [] = none
first (o ∷ rest) = some o.settings

abbrev pub absolute_days : Settings → ℕ
absolute_days s = get_or 30 s.session_absolute_days

abbrev pub idle_days : Settings → ℕ
idle_days s = get_or 7 s.session_idle_days

unfoldable pub new_session : (now id user token_hash : ℕ) → AuthProvider → Settings → Session
new_session now id user token_hash method s = record {
  id = id;
  user_id = user;
  token_hash = token_hash;
  auth_method = method;
  last_seen_at = now;
  absolute_expires_at = now + absolute_days s * day_ms;
  idle_expires_at = now + idle_days s * day_ms;
  revoked_at = none;
}

-- `ResolvedSession`
pub record ResolvedSession : Type 0 where
  pub session_id : ℕ
  pub user_id : ℕ
  pub organization_id : ℕ

-- The sliding of the idle window.
abbrev pub slide : (now days : ℕ) → Session → Session
slide now days s = record s { last_seen_at = now; idle_expires_at = now + days * day_ms }

unfoldable pub touch : (now days id : ℕ) → Db → Db
touch now days id =
    on_directory
      (λ d. record d { sessions = update_where (λ s. s.id == id) (slide now days) d.sessions })

-- A session that is not revoked and before both of its ends, of an active user.
abbrev pub is_live : (now : ℕ) → Session → AppUser → Bool
is_live now s u =
    not (is_some s.revoked_at)
    && not (leb s.absolute_expires_at now || leb s.idle_expires_at now)
    && is_active u.lifecycle_state

module _ (hash : ℕ → ℕ) where
  unfoldable pub find_session : (token : ℕ) → Db → Option Session
  find_session token db = find (λ s. s.token_hash == hash token) db.directory.sessions

  unfoldable pub create : (now user token : ℕ) → AuthProvider → Tx (Unit {0})
  create now user token method db = elim (first db.directory.organizations) [
    | none ↦ err fault
    | some settings ↦ ok (
      tt,
      record db {
        directory = record db.directory {
          sessions =
              db.directory.sessions
              ++ new_session now db.next_id user (hash token) method settings ∷ [];
        };
        next_id = db.next_id + 1;
      },
    )
  ]

  -- The answer for a live session, with its window moved.
  unfoldable pub slide_on : (now : ℕ) → Session → AppUser → Tx (Option ResolvedSession)
  slide_on now s u db = elim (first db.directory.organizations) [
    | none ↦ err fault
    | some settings ↦ ok (
      some (record { session_id = s.id; user_id = s.user_id; organization_id = u.organization_id }),
      touch now (idle_days settings) s.id db,
    )
  ]

  unfoldable pub resolve : (now token : ℕ) → Tx (Option ResolvedSession)
  resolve now token db = elim (find_session token db) [
    | none ↦ ok (none, db)
    | some s ↦ elim (find (λ u. u.id == s.user_id) db.users) [
      | none ↦ ok (none, db)
      | some u ↦ elim (is_live now s u) [ false ↦ ok (none, db) | true ↦ slide_on now s u db ]
    ]
  ]

  unfoldable pub revoke_by_token : (now token : ℕ) → Tx (Unit {0})
  revoke_by_token now token = modify (
      on_directory (λ d. record d {
        sessions =
            update_where (λ s. s.token_hash == hash token && not (is_some s.revoked_at))
              (revoke_session now) d.sessions;
      }))

-- `revokeAllForUser`
unfoldable pub revoke_all_for_user : (now user : ℕ) → Tx (Unit {0})
revoke_all_for_user now user = modify (revoke_sessions now user)
