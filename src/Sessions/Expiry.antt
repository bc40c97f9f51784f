-- ===== src/Sessions/Expiry.antt =====
-- When a session resolves, and for how long.
use patrice.Prelude.{
  ℕ, ◌<◌, ◌≡◌, true, none, some, arith, find, ◌==◌, inl, inr, Option-cases, find_passes,
}
use patrice.Db.Directory.{Session, Settings}
use patrice.Db.Rows.{AppUser, Db}
use patrice.Db.Tx.{ok}
use patrice.Db.Tables.{is_active}
use patrice.Sessions.{
  ResolvedSession, resolve, find_session, is_live, touch, slide_on, idle_days, first,
}

module _ (hash : ℕ → ℕ) where
  resolve_steps :
      (now token : ℕ) (db : Db) {r : ResolvedSession} {db' : Db}
      → resolve hash now token db ≡ ok (some r, db')
      → (s : Session) × (u : AppUser) × (settings : Settings) × (find_session hash token db
          ≡ some s)
        × (find (λ x. x.id == s.user_id) db.users ≡ some u)
        × (is_live now s u ≡ true)
        × (first db.directory.organizations ≡ some settings)
        × (r.user_id ≡ s.user_id)
        × (db' ≡ touch now (idle_days settings) s.id db)
  unfolding resolve slide_on
  resolve_steps now token db {r} {db'} h = elim (Option-cases (find_session hash token db)) [
    | inl missing ↦ absurd (ground arith)
    | inr (s, found) ↦ elim (Option-cases (find (λ x. x.id == s.user_id) db.users)) [
      | inl missing ↦ absurd (ground arith)
      | inr (u, who) ↦ elim (Option-cases (first db.directory.organizations)) [
        | inl missing ↦ absurd (ground arith)
        | inr (settings, org) ↦
            (s, u, settings, found, who, ground arith, org, ground arith, ground arith)
      ]
    ]
  ]

  -- A session resolves only if its token is that of a row that is not revoked, before its absolute and
  -- its idle end, of an active user; it then gives that user.
  pub resolve_live :
      (now token : ℕ) (db : Db) {r : ResolvedSession} {db' : Db}
      → resolve hash now token db ≡ ok (some r, db')
      → (s : Session) × (u : AppUser) × (find_session hash token db ≡ some s)
        × (s.revoked_at ≡ none)
        × (now < s.absolute_expires_at)
        × (now < s.idle_expires_at)
        × (u.id ≡ r.user_id)
        × (is_active u.lifecycle_state ≡ true)
  resolve_live now token db {r} {db'} h =
      let (s, u, settings, found, who, live, org, user, db_same) = resolve_steps now token db h in
      (
        s,
        u,
        found,
        ground arith,
        ground arith,
        ground arith,
        ground (arith, find_passes (λ x. x.id == s.user_id) db.users who),
        ground arith,
      )
