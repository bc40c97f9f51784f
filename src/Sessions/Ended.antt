-- ===== src/Sessions/Ended.antt =====
-- What a session can no longer do stays so, whatever is done with sessions later.
use patrice.Prelude.{
  ℕ, ◌≤◌, ◌≡◌, ◌≢◌, refl, sym, ◌∙◌, ◌⊎◌, inl, inr, true, false, not, ◌&&◌, none, List, [], ◌∷◌,
  ◌++◌, arith, is_some, find, All, All-append, All-update_where, All-find, All-map, update_where,
  Option-cases, Bool-cases, ◌==◌, find_passes, ==→eq,
}
use patrice.Db.Directory.{Session, AuthProvider}
use patrice.Db.Rows.{AppUser, Db}
use patrice.Db.Tx.{Result, ok, err}
use patrice.Users.{revoke_session, revoke_sessions}
use patrice.Sessions.{
  create, new_session, resolve, find_session, is_live, touch, slide, slide_on, idle_days, first,
  revoke_by_token, revoke_all_for_user,
}

-- The calls of SessionService, with their times.
pub data SessionOp : Type 0 where
  signs_in : (now user token : ℕ) → AuthProvider → SessionOp
  resolves : (now token : ℕ) → SessionOp
  signs_out : (now token : ℕ) → SessionOp
  signs_out_everywhere : (now user : ℕ) → SessionOp

-- The tables after a call, whether it returned or threw.
abbrev pub tables_after : {A : Type 0} → Db → Result (A × Db) → Db
tables_after db (ok (a, db')) = db'
tables_after db (err e) = db

module _ (hash : ℕ → ℕ) where
  unfoldable pub session_step : SessionOp → Db → Db
  session_step (signs_in now user token method) db =
      tables_after db (create hash now user token method db)
  session_step (resolves now token) db = tables_after db (resolve hash now token db)
  session_step (signs_out now token) db = tables_after db (revoke_by_token hash now token db)
  session_step (signs_out_everywhere now user) db =
      tables_after db (revoke_all_for_user now user db)

  unfoldable pub session_steps : List SessionOp → Db → Db
  session_steps [] db = db
  session_steps (op ∷ rest) db = session_steps rest (session_step op db)

  -- No later sign-in draws a token with the same hash.
  unfoldable pub IsOther : (h : ℕ) → SessionOp → Type 0
  IsOther h (signs_in now user token method) = hash token ≢ h
  IsOther h _ = Unit

  create_moves :
      (now user token : ℕ) (method : AuthProvider) (db : Db)
      → (tables_after db (create hash now user token method db) ≡ db)
        ⊎ ((row : Session) × (row.token_hash ≡ hash token)
            × ((tables_after db (create hash now user token method db)).directory.sessions
                ≡ db.directory.sessions ++ row ∷ []))
  unfolding create new_session
  create_moves now user token method db = elim (Option-cases (first db.directory.organizations)) [
    | inl missing ↦ inl (cc)
    | inr (settings, org) ↦
        inr (new_session now db.next_id user (hash token) method settings, refl, ground arith)
  ]

  resolve_moves :
      (now token : ℕ) (db : Db)
      → (tables_after db (resolve hash now token db) ≡ db)
        ⊎ ((days : ℕ) × (id : ℕ) × (tables_after db (resolve hash now token db)
              ≡ touch now days id db))
  unfolding resolve slide_on
  resolve_moves now token db = elim (Option-cases (find_session hash token db)) [
    | inl missing ↦ inl (cc)
    | inr (s, found) ↦ elim (Option-cases (find (λ x. x.id == s.user_id) db.users)) [
      | inl missing ↦ inl (cc)
      | inr (u, who) ↦ elim (Bool-cases (is_live now s u)) [
        | inr ended ↦ inl (cc)
        | inl live ↦ elim (Option-cases (first db.directory.organizations)) [
          | inl missing ↦ inl (cc)
          | inr (settings, org) ↦ inr (idle_days settings, s.id, cc)
        ]
      ]
    ]
  ]

  module _ (h : ℕ) (P : Session → Type 0)
      (slides : (now days : ℕ) (s : Session) → P s → P (slide now days s))
      (revokes : (now : ℕ) (s : Session) → P s → P (revoke_session now s)) where
    -- What holds of every row of the token.
    unfoldable pub Holds : Db → Type 0
    Holds db = All (λ s. s.token_hash ≡ h → P s) db.directory.sessions

    step-Holds : (op : SessionOp) (db : Db) → IsOther h op → Holds db → Holds (session_step op db)
    unfolding session_step Holds IsOther touch revoke_by_token revoke_all_for_user revoke_sessions
    step-Holds (signs_in now user token method) db other k =
        elim (create_moves now user token method db) [
          | inl same ↦ rw same k
          | inr (row, of_token, added) ↦ rw added (
              All-append _ db.directory.sessions (row ∷ []) k
                ((λ same. absurd (other (sym of_token ∙ same))), tt))
        ]
    step-Holds (resolves now token) db other k = elim (resolve_moves now token db) [
      | inl same ↦ rw same k
      | inr (days, id, moved) ↦ rw moved (
          All-update_where (λ s. s.token_hash ≡ h → P s) _ (slide now days) db.directory.sessions
            (λ s q e. slides now days s (q e)) k)
    ]
    step-Holds (signs_out now token) db other k =
        All-update_where (λ s. s.token_hash ≡ h → P s) _ (revoke_session now) db.directory.sessions
          (λ s q e. revokes now s (q e)) k
    step-Holds (signs_out_everywhere now user) db other k =
        All-update_where (λ s. s.token_hash ≡ h → P s) _ (revoke_session now) db.directory.sessions
          (λ s q e. revokes now s (q e)) k

    pub steps-Holds :
        (ops : List SessionOp) (db : Db)
        → All (IsOther h) ops
        → Holds db
        → Holds (session_steps ops db)
    unfolding session_steps
    steps-Holds [] db other k = k
    steps-Holds (op ∷ rest) db other k =
        steps-Holds rest (session_step op db) other.1 (step-Holds op db other.0 k)

  -- A token whose rows cannot resolve gives nothing, and nothing is written.
  resolve-none :
      (now token : ℕ) (db : Db)
      → All
          (λ s. s.token_hash ≡ hash token → (u : AppUser) → is_live now s u ≡ false)
          db.directory.sessions
      → resolve hash now token db ≡ ok (none, db)
  unfolding resolve find_session
  resolve-none now token db k = elim (Option-cases (find_session hash token db)) [
    | inl missing ↦ cc
    | inr (s, found) ↦ elim (Option-cases (find (λ x. x.id == s.user_id) db.users)) [
      | inl missing ↦ cc
      | inr (u, who) ↦
          let of_token : s.token_hash ≡ hash token =
            ==→eq s.token_hash (hash token)
              (find_passes (λ x. x.token_hash == hash token) db.directory.sessions found) in
          let ended : is_live now s u ≡ false =
            All-find (λ x. x.token_hash ≡ hash token → (v : AppUser) → is_live now x v ≡ false) _
              db.directory.sessions k found of_token u in
          cc
    ]
  ]

  marked :
      (at k : ℕ) (rows : List Session)
      → All
          (λ s. s.token_hash ≡ k → is_some s.revoked_at ≡ true)
          (update_where
            (λ s. s.token_hash == k && not (is_some s.revoked_at))
            (revoke_session at)
            rows)
  marked at k [] = tt
  marked at k (s ∷ rows) = ((λ e. ground arith), marked at k rows)

  signed_out :
      (token at : ℕ) (db : Db)
      → All
          (λ s. s.token_hash ≡ hash token → is_some s.revoked_at ≡ true)
          (session_step (signs_out at token) db).directory.sessions
  unfolding session_step revoke_by_token
  signed_out token at db = marked at (hash token) db.directory.sessions

  -- After a logout, a token gives no session, in any sequence of sign-ins, resolutions and logouts, as
  -- long as no later sign-in draws a token of the same hash.
  pub revoked_for_good :
      (token out_at now : ℕ) (ops : List SessionOp) (db : Db)
      → All (IsOther (hash token)) ops
      → resolve hash now token (session_steps ops (session_step (signs_out out_at token) db))
        ≡ ok (none, session_steps ops (session_step (signs_out out_at token) db))
  unfolding Holds
  revoked_for_good token out_at now ops db other = resolve-none now token _ (
      All-map _ _ (λ s gone e u. ground (arith, gone e)) _
        (steps-Holds (hash token) (λ s. is_some s.revoked_at ≡ true) (λ n d s e. e) (λ n s e. refl)
          ops _ other (signed_out token out_at db)))

  -- From the absolute end of a session on, its token gives nothing, however often it resolved before,
  -- as long as no other sign-in draws a token of the same hash.
  pub ends_absolutely :
      (token now : ℕ) (ops : List SessionOp) (db : Db)
      → All (λ s. s.token_hash ≡ hash token → s.absolute_expires_at ≤ now) db.directory.sessions
      → All (IsOther (hash token)) ops
      → resolve hash now token (session_steps ops db) ≡ ok (none, session_steps ops db)
  unfolding Holds
  ends_absolutely token now ops db ended other = resolve-none now token _ (
      All-map _ _ (λ s end e u. ground (arith, end e)) _
        (steps-Holds (hash token) (λ s. s.absolute_expires_at ≤ now) (λ n d s e. e) (λ n s e. e) ops
          db other ended))
