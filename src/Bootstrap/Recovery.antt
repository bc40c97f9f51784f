-- ===== src/Bootstrap/Recovery.antt =====
-- The system invitation as the way back in.
use mathlib.Core.Option
use patrice.Prelude.{
  ℕ, ◌+◌, ◌≤◌, ◌<◌, ◌≡◌, ◌≢◌, refl, ◌∙◌, ap, Bool, false, Option, none, some, List, [], ◌∷◌, ◌++◌,
  arith, is_some, any, find, update_where, ◌==◌, find-update_where, Distinct, All-find, Bool-cases,
  inl, inr, Option-cases, find_passes,
}
use patrice.Db.Directory.{Invitation}
use patrice.Db.Rows.{Db}
use patrice.Db.Tx.{ok}
use patrice.Access.Admins.{effective_admin_exists, effective_admin_count}
use patrice.Invitations.{derive_invitation_status, exhausted, pending}
use patrice.Invitations.Redeem.{insert_invitation}
use patrice.Bootstrap.{
  is_system, close_bootstrap, rotated, rotate, open_invitation, refresh_bootstrap, find_admin_role,
  bootstrap_expiry_ms, system_invitation,
}

find_by_id :
    (p : Invitation → Bool) (rows : List Invitation) (r : Invitation)
    → Distinct (λ i. i.id) rows
    → find p rows ≡ some r
    → find (λ i. i.id == r.id) rows ≡ some r
find_by_id p [] r d e = absurd (cc)
find_by_id p (x ∷ rows) r d e = elim (Bool-cases (p x)) [
  | inl here ↦ ground arith
  | inr later ↦
      let found : find p rows ≡ some r = ground arith in
      let apart : r.id ≢ x.id = All-find (λ i. i.id ≢ x.id) p rows d.0 found in
      ground (arith, find_by_id p rows r d.1 found)
]

closed_rows :
    (now organization : ℕ) (rows : List Invitation)
    → any
        (is_system organization)
        (update_where (is_system organization) (λ i. record i { revoked_at = some now }) rows)
      ≡ false
closed_rows now organization [] = refl
closed_rows now organization (i ∷ rows) = ground (arith, closed_rows now organization rows)

module _ (token_hash key_hash : ℕ → ℕ) (now organization key token : ℕ) (db : Db) where
  -- With an effective administrator, no system invitation stays open.
  pub bootstrap_closes :
      {live : Option ℕ} {db' : Db}
      → 0 < effective_admin_count organization db
      → refresh_bootstrap token_hash key_hash now organization key token db ≡ ok (live, db')
      → (live ≡ none) × (any (is_system organization) db'.directory.invitations ≡ false)
  unfolding refresh_bootstrap effective_admin_exists close_bootstrap
  bootstrap_closes {live} {db'} h k =
      let written : db' ≡ close_bootstrap now organization db = ground arith in
      (ground arith, rw written (closed_rows now organization db.directory.invitations))

  -- If the system invitation that is not revoked was used up, which redeeming it does, a restart with no
  -- effective administrator gives a new token to that same invitation, whose status is exhausted at every
  -- later time: the way back in is shut.
  pub recovery_is_exhausted :
      (old : Invitation) {live : Option ℕ} {db' : Db}
      → Distinct (λ i. i.id) db.directory.invitations
      → find (is_system organization) db.directory.invitations ≡ some old
      → old.max_uses ≤ old.use_count
      → effective_admin_count organization db ≡ 0
      → refresh_bootstrap token_hash key_hash now organization key token db ≡ ok (live, db')
      → (new : Invitation) × (live ≡ some token)
        × (find (λ i. i.id == old.id) db'.directory.invitations ≡ some new)
        × (new.token_hash ≡ token_hash token)
        × ((later : ℕ) → derive_invitation_status later new ≡ exhausted)
  unfolding refresh_bootstrap effective_admin_exists open_invitation rotate derive_invitation_status
  recovery_is_exhausted old {live} {db'} distinct found used no_admin h =
      let passes = find_passes (is_system organization) db.directory.invitations found in
      let unrevoked : is_some old.revoked_at ≡ false = ground arith in
      let change = rotated (key_hash key) (token_hash token) (now + bootstrap_expiry_ms) in
      let written : db' ≡ rotate token_hash key_hash now organization key token old.id db =
        elim (Option-cases (find_admin_role organization db)) [
          | inl missing ↦ absurd (ground arith)
          | inr (role, has) ↦ ground arith
        ] in
      let by_id = find_by_id (is_system organization) db.directory.invitations old distinct found in
      (
        change old,
        ground arith,
        rw written (
            find-update_where (λ i. i.id) old.id change db.directory.invitations (λ i. refl)
            ∙ ap (Option.map change) by_id),
        refl,
        λ later. ground arith,
      )

  -- With no effective administrator and no system invitation left, a restart opens one, which is pending
  -- until it expires.
  pub recovery_opens :
      {live : Option ℕ} {db' : Db}
      → find (is_system organization) db.directory.invitations ≡ none
      → effective_admin_count organization db ≡ 0
      → refresh_bootstrap token_hash key_hash now organization key token db ≡ ok (live, db')
      → (new : Invitation) × (live ≡ some token)
        × (db'.directory.invitations ≡ db.directory.invitations ++ new ∷ [])
        × (new.token_hash ≡ token_hash token)
        × ((later : ℕ)
            → later < now + bootstrap_expiry_ms
            → derive_invitation_status later new ≡ pending)
  unfolding refresh_bootstrap effective_admin_exists open_invitation insert_invitation
      derive_invitation_status
  recovery_opens {live} {db'} missing no_admin h =
      elim (Option-cases (find_admin_role organization db)) [
        | inl none_there ↦ absurd (ground arith)
        | inr (role, has) ↦ (
          system_invitation organization role.id (key_hash key) (token_hash token)
              (now + bootstrap_expiry_ms) db.next_id,
          ground arith,
          ground arith,
          refl,
          λ later early. ground arith,
        )
      ]
