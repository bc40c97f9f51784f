-- ===== src/Invitations/Safety.antt =====
-- Redeeming: no more often than an invitation allows, and only while it is open.
use patrice.Prelude.{
  if◌then◌else◌, ℕ, ◌+◌, ◌≡◌, refl, Bool, true, false, none, String, List, [], ◌∷◌, arith, find,
  update_where, ◌==◌, Bool-cases, inl, inr, All,
}
use patrice.Db.Directory.{Invitation}
use patrice.Db.Rows.{Db, Error}
use patrice.Db.Tx.{ok, err, Result-cases}
use patrice.Invitations.{Redemption, is_open, count_use, is_pending, derive_invitation_status}
use patrice.Invitations.Redeem.{redeem, redeem_body, load_by_token}
use patrice.Invitations.Steps.{Used, redeem_body-Used}
use patrice.Invitations.Uses.{IsCounted, All-open}

module _ (token_hash : ℕ → ℕ) (passcode_hash : String → ℕ) (lower : String → String)
    (same_email : String → String → Bool) (decides : Db → (actor role : ℕ) → Bool) where
  redeem_runs :
      (seen : Db) (seen_at now : ℕ) (args : Redemption) (inv : Invitation) (db : Db) {user : ℕ}
      {is_bootstrap : Bool} {db' : Db}
      → load_by_token token_hash passcode_hash lower same_email decides seen args.token ≡ ok inv
      → redeem token_hash passcode_hash lower same_email decides seen seen_at now args db
        ≡ ok ((user, is_bootstrap), db')
      → (is_pending (derive_invitation_status seen_at inv) ≡ true)
        × (redeem_body token_hash passcode_hash lower same_email decides now inv args db
            ≡ ok (user, db'))
  unfolding redeem
  redeem_runs seen seen_at now args inv db loaded h = ground arith

  redeem_loads :
      (seen : Db) (seen_at now : ℕ) (args : Redemption) (db : Db) {out : (ℕ × Bool) × Db}
      → redeem token_hash passcode_hash lower same_email decides seen seen_at now args db ≡ ok out
      → (inv : Invitation) × (load_by_token token_hash passcode_hash lower same_email decides seen
            args.token
          ≡ ok inv)
  unfolding redeem
  redeem_loads seen seen_at now args db h =
      elim (Result-cases
        (load_by_token token_hash passcode_hash lower same_email decides seen args.token)) [
          | inl (inv, loaded) ↦ (inv, loaded)
          | inr (e, failed) ↦ absurd (ground arith)
        ]

  -- A redemption that returns took one use of the invitation of its token, which it had read as pending.
  pub redeem-Used :
      (seen : Db) (seen_at now : ℕ) (args : Redemption) (db : Db) {user : ℕ} {is_bootstrap : Bool}
      {db' : Db}
      → redeem token_hash passcode_hash lower same_email decides seen seen_at now args db
        ≡ ok ((user, is_bootstrap), db')
      → (inv : Invitation) × (load_by_token token_hash passcode_hash lower same_email decides seen
            args.token
          ≡ ok inv)
        × (is_pending (derive_invitation_status seen_at inv) ≡ true)
        × Used now inv.id db db'
  redeem-Used seen seen_at now args db h =
      let (inv, loaded) = redeem_loads seen seen_at now args db h in
      let (pending, body) = redeem_runs seen seen_at now args inv db loaded h in
      (
        inv,
        loaded,
        pending,
        redeem_body-Used token_hash passcode_hash lower same_email decides now inv args db body,
      )

  -- An invitation that is used up, revoked or over when the transaction runs is not redeemed, whatever
  -- the caller had read of it.
  pub redeem_refused :
      (seen : Db) (seen_at now : ℕ) (args : Redemption) (inv : Invitation) (db : Db)
      → load_by_token token_hash passcode_hash lower same_email decides seen args.token ≡ ok inv
      → find (is_open now inv.id) db.directory.invitations ≡ none
      → (e : Error) × (redeem token_hash passcode_hash lower same_email decides seen seen_at now
            args db
          ≡ err e)
  redeem_refused seen seen_at now args inv db loaded closed =
      elim (Result-cases
        (redeem token_hash passcode_hash lower same_email decides seen seen_at now args db)) [
          | inr (e, refused) ↦ (e, refused)
          | inl (((user, b), db'), done) ↦
              let (pending, body) = redeem_runs seen seen_at now args inv db loaded done in
              let used =
                redeem_body-Used token_hash passcode_hash lower same_email decides now inv args db
                  body in
              let opened = used.was_open in absurd (cc)
        ]

none_open :
    (now later id : ℕ) (rows : List Invitation)
    → All (λ i. i.id ≡ id → is_open now id i ≡ true) rows
    → All (λ i. i.id ≡ id → i.use_count + 1 ≡ i.max_uses) rows
    → find (is_open later id) (update_where (is_open now id) count_use rows) ≡ none
none_open now later id [] k m = refl
none_open now later id (i ∷ rows) k m = elim (Bool-cases (i.id == id)) [
  | inl here ↦
      let of_id : i.id ≡ id = ground arith in
      let opened : is_open now id i ≡ true = k.0 of_id in
      let last : i.use_count + 1 ≡ i.max_uses = m.0 of_id in
      let shut : is_open later id (if is_open now id i then count_use i else i) ≡ false =
        rw opened (ground arith) in
      rw shut (none_open now later id rows k.1 m.1)
  | inr other ↦
      let shut : is_open later id (if is_open now id i then count_use i else i) ≡ false =
        ground arith in
      rw shut (none_open now later id rows k.1 m.1)
]

last_use_shuts :
    (now later id : ℕ) (a b : Db)
    → IsCounted a
    → All (λ i. i.id ≡ id → i.use_count + 1 ≡ i.max_uses) a.directory.invitations
    → Used now id a b
    → find (is_open later id) b.directory.invitations ≡ none
last_use_shuts now later id a b c m s = rw s.counted_up (
    none_open now later id a.directory.invitations
      (All-open now id a.directory.invitations c.distinct s.was_open) m)

module _ (token_hash : ℕ → ℕ) (passcode_hash : String → ℕ) (lower : String → String)
    (same_email : String → String → Bool) (decides : Db → (actor role : ℕ) → Bool) where
  -- Of two redemptions of an invitation with one use left, the second is refused: first come, first
  -- served, even if both had read the invitation before either ran.
  pub first_come :
      (seen : Db) (seen_at now : ℕ) (args : Redemption) (seen2 : Db) (seen_at2 later : ℕ)
      (args2 : Redemption) (inv : Invitation) (db : Db) {user : ℕ} {is_bootstrap : Bool} {db' : Db}
      → IsCounted db
      → All (λ i. i.id ≡ inv.id → i.use_count + 1 ≡ i.max_uses) db.directory.invitations
      → load_by_token token_hash passcode_hash lower same_email decides seen args.token ≡ ok inv
      → load_by_token token_hash passcode_hash lower same_email decides seen2 args2.token ≡ ok inv
      → redeem token_hash passcode_hash lower same_email decides seen seen_at now args db
        ≡ ok ((user, is_bootstrap), db')
      → (e : Error) × (redeem token_hash passcode_hash lower same_email decides seen2 seen_at2 later
            args2 db'
          ≡ err e)
  first_come seen seen_at now args seen2 seen_at2 later args2 inv db {user} {is_bootstrap} {db'} c m
        loaded loaded2 h =
      let (pending, body) =
        redeem_runs token_hash passcode_hash lower same_email decides seen seen_at now args inv db
          loaded h in
      redeem_refused token_hash passcode_hash lower same_email decides seen2 seen_at2 later args2
        inv db' loaded2
        (last_use_shuts now later inv.id db db' c m
          (redeem_body-Used token_hash passcode_hash lower same_email decides now inv args db body))
