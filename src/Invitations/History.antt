-- ===== src/Invitations/History.antt =====
-- Any sequence of the operations on invitations.
use patrice.Prelude.{
  ℕ, ◌+◌, ◌<◌, ◌≡◌, refl, Bool, false, not, Option, String, List, [], ◌∷◌, arith, is_some, ◌==◌,
  inl, inr, All, All-append, All-map, All-update_where, Distinct-snoc, Distinct-update_where,
  Bool-cases, get_or,
}
use patrice.Db.Directory.{Invitation, InvitationUse, DirectoryVerb, invite_revoked, invite_created}
use patrice.Db.Rows.{Db, fault, denied, role_not_grantable}
use patrice.Db.Tx.{Tx, ok, Result-cases}
use patrice.Db.Frame.{
  Moves, Moves-bind, Moves-known, Moves-read, Moves-modify, Moves-refuse_if, Moves-pure,
}
use patrice.Access.Op.{log_directory, transact, after, return_if}
use patrice.Invitations.{Redemption, default_expiry_ms}
use patrice.Invitations.Redeem.{
  redeem, create, revoke, revoke_body, load_invitation, insert_invitation, new_invitation,
  mark_revoked, grantable, find_invitation,
}
use patrice.Invitations.Steps.{Leaves, Leaves-log_directory}
use patrice.Invitations.Uses.{IsCounted, Used-IsCounted, Counted, uses_of}
use patrice.Invitations.Safety.{redeem-Used}

-- The invariant is kept.
Keeps : Db → Db → Type 0
Keeps a b = IsCounted a → IsCounted b

Leaves-Keeps : (a b : Db) → Leaves a b → Keeps a b
unfolding Keeps
Leaves-Keeps a b s c =
    let later = s.later_ids in
    record {
      distinct = rw s.same_invitations c.distinct;
      old = rw s.same_invitations (All-map _ _ (λ i h. omega arith) a.directory.invitations c.old);
      uses_old =
          rw s.same_uses (All-map _ _ (λ u h. omega arith) a.directory.invitation_uses c.uses_old);
      counted = rw (s.same_invitations, s.same_uses) c.counted;
    }

no_uses_of :
    (id : ℕ) (uses : List InvitationUse)
    → All (λ u. u.invitation_id < id) uses
    → uses_of id uses ≡ 0
unfolding uses_of
no_uses_of id [] h = refl
no_uses_of id (u ∷ uses) h = ground (arith, h.0, no_uses_of id uses h.1)

insert-Keeps :
    (make : ℕ → Invitation) (db : Db)
    → ((id : ℕ) → ((make id).id ≡ id) × ((make id).use_count ≡ 0))
    → Keeps db (insert_invitation make db)
unfolding Keeps insert_invitation
insert-Keeps make db new c =
    let named = (new db.next_id).0 in
    let unused = (new db.next_id).1 in
    record {
      distinct =
          Distinct-snoc (λ i. i.id) db.directory.invitations (make db.next_id) c.distinct
            (All-map _ _ (λ i h. omega (arith, named)) db.directory.invitations c.old);
      old =
          All-append _ db.directory.invitations (make db.next_id ∷ [])
            (All-map _ _ (λ i h. omega arith) db.directory.invitations c.old)
            (omega (arith, named), tt);
      uses_old = All-map _ _ (λ u h. omega arith) db.directory.invitation_uses c.uses_old;
      counted = All-append _ db.directory.invitations (make db.next_id ∷ []) c.counted (
        (
          rw (named, unused, no_uses_of db.next_id db.directory.invitation_uses c.uses_old) refl,
          omega (arith, unused),
        ),
        tt,
      );
    }

mark_revoked-Keeps : (now id : ℕ) (db : Db) → Keeps db (mark_revoked now id db)
unfolding Keeps mark_revoked
mark_revoked-Keeps now id db c = record {
  distinct =
      Distinct-update_where (λ i. i.id) (λ i. i.id == id) _ db.directory.invitations (λ i. refl)
        c.distinct;
  old =
      All-update_where (λ i. i.id < db.next_id) (λ i. i.id == id) _ db.directory.invitations
        (λ i h. h) c.old;
  uses_old = c.uses_old;
  counted =
      All-update_where (Counted db.directory.invitation_uses) (λ i. i.id == id) _
        db.directory.invitations (λ i h. h) c.counted;
}

Keeps-self : (db : Db) → Keeps db db
unfolding Keeps
Keeps-self db c = c

Keeps-trans : (a b c : Db) → Keeps a b → Keeps b c → Keeps a c
unfolding Keeps
Keeps-trans a b c f g h = g (f h)

log-Keeps :
    (o actor subject : ℕ) (verb : DirectoryVerb) → Moves Keeps (log_directory o actor subject verb)
unfolding Moves
log-Keeps o actor subject verb db out e =
    Leaves-Keeps db out.1 (Leaves-log_directory o actor subject verb db out e)

revoke_body-Keeps : (now actor : ℕ) (inv : Invitation) → Moves Keeps (revoke_body now actor inv)
unfolding revoke_body
revoke_body-Keeps now actor inv =
    Moves-bind Keeps Keeps-trans _ _ (Moves-read Keeps Keeps-self fault (find_invitation inv.id))
      (λ row.
        Moves-bind Keeps Keeps-trans _ _
          (Moves-modify Keeps (mark_revoked now inv.id) (mark_revoked-Keeps now inv.id))
          (λ u. log-Keeps inv.organization_id actor inv.id (invite_revoked inv.id)))

create-Keeps :
    (decides : Db → (actor role : ℕ) → Bool) (seen : Db) (now token_hash o creator : ℕ)
    (email : Option String) (roles : List ℕ) (expires : Option ℕ)
    → Moves Keeps (create decides seen now token_hash o creator email roles expires)
unfolding create
create-Keeps decides seen now token_hash o creator email roles expires =
    let make = λ (id : ℕ).
      new_invitation id o token_hash email roles creator
        (get_or (now + default_expiry_ms) expires) in
    Moves-bind Keeps Keeps-trans _ _
      (Moves-refuse_if Keeps Keeps-self (not (grantable decides seen creator roles))
        (denied role_not_grantable))
      (λ a.
        Moves-bind Keeps Keeps-trans _ _
          (Moves-known Keeps (λ db. ok (db.next_id, db)) (λ db. db) (λ db out e. ground arith)
            Keeps-self)
          (λ (id : ℕ).
            Moves-bind Keeps Keeps-trans _ _
              (Moves-modify Keeps (insert_invitation make)
                (λ db. insert-Keeps make db (λ k. (refl, refl))))
              (λ b.
                Moves-bind Keeps Keeps-trans _ _
                  (log-Keeps o creator id (invite_created id roles false))
                  (λ c. Moves-pure Keeps Keeps-self id))))

-- The calls of InvitationsService that write, each with what it had read.
pub data InvitationOp : Type 0 where
  creates :
      (seen : Db) (now token_hash organization creator : ℕ) (email : Option String) (roles : List ℕ)
      (expires : Option ℕ)
      → InvitationOp
  revokes : (seen : Db) (now id actor : ℕ) → InvitationOp
  redeems : (seen : Db) (seen_at now : ℕ) → Redemption → InvitationOp

transact-Keeps : {A : Type 0} (m : Tx A) (db : Db) → Moves Keeps m → Keeps db (transact m db).1
unfolding transact Moves Keeps
transact-Keeps m db k c = elim (Result-cases (m db)) [
  | inl ((a, db'), done) ↦ rw (done, transact) (k db (a, db') done c)
  | inr (e, raised) ↦ rw (raised, transact) c
]

revoke-Keeps : (seen : Db) (now id actor : ℕ) (db : Db) → Keeps db (revoke seen now id actor db).1
unfolding revoke after return_if
revoke-Keeps seen now id actor db = elim (Result-cases (load_invitation seen id)) [
  | inr (e, missing) ↦ rw missing (Keeps-self db)
  | inl (inv, found) ↦ elim (Bool-cases (is_some inv.revoked_at)) [
    | inl already ↦ rw (found, already) (Keeps-self db)
    | inr not_yet ↦ rw (found, not_yet) (transact-Keeps _ db (revoke_body-Keeps now actor inv))
  ]
]

module _ (token_hash : ℕ → ℕ) (passcode_hash : String → ℕ) (lower : String → String)
    (same_email : String → String → Bool) (decides : Db → (actor role : ℕ) → Bool) where
  unfoldable pub invitation_step : InvitationOp → Db → Db
  invitation_step (creates seen now hash o creator email roles expires) db =
      (transact (create decides seen now hash o creator email roles expires) db).1
  invitation_step (revokes seen now id actor) db = (revoke seen now id actor db).1
  invitation_step (redeems seen seen_at now args) db =
      (transact (redeem token_hash passcode_hash lower same_email decides seen seen_at now args)
        db).1

  unfoldable pub invitation_steps : List InvitationOp → Db → Db
  invitation_steps [] db = db
  invitation_steps (op ∷ rest) db = invitation_steps rest (invitation_step op db)

  redeem-Keeps :
      (seen : Db) (seen_at now : ℕ) (args : Redemption)
      → Moves Keeps (redeem token_hash passcode_hash lower same_email decides seen seen_at now args)
  unfolding Moves Keeps
  redeem-Keeps seen seen_at now args db out e c =
      let (inv, loaded, pending, used) =
        redeem-Used token_hash passcode_hash lower same_email decides seen seen_at now args db e in
      Used-IsCounted now inv.id db out.1 used c

  invitation_step-Keeps : (op : InvitationOp) (db : Db) → Keeps db (invitation_step op db)
  unfolding invitation_step
  invitation_step-Keeps (creates seen now hash o creator email roles expires) db =
      transact-Keeps _ db (create-Keeps decides seen now hash o creator email roles expires)
  invitation_step-Keeps (revokes seen now id actor) db = revoke-Keeps seen now id actor db
  invitation_step-Keeps (redeems seen seen_at now args) db =
      transact-Keeps _ db (redeem-Keeps seen seen_at now args)

  -- Over any sequence of creating, revoking and redeeming invitations, whatever each had read, ids stay
  -- distinct and every invitation counts exactly the users that it made, of which there are no more
  -- than it allows.
  pub invitation_steps-IsCounted :
      (ops : List InvitationOp) (db : Db) → IsCounted db → IsCounted (invitation_steps ops db)
  unfolding invitation_steps Keeps
  invitation_steps-IsCounted [] db c = c
  invitation_steps-IsCounted (op ∷ rest) db c =
      invitation_steps-IsCounted rest (invitation_step op db) (invitation_step-Keeps op db c)
