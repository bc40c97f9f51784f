-- ===== src/Governance/OfInvitations.antt =====
-- Redeeming an invitation only adds authority, and inviting and revoking leave it.
use patrice.Access.Op.{log_directory}
use patrice.Prelude.{
  if◌then◌else◌, ℕ, ◌+◌, Bool, false, get_or, not, ◌&&◌, Option, none, some, String, List, [], ◌∷◌,
  arith, is_some,
}
use patrice.Db.Directory.{
  Invitation, AuthProvider, bootstrap_completed, invite_created, invite_revoked,
}
use patrice.Db.Rows.{
  Db, fault, conflict, denied, gone, unprocessable, invite_race_lost, invite_unavailable,
  invalid_passcode, email_mismatch, role_not_grantable, discord_already_linked, email_taken,
}
use patrice.Db.Tx.{ok, pure}
use patrice.Access.Growth.{Grows, any-insert}
use patrice.Access.Adds.{
  Adds, Adds-bind, Adds-known, Adds-pure, Adds-lift, Adds-refuse_if, Adds-read, Adds-modify,
  Adds-log_directory, Grows-self, Adds-bump_config_version, counts_in,
}
use patrice.Invitations.{
  default_expiry_ms, derive_invitation_status, is_pending, given, IdentitySpec, Redemption,
  provider_of, consume, use_once, add_user, add_use, add_identity, insert_identity, is_linked,
  grant_all, write_accept_activity,
}
use patrice.Invitations.Redeem.{
  new_invitation, grantable, create_user, redeem_body, redeem, create, insert_invitation,
  revoke_body, mark_revoked, find_invitation, load_by_token, passcode_fails, email_fails,
  issuer_may_grant, has_email,
}
use patrice.Governance.Adding.{Adds-insert_link}

Adds-consume : (now id : ℕ) → Adds (consume now id)
unfolding consume use_once
Adds-consume now id = Adds-bind _ _ (Adds-read (conflict invite_race_lost) _) (λ inv.
    Adds-modify _ (λ db. record {
      roles_stay = λ k h. h;
      grants_stay = λ role h. h;
      links_stay = λ p h. h;
      users_stay = λ o holds h. h;
    }))

Adds-insert_identity :
    (now user : ℕ) (spec : IdentitySpec) (is_bootstrap : Bool)
    → Adds (insert_identity now user spec is_bootstrap)
unfolding insert_identity add_identity
Adds-insert_identity now user spec is_bootstrap =
    Adds-known _ (add_identity now user spec is_bootstrap) (λ db out e. ground arith)
      (λ db. record {
        roles_stay = λ k h. h;
        grants_stay = λ role h. h;
        links_stay = λ p h. h;
        users_stay = λ o holds h. h;
      })

Adds-add_use : (invitation user : ℕ) (db : Db) → Grows db (add_use invitation user db)
unfolding add_use
Adds-add_use invitation user db = record {
  roles_stay = λ k h. h;
  grants_stay = λ role h. h;
  links_stay = λ p h. h;
  users_stay = λ o holds h. h;
}

pub Adds-grant_all : (user : ℕ) (by : Option ℕ) (roles : List ℕ) → Adds (grant_all user by roles)
unfolding grant_all
Adds-grant_all user by [] = Adds-pure tt
Adds-grant_all user by (role ∷ rest) =
    Adds-bind _ _ (Adds-insert_link user role by) (λ u. Adds-grant_all user by rest)

Adds-write_accept_activity :
    (user : ℕ) (inv : Invitation) (provider : AuthProvider)
    → Adds (write_accept_activity user inv provider)
unfolding write_accept_activity
Adds-write_accept_activity user inv provider =
    Adds-bind _ _ (Adds-log_directory inv.organization_id user user _) (λ a.
      Adds-bind _ _ (Adds-log_directory inv.organization_id user inv.id _)
        (λ b. if_bootstrap inv.created_by))
  where
    if_bootstrap :
        (by : Option ℕ)
        → Adds (
            if is_some by
            then pure tt
            else log_directory inv.organization_id user user (bootstrap_completed user inv.id))
    if_bootstrap none = Adds-log_directory inv.organization_id user user _
    if_bootstrap (some c) = Adds-pure tt

module _ (token_hash : ℕ → ℕ) (passcode_hash : String → ℕ) (lower : String → String)
    (same_email : String → String → Bool) (decides : Db → (actor role : ℕ) → Bool) where
  Adds-create_user :
      (inv : Invitation) (args : Redemption)
      → Adds (create_user token_hash passcode_hash lower same_email decides inv args)
  unfolding create_user add_user
  Adds-create_user inv args =
      Adds-known _ (add_user inv.organization_id args.email args.display_name inv.id)
        (λ db out e. ground arith)
        (λ db. record {
          roles_stay = λ k h. h;
          grants_stay = λ role h. h;
          links_stay = λ p h. h;
          users_stay = λ o holds h. any-insert (counts_in o holds) db.users _ h;
        })

  Adds-redeem_body :
      (now : ℕ) (inv : Invitation) (args : Redemption)
      → Adds (redeem_body token_hash passcode_hash lower same_email decides now inv args)
  unfolding redeem_body
  Adds-redeem_body now inv args = Adds-bind _ _ (Adds-consume now inv.id) (λ a.
      Adds-bind _ _ (Adds-create_user inv args) (λ user.
        Adds-bind _ _ (Adds-insert_identity now user args.identity _) (λ b.
          Adds-bind _ _ (Adds-modify _ (Adds-add_use inv.id user)) (λ c.
            Adds-bind _ _ (Adds-grant_all user inv.created_by inv.intended_role_ids) (λ d.
              Adds-bind _ _ (Adds-bump_config_version inv.organization_id) (λ e.
                Adds-bind _ _ (Adds-write_accept_activity user inv (provider_of args.identity))
                  (λ f. Adds-pure user)))))))

  pub Adds-redeem :
      (seen : Db) (seen_at now : ℕ) (args : Redemption)
      → Adds (redeem token_hash passcode_hash lower same_email decides seen seen_at now args)
  unfolding redeem
  Adds-redeem seen seen_at now args =
      Adds-bind _ _
        (Adds-lift
          (load_by_token token_hash passcode_hash lower same_email decides seen args.token))
        (λ (inv : Invitation).
          Adds-bind _ _
            (Adds-refuse_if (not (is_pending (derive_invitation_status seen_at inv)))
              (gone invite_unavailable))
            (λ a.
              Adds-bind _ _
                (Adds-refuse_if
                  (passcode_fails token_hash passcode_hash lower same_email decides
                    inv.passcode_hash args.passcode)
                  (denied invalid_passcode))
                (λ b.
                  Adds-bind _ _
                    (Adds-refuse_if
                      (email_fails token_hash passcode_hash lower same_email decides inv.email
                        args.email)
                      (denied email_mismatch))
                    (λ c.
                      Adds-bind _ _
                        (Adds-refuse_if
                          (not (issuer_may_grant decides seen inv.created_by inv.intended_role_ids))
                          (denied role_not_grantable))
                        (λ d.
                          Adds-bind _ _
                            (Adds-refuse_if (is_linked args.identity seen)
                              (conflict discord_already_linked))
                            (λ e.
                              Adds-bind _ _
                                (Adds-refuse_if
                                  (given args.email
                                    && has_email token_hash passcode_hash lower same_email decides
                                        inv.organization_id args.email seen)
                                  (unprocessable email_taken))
                                (λ f.
                                  Adds-bind _ _ (Adds-redeem_body now inv args)
                                    (λ user. Adds-pure _))))))))

insert_invitation-Grows : (make : ℕ → Invitation) (db : Db) → Grows db (insert_invitation make db)
unfolding insert_invitation
insert_invitation-Grows make db = record {
  roles_stay = λ id h. h;
  grants_stay = λ role h. h;
  links_stay = λ p h. h;
  users_stay = λ o holds h. h;
}

mark_revoked-Grows : (now id : ℕ) (db : Db) → Grows db (mark_revoked now id db)
unfolding mark_revoked
mark_revoked-Grows now id db = record {
  roles_stay = λ id h. h;
  grants_stay = λ role h. h;
  links_stay = λ p h. h;
  users_stay = λ o holds h. h;
}

pub Adds-create :
    (decides : Db → (actor role : ℕ) → Bool) (seen : Db) (now token_hash organization creator : ℕ)
    (email : Option String) (roles : List ℕ) (expires : Option ℕ)
    → Adds (create decides seen now token_hash organization creator email roles expires)
unfolding create
Adds-create decides seen now token_hash organization creator email roles expires =
    let make : ℕ → Invitation = λ id.
      new_invitation id organization token_hash email roles creator
        (get_or (now + default_expiry_ms) expires) in
    Adds-bind _ _
      (Adds-refuse_if (not (grantable decides seen creator roles)) (denied role_not_grantable))
      (λ a.
        Adds-bind _ _
          (Adds-known (λ db. ok (db.next_id, db)) (λ db. db) (λ db out h. ground arith) Grows-self)
          (λ id.
            Adds-bind _ _ (Adds-modify (insert_invitation make) (insert_invitation-Grows make))
              (λ b.
                Adds-bind _ _
                  (Adds-log_directory organization creator id (invite_created id roles false))
                  (λ c. Adds-pure id))))

pub Adds-revoke_body : (now actor : ℕ) (inv : Invitation) → Adds (revoke_body now actor inv)
unfolding revoke_body
Adds-revoke_body now actor inv = Adds-bind _ _ (Adds-read fault (find_invitation inv.id)) (λ row.
    Adds-bind _ _ (Adds-modify (mark_revoked now inv.id) (mark_revoked-Grows now inv.id))
      (λ b. Adds-log_directory inv.organization_id actor inv.id (invite_revoked inv.id)))
