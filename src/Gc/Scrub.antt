-- ===== src/Gc/Scrub.antt =====
-- What is left of a user who was scrubbed or deleted.
use mathlib.Core.Option
use patrice.Prelude.{
  ℕ, ◌+◌, ◌≡◌, refl, ◌∙◌, ap, false, none, some, List, [], ◌∷◌, arith, any, keep, find,
  update_where, ◌==◌, find-update_where, has,
}
use patrice.Db.Directory.{Invitation, gc_user_scrubbed, gc_user_collected, invite_auto_revoked}
use patrice.Db.Rows.{Db, AppUser}
use patrice.Db.Tx.{ok}
use patrice.Access.Op.{update_user, put_users}
use patrice.Gc.{
  user_has_history, is_candidate, log_system, is_issued, log_revoked, mark_issued,
  revoke_issued_invitations, null_received_invitation_emails, purge_user_satellites, scrubbed,
  scrub_user, made_by, forget_uses, drop_user, remove_user, delete_user,
}
use patrice.Gc.Collect.{any-keep-not}

log_revoked-frame :
    (organization issuer : ℕ) (l : List Invitation) (db : Db)
    → log_revoked organization issuer l db
      ≡ record db { activities = (log_revoked organization issuer l db).activities }
unfolding log_revoked log_system
log_revoked-frame organization issuer [] db = refl
log_revoked-frame organization issuer (i ∷ rest) db =
    log_revoked-frame organization issuer rest
      (log_system organization i.id (invite_auto_revoked i.id issuer) db)

none_issued :
    (now user : ℕ) (rows : List Invitation)
    → any
        (is_issued user)
        (update_where (is_issued user) (λ i. record i { revoked_at = some now }) rows)
      ≡ false
none_issued now user [] = refl
none_issued now user (i ∷ rows) = ground (arith, none_issued now user rows)

none_issued-emails :
    (user : ℕ) (ids : List ℕ) (rows : List Invitation)
    → any (is_issued user) rows ≡ false
    → any (is_issued user) (update_where (λ i. has i.id ids) (λ i. record i { email = none }) rows)
      ≡ false
none_issued-emails user ids [] h = refl
none_issued-emails user ids (i ∷ rows) h = ground (arith, none_issued-emails user ids rows)

-- The tables that a scrub leaves, up to audit rows.
abbrev mid : (now organization user : ℕ) → Db → Db
mid now organization user db =
    purge_user_satellites user
      (null_received_invitation_emails user (revoke_issued_invitations now organization user db))

-- Nothing that signs in, acts or is addressed for the user is left.
pub record IsPurged (user : ℕ) (db : Db) : Type 0 where
  pub no_identity : any (λ i. i.user_id == user) db.directory.identities ≡ false
  pub no_session : any (λ s. s.user_id == user) db.directory.sessions ≡ false
  pub no_role : any (λ l. l.user_id == user) db.directory.user_roles ≡ false
  pub no_notification : any (λ n. n.recipient_user_id == user) db.notifications ≡ false
  pub none_open : any (is_issued user) db.directory.invitations ≡ false

mid-IsPurged : (now organization user : ℕ) (db : Db) → IsPurged user (mid now organization user db)
unfolding purge_user_satellites null_received_invitation_emails revoke_issued_invitations
    mark_issued
mid-IsPurged now organization user db =
    let frame =
      log_revoked-frame organization user (keep (is_issued user) db.directory.invitations)
        (mark_issued now user db) in
    rw frame (record {
      no_identity = any-keep-not (λ i. i.user_id == user) db.directory.identities;
      no_session = any-keep-not (λ s. s.user_id == user) db.directory.sessions;
      no_role = any-keep-not (λ l. l.user_id == user) db.directory.user_roles;
      no_notification = any-keep-not (λ n. n.recipient_user_id == user) db.notifications;
      none_open =
          none_issued-emails user (made_by user db.directory.invitation_uses) _
            (none_issued now user db.directory.invitations);
    })

mid_keeps :
    (now organization user : ℕ) (db : Db)
    → ((mid now organization user db).users ≡ db.users)
      × (user_has_history user (mid now organization user db) ≡ user_has_history user db)
unfolding purge_user_satellites null_received_invitation_emails revoke_issued_invitations
    mark_issued user_has_history
mid_keeps now organization user db =
    let frame =
      log_revoked-frame organization user (keep (is_issued user) db.directory.invitations)
        (mark_issued now user db) in
    rw frame (refl, refl)

scrub_steps :
    (now organization user : ℕ) (db : Db) {u : Unit {0}} {db' : Db}
    → scrub_user now organization user db ≡ ok (u, db')
    → db'
      ≡ log_system organization user
          (gc_user_scrubbed user)
          (put_users user scrubbed (mid now organization user db))
unfolding scrub_user update_user
scrub_steps now organization user db h = ground arith

find_user-scrubbed :
    (user : ℕ) (users : List AppUser) (u : AppUser)
    → find (λ x. x.id == user) users ≡ some u
    → find (λ x. x.id == user) (update_where (λ x. x.id == user) scrubbed users) ≡ some (scrubbed u)
find_user-scrubbed user users u found =
    find-update_where (λ x. x.id) user scrubbed users (λ x. refl) ∙ ap (Option.map scrubbed) found

-- A scrubbed user keeps the id and the name, with no email, has nothing left to sign in or act with,
-- no open invitation that the user issued, and the same content. A later sweep finds the same user to
-- scrub again: nothing marks the row as scrubbed.
pub scrub_user-IsPurged :
    (now later grace_ms organization user : ℕ) (u : AppUser) (db : Db) {v : Unit {0}} {db' : Db}
    → find (λ x. x.id == user) db.users ≡ some u
    → scrub_user now organization user db ≡ ok (v, db')
    → IsPurged user db'
      × (find (λ x. x.id == user) db'.users
          ≡ some (record u { email = none; version = u.version + 1 }))
      × (user_has_history user db' ≡ user_has_history user db)
      × (is_candidate later grace_ms organization (scrubbed u)
          ≡ is_candidate later grace_ms organization u)
unfolding log_system put_users user_has_history
scrub_user-IsPurged now later grace_ms organization user u db {v} {db'} found h =
    let tables = scrub_steps now organization user db h in
    let purged = mid-IsPurged now organization user db in
    let (users, history) = mid_keeps now organization user db in
    (
      rw tables (record {
        no_identity = purged.no_identity;
        no_session = purged.no_session;
        no_role = purged.no_role;
        no_notification = purged.no_notification;
        none_open = purged.none_open;
      }),
      rw tables (rw users (find_user-scrubbed user db.users u found)),
      rw tables history,
      refl,
    )

delete_steps :
    (now organization user : ℕ) (db : Db) {u : Unit {0}} {db' : Db}
    → delete_user now organization user db ≡ ok (u, db')
    → (user_has_history user db' ≡ false)
      × (db'
          ≡ log_system organization user (gc_user_collected user) (
              drop_user user (
                purge_user_satellites user (
                  forget_uses user (
                    null_received_invitation_emails user
                      (revoke_issued_invitations now organization user db))))))
unfolding delete_user remove_user user_has_history log_system drop_user
delete_steps now organization user db h = ground arith

-- Deleting a user, when it succeeds, leaves no message, submission, task, attachment or slot of the
-- user's, no identity, session, membership, notification or record of an invitation's use, no open
-- invitation that the user issued, and no row of the user.
pub delete_user-IsPurged :
    (now organization user : ℕ) (db : Db) {u : Unit {0}} {db' : Db}
    → delete_user now organization user db ≡ ok (u, db')
    → IsPurged user db'
      × (any (λ x. x.id == user) db'.users ≡ false)
      × (any (λ x. x.created_user_id == user) db'.directory.invitation_uses ≡ false)
      × (user_has_history user db' ≡ false)
unfolding log_system drop_user forget_uses purge_user_satellites null_received_invitation_emails
    revoke_issued_invitations mark_issued
delete_user-IsPurged now organization user db {u} {db'} h =
    let (history, tables) = delete_steps now organization user db h in
    let frame =
      log_revoked-frame organization user (keep (is_issued user) db.directory.invitations)
        (mark_issued now user db) in
    (
      rw (tables, frame)
          (record {
            no_identity = any-keep-not (λ i. i.user_id == user) db.directory.identities;
            no_session = any-keep-not (λ s. s.user_id == user) db.directory.sessions;
            no_role = any-keep-not (λ l. l.user_id == user) db.directory.user_roles;
            no_notification = any-keep-not (λ n. n.recipient_user_id == user) db.notifications;
            none_open =
                none_issued-emails user (made_by user db.directory.invitation_uses) _
                  (none_issued now user db.directory.invitations);
          }),
      rw (tables, frame) (any-keep-not (λ x. x.id == user) db.users),
      rw (tables, frame)
          (any-keep-not (λ x. x.created_user_id == user) db.directory.invitation_uses),
      history,
    )
