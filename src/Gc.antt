-- ===== src/Gc.antt =====
-- api/src/gc/gc.service.ts: what a sweep deletes of tasks and users that are retired past the grace
-- period. The collecting of divisions, teams, roles and connections, the loops of the sweep, stored
-- files and the report are not modelled, nor are the user's rows of tables that are not (tokens,
-- external identities and baselines).
use patrice.Prelude.{
  ℕ, ◌+◌, ltb, Bool, true, false, not, ◌&&◌, ◌||◌, Option, none, some, List, [], ◌∷◌, ◌++◌, map,
  is_some, any, keep, find, has, update_where, opt_eq, ◌==◌,
}
use patrice.Db.Directory.{
  Invitation, InvitationUse, DirectoryVerb, gc_task_collected, gc_user_scrubbed, gc_user_collected,
  invite_auto_revoked,
}
use patrice.Db.Rows.{
  LifecycleState, retired, AppUser, Attachment, Message, Submission, Db, directory_verb, fault,
}
use patrice.Db.Tx.{Tx, ok, pure, ◌>>=◌, ◌>>◌, modify, gets, refuse_if, or_throw}
use patrice.Db.Tables.{is_retired, find_task}
use patrice.Lifecycle.{window_ms}
use patrice.Access.Op.{on_directory, update_user}
pub mod Cutoff
pub mod Collect
pub mod Scrub
mod Tests

-- `retiredAt: { lt: cutoff }` of a retired row: its time is before `now - grace_ms`.
unfoldable pub past_grace : (now grace_ms : ℕ) → LifecycleState → Option ℕ → Bool
past_grace now grace_ms retired (some at) = ltb (at + grace_ms) now
past_grace now grace_ms _ at = false

unfoldable pub collectable_tasks : (now grace_ms organization : ℕ) → Db → List ℕ
collectable_tasks now grace_ms organization seen =
    map (λ t. t.id)
      (keep
        (λ t.
          t.organization_id == organization
          && past_grace now grace_ms t.lifecycle_state t.retired_at)
        seen.tasks)

-- `userHasHistory`
unfoldable pub user_has_history : (user : ℕ) → Db → Bool
user_has_history user db =
    any (λ m. opt_eq m.sender_user_id (some user)) db.messages
    || any (λ s. s.claimant_user_id == user) db.submissions
    || any (λ t. t.requester_user_id == user) db.tasks
    || any (λ a. a.uploader_user_id == user) db.attachments
    || any (λ c. c.user_id == user) db.claimants

abbrev pub is_candidate : (now grace_ms organization : ℕ) → AppUser → Bool
is_candidate now grace_ms organization u =
    u.organization_id == organization && past_grace now grace_ms u.lifecycle_state u.retired_at

-- `collectableUsers`: those with history, to be scrubbed, and those without, to be deleted.
unfoldable pub users_to_scrub : (now grace_ms organization : ℕ) → Db → List ℕ
users_to_scrub now grace_ms organization seen =
    map (λ u. u.id)
      (keep (λ u. is_candidate now grace_ms organization u && user_has_history u.id seen)
        seen.users)

unfoldable pub users_to_delete : (now grace_ms organization : ℕ) → Db → List ℕ
users_to_delete now grace_ms organization seen =
    map (λ u. u.id)
      (keep (λ u. is_candidate now grace_ms organization u && not (user_has_history u.id seen))
        seen.users)

-- `logActivity` with no actor.
unfoldable pub log_system : (organization subject : ℕ) → DirectoryVerb → Db → Db
log_system organization subject verb db = record db {
  activities =
      db.activities
      ++ record {
        organization_id = organization;
        actor_user_id = none;
        subject_id = subject;
        verb = directory_verb verb;
      }
        ∷ [];
}

abbrev pub is_issued : (user : ℕ) → Invitation → Bool
is_issued user i = opt_eq i.created_by (some user) && not (is_some i.revoked_at)

-- One row for each invitation.
unfoldable pub log_revoked : (organization issuer : ℕ) → List Invitation → Db → Db
log_revoked organization issuer [] db = db
log_revoked organization issuer (i ∷ rest) db =
    log_revoked organization issuer rest
      (log_system organization i.id (invite_auto_revoked i.id issuer) db)

unfoldable pub mark_issued : (now user : ℕ) → Db → Db
mark_issued now user = on_directory (λ d. record d {
  invitations =
      update_where (is_issued user) (λ i. record i { revoked_at = some now }) d.invitations;
})

-- `revokeIssuedInvitations`
unfoldable pub revoke_issued_invitations : (now organization user : ℕ) → Db → Db
revoke_issued_invitations now organization user db =
    log_revoked organization user (keep (is_issued user) db.directory.invitations)
      (mark_issued now user db)

abbrev pub made_by : (user : ℕ) → List InvitationUse → List ℕ
made_by user uses = map (λ u. u.invitation_id) (keep (λ u. u.created_user_id == user) uses)

-- `nullReceivedInvitationEmails`
unfoldable pub null_received_invitation_emails : (user : ℕ) → Db → Db
null_received_invitation_emails user = on_directory (λ d. record d {
  invitations =
      update_where (λ i. has i.id (made_by user d.invitation_uses)) (λ i. record i { email = none })
        d.invitations;
})

-- `purgeUserSatellites`
unfoldable pub purge_user_satellites : (user : ℕ) → Db → Db
purge_user_satellites user db = record db {
  notifications = keep (λ n. not (n.recipient_user_id == user)) db.notifications;
  directory = record db.directory {
    identities = keep (λ i. not (i.user_id == user)) db.directory.identities;
    sessions = keep (λ s. not (s.user_id == user)) db.directory.sessions;
    user_roles = keep (λ l. not (l.user_id == user)) db.directory.user_roles;
  };
}

abbrev pub scrubbed : AppUser → AppUser
scrubbed u = record u { email = none; version = u.version + 1 }

unfoldable pub scrub_user : (now organization user : ℕ) → Tx (Unit {0})
scrub_user now organization user = do
  modify (revoke_issued_invitations now organization user)
  modify (null_received_invitation_emails user)
  modify (purge_user_satellites user)
  update_user user scrubbed
  modify (log_system organization user (gc_user_scrubbed user))

unfoldable pub forget_uses : (user : ℕ) → Db → Db
forget_uses user = on_directory (λ d. record d {
  invitation_uses = keep (λ u. not (u.created_user_id == user)) d.invitation_uses;
})

unfoldable pub drop_user : (user : ℕ) → Db → Db
drop_user user db = record db { users = keep (λ u. not (u.id == user)) db.users }

-- `appUser.delete`, which the foreign keys of the user's content restrict.
unfoldable pub remove_user : (user : ℕ) → Tx (Unit {0})
remove_user user = do
  λ db. refuse_if (user_has_history user db) fault db
  λ db. or_throw fault (find (λ u. u.id == user) db.users) db
  modify (drop_user user)

unfoldable pub delete_user : (now organization user : ℕ) → Tx (Unit {0})
delete_user now organization user = do
  modify (revoke_issued_invitations now organization user)
  modify (null_received_invitation_emails user)
  modify (forget_uses user)
  modify (purge_user_satellites user)
  remove_user user
  modify (log_system organization user (gc_user_collected user))

abbrev pub of_message : (task : ℕ) → Db → Option ℕ → Bool
of_message task db none = false
of_message task db (some id) = any (λ m. m.id == id && m.task_id == task) db.messages

abbrev pub of_submission : (task : ℕ) → Db → ℕ → Bool
of_submission task db id = any (λ s. s.id == id && s.task_id == task) db.submissions

abbrev pub of_answer : (task : ℕ) → Db → Option ℕ → Bool
of_answer task db none = false
of_answer task db (some id) =
    any (λ a. a.id == id && of_submission task db a.submission_id) db.answers

-- The attachments of the task's messages and of the answers to it.
abbrev pub is_attached : (task : ℕ) → Db → Attachment → Bool
is_attached task db a = of_message task db a.message_id || of_answer task db a.answer_id

-- The rows of the task go: attachments, messages, submissions with their answers, slots, the request
-- template with its questions, and the task. The self-references that the source clears first are of
-- rows that go.
unfoldable pub without_task : (task : ℕ) → Db → Db
without_task task db = record db {
  attachments = keep (λ a. not (is_attached task db a)) db.attachments;
  messages = keep (λ m. not (m.task_id == task)) db.messages;
  answers = keep (λ a. not (of_submission task db a.submission_id)) db.answers;
  submissions = keep (λ s. not (s.task_id == task)) db.submissions;
  claimants = keep (λ c. not (c.task_id == task)) db.claimants;
  templates = keep (λ t. not (t.owner_task_id == task)) db.templates;
  tasks = keep (λ t. not (t.id == task)) db.tasks;
}

-- `deleteTaskAggregate`: the storage keys of the files to be removed.
unfoldable pub delete_task_aggregate : (organization task : ℕ) → Tx (List ℕ)
delete_task_aggregate organization task = do
  keys ← gets (λ db. map (λ a. a.storage_key) (keep (is_attached task db) db.attachments))
  λ db. or_throw fault (find_task task db) db
  modify (without_task task)
  modify (log_system organization task (gc_task_collected task))
  pure keys
