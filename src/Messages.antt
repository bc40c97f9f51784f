-- ===== src/Messages.antt =====
-- api/src/messages/messages.service.ts: the messages of a task, in threads of one level. As for
-- tasks, an operation reads in `seen` and writes to the tables that it finds. An
-- operation returns the row, or the id of a new one, in place of the view, which adds the
-- attachments. `listForTask` is not modelled.
pub mod Threads
pub mod Cascade
mod Tests
use patrice.Prelude.{
  ℕ, ◌+◌, Bool, true, false, not, ◌&&◌, ◌||◌, Option, none, some, List, [], ◌∷◌, keep, map, find,
  update_where, is_some, opt_eq, ◌==◌, if◌then◌else◌, String,
}
use patrice.Db.Rows.{
  LifecycleState, MessageKind, comment, Message, Attachment, text, message_created, message_updated,
  message_retired, message_revived, NotificationType, NotificationEvent, Db, parent_not_found,
  reply_to_reply, message_not_found, message_is_retired, already_retired, not_revivable, Error,
  not_found, conflict, unprocessable, fault,
}
use patrice.Db.Tx.{Result, ok, err, Tx, pure, ◌>>=◌, ◌>>◌, gets, modify, lift, refuse_if, or_throw}
use patrice.Db.Tables.{is_retired, find_task, find_submission, load_active_task}
use patrice.Db.Emit.{add_message, log_activity, emit, requester_id, claimant_recipients}
use patrice.Lifecycle.{is_revivable}

unfoldable pub find_message : ℕ → Db → Option Message
find_message id db = find (λ m. m.id == id) db.messages

-- `message.update` by its id, and the row that it returns.
unfoldable pub update_message : (id : ℕ) → (Message → Message) → Tx Message
update_message id f = do
  m ← λ db. or_throw fault (find_message id db) db
  modify λ db. record db { messages = update_where (λ m. m.id == id) f db.messages }
  pure (f m)

-- `threadParticipantIds`: the senders in the thread of a top-level message.
unfoldable pub thread_participants : (top : ℕ) → Db → List (Option ℕ)
thread_participants top db =
    map (λ m. m.sender_user_id)
      (keep
        (λ m. (m.id == top || opt_eq m.parent_message_id (some top)) && is_some m.sender_user_id)
        db.messages)

module _ (seen : Db) (now : ℕ) where
  -- The parent of a reply, which must be a top-level message of the same task.
  unfoldable pub load_parent : (task : ℕ) → Option ℕ → Result (Option Message)
  load_parent task none = ok none
  load_parent task (some id) = elim (find_message id seen) [
    | none ↦ err (not_found parent_not_found)
    | some found ↦
        if not (found.task_id == task)
        then err (not_found parent_not_found)
        else if is_some found.parent_message_id
        then err (unprocessable reply_to_reply)
        else ok (some found)
  ]

  -- The claimant of the submission, if it is there.
  abbrev pub claimant_of : (submission : ℕ) → Db → Option ℕ
  claimant_of submission db = elim (find_submission submission db) [
    | none ↦ none
    | some s ↦ some s.claimant_user_id
  ]

  abbrev pub message_event :
      (organization task message actor : ℕ) → NotificationType → List (Option ℕ) → NotificationEvent
  message_event organization task message actor type recipients = record {
    organization_id = organization;
    type = type;
    subject_id = message;
    sender_user_id = some actor;
    recipient_user_ids = recipients;
    payload = task ∷ message ∷ actor ∷ [];
  }

  unfoldable pub notify_message :
      (organization task message actor : ℕ) → (parent : Option Message) → Tx (List ℕ)
  notify_message organization task message actor none = do
    requester ← requester_id task
    claimants ← claimant_recipients task
    emit (
        message_event organization task message actor NotificationType.message_posted
          (requester ∷ claimants))
  notify_message organization task message actor (some parent) = elim parent.submission_id [
    | some submission ↦ do
      claimant ← gets (claimant_of submission)
      requester ← requester_id task
      emit (
          message_event organization task message actor NotificationType.submission_thread_replied
            (claimant ∷ requester ∷ []))
    | none ↦ do
      participants ← gets (thread_participants parent.id)
      emit (
          message_event organization task message actor NotificationType.message_replied
            participants)
  ]

  -- `message.create` of a comment: it names its parent, and no submission.
  unfoldable pub post : (task actor : ℕ) → (parent : Option ℕ) → String → Tx ℕ
  post task actor parent body db =
      ok (db.next_id, add_message now task comment (some actor) parent none (text body) db)

  -- The body of the transaction.
  unfoldable pub write_message :
      (organization task actor : ℕ)
      → (parent : Option Message) → (parent_id : Option ℕ) → String
      → Tx (ℕ × List ℕ)
  write_message organization task actor parent parent_id body = do
    id ← post task actor parent_id body
    log_activity organization actor id (message_created id task parent_id)
    notified ← notify_message organization task id actor parent
    pure (id, notified)

  unfoldable pub create : (task actor : ℕ) → (parent : Option ℕ) → String → Tx (ℕ × List ℕ)
  create task_id actor parent_id body = do
    task ← lift (load_active_task task_id seen)
    parent ← lift (load_parent task_id parent_id)
    write_message task.organization_id task_id actor parent parent_id body

  -- The message with the organization of its task, or 404.
  unfoldable pub load_message : ℕ → Result (Message × ℕ)
  load_message id = elim (find_message id seen) [
    | none ↦ err (not_found message_not_found)
    | some m ↦ elim (find_task m.task_id seen) [
      | none ↦ err fault
      | some t ↦ ok (m, t.organization_id)
    ]
  ]

  unfoldable pub update : (id actor : ℕ) → String → Tx Message
  update id actor body = do
    (m, organization) ← lift (load_message id)
    refuse_if (is_retired m.lifecycle_state) (conflict message_is_retired)
    row ←
        update_message id
          (λ x. record x { body = text body; edited_at = some now; version = x.version + 1 })
    log_activity organization actor id (message_updated id m.task_id)
    pure row

  unfoldable pub retire : (id actor : ℕ) → Tx Message
  retire id actor = do
    (m, organization) ← lift (load_message id)
    refuse_if (is_retired m.lifecycle_state) (conflict already_retired)
    row ← update_message id (λ x. record x {
      lifecycle_state = LifecycleState.retired;
      retired_at = some now;
      version = x.version + 1;
    })
    log_activity organization actor id (message_retired id m.task_id)
    pure row

  -- `grace_ms` is `GraceService.windowMs` of the organization.
  unfoldable pub revive : (grace_ms id actor : ℕ) → Tx Message
  revive grace_ms id actor = do
    (m, organization) ← lift (load_message id)
    refuse_if (not (is_revivable now m.lifecycle_state m.retired_at grace_ms))
        (conflict not_revivable)
    row ← update_message id (λ x. record x {
      lifecycle_state = LifecycleState.active;
      retired_at = none;
      version = x.version + 1;
    })
    log_activity organization actor id (message_revived id m.task_id)
    pure row
