-- ===== src/Db/Emit.antt =====
-- What the services leave behind in a caller's transaction: api/src/messages/messages.service.ts
-- (createSystemMessage), api/src/activity/activity.service.ts (logActivity, whose payload schemas
-- the typed verbs meet), and api/src/notifications/notification.types.ts and
-- notifications.service.ts (the recipients, emit and the resolvers).
use patrice.Prelude.{
  ℕ, ◌+◌, Bool, true, false, ◌&&◌, ◌||◌, Option, none, some, List, [], ◌∷◌, ◌++◌, map, any, has,
  opt_eq, max, ◌==◌, if◌then◌else◌,
}
use patrice.Db.Rows.{
  active, MessageKind, system, Body, Verb, NotificationType, NotificationEvent, Notification, Db,
  fault,
}
use patrice.Db.Tx.{ok, Tx, pure, ◌>>=◌, gets, modify, or_throw}
use patrice.Db.Tables.{find_task, active_claimant_ids}

unfoldable pub add_message :
    (now task : ℕ) → MessageKind → (sender parent submission : Option ℕ) → Body → Db → Db
add_message now task kind sender parent submission body db = record db {
  messages =
      db.messages
      ++ record {
        id = db.next_id;
        task_id = task;
        kind = kind;
        sender_user_id = sender;
        parent_message_id = parent;
        submission_id = submission;
        body = body;
        lifecycle_state = active;
        retired_at = none;
        edited_at = none;
        version = 0;
        created_at = now;
      }
        ∷ [];
  next_id = db.next_id + 1;
}

unfoldable pub create_system_message : (now task : ℕ) → Body → (submission parent : Option ℕ) → Tx ℕ
unfolding add_message
create_system_message now task body submission parent db =
    ok (db.next_id, add_message now task system none parent submission body db)

unfoldable pub log_activity : (organization actor subject : ℕ) → Verb → Tx (Unit {0})
log_activity organization actor subject verb = modify λ db. record db {
  activities =
      db.activities
      ++ record {
        organization_id = organization;
        actor_user_id = some actor;
        subject_id = subject;
        verb = verb;
      }
        ∷ [];
}

-- `seen.has(id)` and the sender's test of `computeRecipients`, on the ids that are not dropped.
unfoldable pub recipients_from : (seen : List ℕ) → (sender : Option ℕ) → List (Option ℕ) → List ℕ
recipients_from seen sender [] = []
recipients_from seen sender (none ∷ rest) = recipients_from seen sender rest
recipients_from seen sender (some id ∷ rest) = elim (opt_eq sender (some id) || has id seen) [
  | true ↦ recipients_from seen sender rest
  | false ↦ id ∷ recipients_from (id ∷ seen) sender rest
]

unfoldable pub compute_recipients : List (Option ℕ) → (sender : Option ℕ) → List ℕ
compute_recipients ids sender = recipients_from [] sender ids

abbrev pub type_no : NotificationType → ℕ
type_no NotificationType.submitted = 0
type_no NotificationType.reviewed_approved = 1
type_no NotificationType.reviewed_returned = 2
type_no NotificationType.reviewed_rejected = 3
type_no NotificationType.completed = 4
type_no NotificationType.requester_changed = 5
type_no NotificationType.claim_joined = 6
type_no NotificationType.claim_left = 7
type_no NotificationType.claims_closed = 8
type_no NotificationType.task_retired_type = 9
type_no NotificationType.message_posted = 10
type_no NotificationType.message_replied = 11
type_no NotificationType.submission_thread_replied = 12

abbrev pub same_topic : NotificationType → (subject : ℕ) → Notification → Bool
same_topic type subject n = type_no n.type == type_no type && n.subject_id == subject

-- The greatest `eventSeq` of the topic, 0 if there is none.
unfoldable pub max_seq : NotificationType → (subject : ℕ) → List Notification → ℕ
max_seq type subject [] = 0
max_seq type subject (n ∷ rest) =
    let later = max_seq type subject rest in
    if same_topic type subject n then max n.event_seq later else later

-- The unique index: `skipDuplicates` leaves out a row that collides on it.
abbrev pub collides : Notification → Notification → Bool
collides new n =
    n.recipient_user_id == new.recipient_user_id
    && same_topic new.type new.subject_id n
    && n.event_seq == new.event_seq

unfoldable pub insert_notification : Notification → List Notification → List Notification
insert_notification new rows = if any (collides new) rows then rows else rows ++ new ∷ []

unfoldable pub insert_all :
    NotificationEvent → (seq : ℕ) → List ℕ → List Notification → List Notification
insert_all event seq [] rows = rows
insert_all event seq (r ∷ rest) rows = insert_all event seq rest (
    insert_notification
      (record {
        organization_id = event.organization_id;
        recipient_user_id = r;
        type = event.type;
        subject_id = event.subject_id;
        payload = event.payload;
        event_seq = seq;
      })
      rows)

-- `emit`, for an event with no `eventSeq` of its own: the ids written, to be pinged after the commit.
unfoldable pub emit : NotificationEvent → Tx (List ℕ)
emit event db = elim (compute_recipients event.recipient_user_ids event.sender_user_id) [
  | [] ↦ ok ([], db)
  | r ∷ rest ↦
      let seq = max_seq event.type event.subject_id db.notifications + 1 in
      ok (r ∷ rest, record db { notifications = insert_all event seq (r ∷ rest) db.notifications })
]

-- `requesterId`
unfoldable pub requester_id : (task : ℕ) → Tx (Option ℕ)
requester_id task = do
  t ← λ db. or_throw fault (find_task task db) db
  pure (some t.requester_user_id)

-- `activeClaimantIds`, as recipients
unfoldable pub claimant_recipients : (task : ℕ) → Tx (List (Option ℕ))
claimant_recipients task = gets (λ db. map some (active_claimant_ids task db))
