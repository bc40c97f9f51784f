-- ===== src/Db/Tests.antt =====
-- An event with a name twice, no name, and its sender.
use patrice.Prelude.{◌+◌, ◌≡◌, refl, true, none, some, [], ◌∷◌, count, has}
use patrice.Db.Rows.{Db, NotificationType, NotificationEvent}
use patrice.Db.Tables.{no_directory}
use patrice.Db.Emit.{
  recipients_from, compute_recipients, max_seq, insert_notification, insert_all, emit,
}
use patrice.Db.Delivery.{is_for, emit_delivers}

abbrev event : NotificationEvent
event = record {
  organization_id = 9;
  type = NotificationType.requester_changed;
  subject_id = 1;
  sender_user_id = some 5;
  recipient_user_ids = some 4 ∷ none ∷ some 5 ∷ some 4 ∷ [];
  payload = 1 ∷ 4 ∷ 5 ∷ [];
}

abbrev earlier : Db
earlier = record {
  tasks = [];
  claimants = [];
  divisions = [];
  users = [];
  submissions = [];
  messages = [];
  activities = [];
  notifications =
      record {
        organization_id = 9;
        recipient_user_id = 4;
        type = NotificationType.requester_changed;
        subject_id = 1;
        payload = [];
        event_seq = 1;
      }
      ∷ [];
  answers = [];
  attachments = [];
  templates = [];
  directory = no_directory;
  next_id = 1;
}

abbrev later : Db
later = record earlier { notifications = insert_all event 2 (4 ∷ []) earlier.notifications }

emit_delivers_example :
    (count (is_for 4) later.notifications ≡ count (is_for 4) earlier.notifications + 1)
    × (has 4 (4 ∷ []) ≡ true)
unfolding emit insert_all insert_notification compute_recipients recipients_from max_seq
emit_delivers_example = emit_delivers event earlier 4 refl
