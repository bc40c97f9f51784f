-- ===== src/Tasks/Base.antt =====
-- What the operations on a task return, and the events that they raise.
use patrice.Prelude.{ℕ, Option, some, List}
use patrice.Db.Rows.{Task, TaskView, NotificationType, NotificationEvent}

-- The view, and the users to ping.
abbrev pub Reply : Type 0
Reply = TaskView × List ℕ

-- The events that these operations raise about a task.
abbrev pub task_event :
    Task
    → NotificationType
    → (sender : ℕ) → List (Option ℕ)
    → (payload : List ℕ) → NotificationEvent
task_event t type sender recipients payload = record {
  organization_id = t.organization_id;
  type = type;
  subject_id = t.id;
  sender_user_id = some sender;
  recipient_user_ids = recipients;
  payload = payload;
}
