-- ===== src/Messages/Tests.antt =====
-- A thread of a submission, a reply in it, and the submission's retirement.
use patrice.Prelude.{ℕ, ◌≡◌, refl, true, false, none, some, [], ◌∷◌, arith, any}
use patrice.TaskStatus.{SubmissionState, compute_min_rule_status}
use patrice.Db.Rows.{
  LifecycleState, Message, MessageKind, submitted_version, Db, reply_to_reply, unprocessable,
}
use patrice.Db.Tx.{Result, ok, err}
use patrice.Db.Tables.{
  no_directory, find_task, find_submission, load_active_task, recompute, write_status, update_task,
  rolled_status, active_claimant_ids, slots_of, slot_states, latest_active, latest_in,
}
use patrice.Db.Emit.{
  add_message, log_activity, compute_recipients, recipients_from, emit, max_seq,
  insert_notification, insert_all, requester_id, claimant_recipients,
}
use patrice.Submissions.Retire.{
  retire_row, retire_thread, revert_slot, load_retire, retire_submission, in_thread,
}
use patrice.Messages.{
  find_message, load_parent, thread_participants, notify_message, post, write_message, create,
}
use patrice.Messages.Cascade.{is_live_reply, reply_outlives}
use patrice.Messages.Threads.{IsFlat, create-IsFlat}

-- Submission 11 with its first message, 12.
abbrev start : Db
start = record {
  tasks =
      record {
        id = 1;
        organization_id = 9;
        name = "Banner";
        description = "Draw it";
        division_id = 2;
        team_id = none;
        requester_user_id = 4;
        openings = 1;
        claims_closed = false;
        status_cache = none;
        lifecycle_state = LifecycleState.active;
        retired_at = none;
        version = 0;
        created_at = 0;
        updated_at = 0;
      }
      ∷ [];
  claimants =
      record {
        id = 10;
        task_id = 1;
        user_id = 5;
        joined_at = 3;
        has_submitted = true;
        left_at = none;
      }
      ∷ [];
  divisions = [];
  users = [];
  submissions =
      record {
        id = 11;
        task_id = 1;
        claimant_user_id = 5;
        submission_no = 1;
        prev_submission_id = none;
        state = SubmissionState.review;
        submitted_at = 20;
        reviewed_by = none;
        reviewed_at = none;
        lifecycle_state = LifecycleState.active;
        retired_at = none;
        version = 0;
      }
      ∷ [];
  messages =
      record {
        id = 12;
        task_id = 1;
        kind = MessageKind.system;
        sender_user_id = none;
        parent_message_id = none;
        submission_id = some 11;
        body = submitted_version 5 1;
        lifecycle_state = LifecycleState.active;
        retired_at = none;
        edited_at = none;
        version = 0;
        created_at = 20;
      }
      ∷ [];
  activities = [];
  notifications = [];
  answers = [];
  attachments = [];
  templates = [];
  directory = no_directory;
  next_id = 13;
}

abbrev after : {A : Type 0} → Result (A × Db) → Db
after (ok (a, db)) = db
after (err e) = start

abbrev replied : Db
replied = after (create start 30 1 4 (some 12) "Bigger" start)

abbrev cleared : Db
cleared = after (retire_submission replied 40 11 4 "Wrong task" replied)

messages : Unit {0}
unfolding find_task find_submission load_active_task recompute write_status update_task
    rolled_status active_claimant_ids slots_of slot_states latest_active latest_in
    compute_min_rule_status add_message log_activity compute_recipients recipients_from emit max_seq
    insert_notification insert_all requester_id claimant_recipients retire_row retire_thread
    revert_slot load_retire retire_submission find_message load_parent thread_participants
    notify_message post write_message create
messages = tt

reply_refused : create replied 31 1 5 (some 13) "Why?" replied ≡ err (unprocessable reply_to_reply)
unfolding messages
reply_refused = refl

reply_outlives_example :
    (any (in_thread 11) cleared.messages ≡ false)
    × (any (is_live_reply 13 12) cleared.messages ≡ true)
unfolding messages
reply_outlives_example =
    reply_outlives start replied 30 40 1 4 12 11 4 "Bigger" "Wrong task" start refl refl refl

create-IsFlat_example :
    IsFlat replied
    × ((p : ℕ)
        → some 12 ≡ some p
        → (m : Message) × (find_message p replied ≡ some m)
          × (m.task_id ≡ 1)
          × (m.parent_message_id ≡ none))
unfolding messages
create-IsFlat_example =
    create-IsFlat start 30 1 4 (some 12) "Bigger" start (λ p e. ground arith, tt) (λ p e. refl) refl
