-- ===== src/Submissions/Submit.antt =====
-- api/src/submissions/submissions.service.ts: submit.
use patrice.Prelude.{
  ℕ, ◌+◌, Bool, true, false, not, ◌&&◌, Option, none, some, List, [], ◌∷◌, ◌++◌, map, if◌then◌else◌,
}
use patrice.RequestTemplate.Data.{Text, ErrorEntry}
use patrice.RequestTemplate.{is_nil, validate_submission}
use patrice.TaskStatus.{SubmissionState}
use patrice.Db.Rows.{
  active, Task, Submission, submitted_version, submission_submitted, NotificationType, Value,
  TemplateRow, Db, not_claimed, already_submitted, request_template_not_found, invalid_submission,
  not_found, conflict, unprocessable, fault,
}
use patrice.Db.Tx.{ok, Tx, pure, ◌>>=◌, ◌>>◌, gets, modify, lift, refuse_if, or_throw}
use patrice.Db.Tables.{
  is_active, find_slot, holds_slot, find_submission, latest_any, update_slot, recompute,
  load_active_task,
}
use patrice.Db.Emit.{create_system_message, log_activity, emit, requester_id}
use patrice.Submissions.Answers.{
  AnswerInput, type_by_id, to_validator_answer, find_template, lookup_attachment, save_answers,
  SubmissionView, submission_view,
}

abbrev pub is_revising : SubmissionState → Bool
is_revising SubmissionState.revising = true
is_revising _ = false

-- `latest && latest.lifecycleState === active`
abbrev pub active_latest : Option Submission → Option Submission
active_latest none = none
active_latest (some s) = if is_active s.lifecycle_state then some s else none

-- The active latest version is not waiting for a resubmission.
abbrev pub not_awaited : Option Submission → Bool
not_awaited none = false
not_awaited (some s) = is_active s.lifecycle_state && not (is_revising s.state)

abbrev pub number_after : Option Submission → ℕ
number_after none = 1
number_after (some s) = s.submission_no + 1

abbrev pub id_of : Option Submission → Option ℕ
id_of none = none
id_of (some s) = some s.id

unfoldable pub new_submission : (now id task user : ℕ) → (latest : Option Submission) → Submission
new_submission now id task user latest = record {
  id = id;
  task_id = task;
  claimant_user_id = user;
  submission_no = number_after latest;
  prev_submission_id = id_of (active_latest latest);
  state = SubmissionState.review;
  submitted_at = now;
  reviewed_by = none;
  reviewed_at = none;
  lifecycle_state = active;
  retired_at = none;
  version = 0;
}

-- `submission.create`, with the id that it gets.
unfoldable pub create_submission : (now task user : ℕ) → Option Submission → Tx ℕ
create_submission now task user latest db = ok (
  db.next_id,
  record db {
    submissions = db.submissions ++ new_submission now db.next_id task user latest ∷ [];
    next_id = db.next_id + 1;
  },
)

-- `taskClaimant.update` by its task and user: `hasSubmitted` becomes true.
unfoldable pub mark_submitted : (task user : ℕ) → Tx (Unit {0})
mark_submitted task user = do
  slot ← λ db. or_throw fault (find_slot task user db) db
  modify (update_slot slot.id (λ c. record c { has_submitted = true }))

-- The conversions of JavaScript values, and the tests on its numbers.
module _ (string_of : Value → Text) (number_of : Value → ℕ) (is_finite is_integer : ℕ → Bool)
    (less : ℕ → ℕ → Bool) where
  unfoldable pub answer_errors_of : Task → TemplateRow → List AnswerInput → Db → List ErrorEntry
  answer_errors_of task template inputs seen =
      validate_submission is_finite is_integer less (lookup_attachment task.organization_id seen)
        template.questions
        (map
          (λ a.
            to_validator_answer string_of number_of (type_by_id a.question_id template.questions) a)
          inputs)

  module _ (seen : Db) (now task_id : ℕ) where
    -- What is checked outside of the transaction.
    unfoldable pub admit : (user : ℕ) → List AnswerInput → Tx Task
    admit user inputs = do
      task ← lift (load_active_task task_id seen)
      refuse_if (not (holds_slot (find_slot task_id user seen))) (conflict not_claimed)
      template ← or_throw (not_found request_template_not_found) (find_template task_id seen)
      refuse_if (not (is_nil (answer_errors_of task template inputs seen)))
          (unprocessable invalid_submission)
      pure task

    -- The body of the transaction.
    unfoldable pub write_submission :
        Task → (user : ℕ) → List AnswerInput → Tx (SubmissionView × List ℕ)
    write_submission task user inputs = do
      latest ← gets (latest_any task_id user)
      refuse_if (not_awaited latest) (conflict already_submitted)
      id ← create_submission now task_id user latest
      modify (save_answers task.organization_id id inputs)
      mark_submitted task_id user
      create_system_message now task_id (submitted_version user (number_after latest)) (some id)
          none
      recompute now task_id
      log_activity task.organization_id user id
          (submission_submitted task_id id user (number_after latest))
      requester ← requester_id task_id
      notified ← emit (record {
        organization_id = task.organization_id;
        type = NotificationType.submitted;
        subject_id = id;
        sender_user_id = some user;
        recipient_user_ids = requester ∷ [];
        payload = task_id ∷ id ∷ user ∷ [];
      })
      row ← λ db. or_throw fault (find_submission id db) db
      view ← gets (submission_view row)
      pure (view, notified)

    unfoldable pub submit : (user : ℕ) → List AnswerInput → Tx (SubmissionView × List ℕ)
    submit user inputs = do task ← admit user inputs; write_submission task user inputs
