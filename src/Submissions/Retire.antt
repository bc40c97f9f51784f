-- ===== src/Submissions/Retire.antt =====
-- api/src/submissions/submissions.service.ts: retireSubmission.
use patrice.Prelude.{
  ℕ, ◌+◌, Bool, ◌&&◌, none, some, update_where, opt_eq, ◌==◌, if◌then◌else◌, String, false,
}
use patrice.Db.Rows.{
  retired, Submission, Message, submission_retired, system, submission_retired_row, Db,
  submission_not_found, already_retired, not_found, conflict, fault,
}
use patrice.Db.Tx.{Result, ok, err, Tx, ◌>>=◌, ◌>>◌, modify, lift, or_throw}
use patrice.Db.Tables.{is_active, is_retired, is_slot_of, find_task, find_submission, recompute}
use patrice.Db.Emit.{add_message, log_activity}

abbrev pub retired_submission : (now : ℕ) → Submission → Submission
retired_submission now s = record s {
  lifecycle_state = retired;
  retired_at = some now;
  version = s.version + 1;
}

-- `submission.update` by its id, which throws where there is no such row.
unfoldable pub retire_row : (now submission : ℕ) → Tx (Unit {0})
retire_row now submission = do
  row ← λ db. or_throw fault (find_submission submission db) db
  modify λ db. record db {
    submissions = update_where (λ s. s.id == submission) (retired_submission now) db.submissions;
  }

abbrev pub in_thread : (submission : ℕ) → Message → Bool
in_thread submission m = opt_eq m.submission_id (some submission) && is_active m.lifecycle_state

-- The cascade to the messages of the submission's thread.
unfoldable pub retire_thread : (now submission : ℕ) → Db → Db
retire_thread now submission db = record db {
  messages =
      update_where (in_thread submission)
        (λ m. record m { lifecycle_state = retired; retired_at = some now }) db.messages;
}

unfoldable pub revert_slot : (task user : ℕ) → Db → Db
revert_slot task user db = record db {
  claimants =
      update_where (is_slot_of task user) (λ c. record c { has_submitted = false }) db.claimants;
}

module _ (seen : Db) (now submission_id : ℕ) where
  unfoldable pub load_retire : Result (Submission × ℕ)
  load_retire = elim (find_submission submission_id seen) [
    | none ↦ err (not_found submission_not_found)
    | some s ↦
        if is_retired s.lifecycle_state
        then err (conflict already_retired)
        else elim (find_task s.task_id seen) [
          | none ↦ err fault
          | some t ↦ ok (s, t.organization_id)
        ]
  ]

  -- The view is read after the commit by `get`.
  unfoldable pub retire_submission : (actor : ℕ) → (reason : String) → Tx (Unit {0})
  retire_submission actor reason = do
    (s, organization) ← lift load_retire
    modify (
        add_message now s.task_id system none none none
          (submission_retired s.submission_no s.claimant_user_id actor reason))
    retire_row now submission_id
    modify (retire_thread now submission_id)
    modify (revert_slot s.task_id s.claimant_user_id)
    recompute now s.task_id
    log_activity organization actor submission_id
        (submission_retired_row s.task_id submission_id s.claimant_user_id reason)
