-- ===== src/Submissions/Review.antt =====
-- api/src/submissions/submissions.service.ts: review.
use patrice.Prelude.{
  ℕ, ◌+◌, ltb, Bool, true, false, not, ◌&&◌, Option, none, some, List, [], ◌∷◌, count, update_where,
  is_some, opt_eq, ◌==◌, if◌then◌else◌, String,
}
use patrice.TaskStatus.{SubmissionState}
use patrice.Db.Rows.{
  Submission, Decision, approve, return, MessageKind, comment, system, text, Message,
  reviewed_version, submission_reviewed, NotificationType, Db, submission_not_found,
  submission_is_retired, invalid_transition, stale_submission, not_found, conflict, fault,
}
use patrice.Db.Tx.{Result, ok, err, Tx, ◌>>=◌, ◌>>◌, modify, lift, refuse_if}
use patrice.Db.Tables.{is_retired, find_task, find_submission, recompute}
use patrice.Db.Emit.{add_message, log_activity, emit}

abbrev pub is_review : SubmissionState → Bool
is_review SubmissionState.review = true
is_review _ = false

-- `DECISION_OUTCOME`: the verb of its message is told by the decision.
abbrev pub outcome : Decision → SubmissionState
outcome approve = SubmissionState.approved
outcome return = SubmissionState.revising
outcome Decision.reject = SubmissionState.rejected

-- `REVIEW_DECISION_TYPE`
abbrev pub decision_type : Decision → NotificationType
decision_type approve = NotificationType.reviewed_approved
decision_type return = NotificationType.reviewed_returned
decision_type Decision.reject = NotificationType.reviewed_rejected

abbrev pub is_version : (id version : ℕ) → Submission → Bool
is_version id version s = s.id == id && s.version == version

abbrev pub reviewed : (now actor : ℕ) → Decision → Submission → Submission
reviewed now actor decision s = record s {
  state = outcome decision;
  reviewed_by = some actor;
  reviewed_at = some now;
  version = s.version + 1;
}

unfoldable pub moved : (now id version actor : ℕ) → Decision → Db → Db
moved now id version actor decision db = record db {
  submissions = update_where (is_version id version) (reviewed now actor decision) db.submissions;
}

-- The version-guarded `submission.updateMany`, and the count of what it changed.
unfoldable pub move_on : (now id version actor : ℕ) → Decision → Tx ℕ
move_on now id version actor decision db =
    ok (count (is_version id version) db.submissions, moved now id version actor decision db)

abbrev pub is_system : MessageKind → Bool
is_system system = true
is_system comment = false

abbrev pub opens_thread : (task submission : ℕ) → Message → Bool
opens_thread task submission m =
    m.task_id == task
    && (opt_eq m.submission_id (some submission)
        && (not (is_some m.parent_message_id) && is_system m.kind))

-- The message with the lesser `createdAt`; the earlier row if they are equal.
abbrev pub older : Message → Option Message → Message
older m none = m
older m (some later) = if ltb later.created_at m.created_at then later else m

-- `findFirst({ where, orderBy: { createdAt: 'asc' } })`
unfoldable pub first_in : (Message → Bool) → List Message → Option Message
first_in p [] = none
first_in p (m ∷ rest) = let later = first_in p rest in if p m then some (older m later) else later

-- M1, the message that opens the submission's thread.
unfoldable pub thread_message : (task submission : ℕ) → Db → Option ℕ
thread_message task submission db = elim (first_in (opens_thread task submission) db.messages) [
  | none ↦ none
  | some m ↦ some m.id
]

-- A comment that is absent or the empty text is `none`.
unfoldable pub add_comment :
    (now task submission actor : ℕ) → (parent : Option ℕ) → Option String → Db → Db
add_comment now task submission actor parent none db = db
add_comment now task submission actor parent (some body) db =
    add_message now task comment (some actor) parent (some submission) (text body) db

-- The replies to M1: the decision, and the reviewer's comment.
unfoldable pub reply :
    (now submission : ℕ) → Submission → (actor : ℕ) → Decision → Option String → Db → Db
reply now submission s actor decision remark db =
    let m1 = thread_message s.task_id submission db in
    add_comment now s.task_id submission actor m1 remark (
      add_message now s.task_id system none m1 (some submission)
        (reviewed_version actor decision s.submission_no) db)

module _ (seen : Db) (now submission_id : ℕ) where
  -- What is read outside of the transaction, with the organization of the submission's task.
  unfoldable pub load_review : Result (Submission × ℕ)
  load_review = elim (find_submission submission_id seen) [
    | none ↦ err (not_found submission_not_found)
    | some s ↦
        if is_retired s.lifecycle_state
        then err (conflict submission_is_retired)
        else if not (is_review s.state)
        then err (conflict invalid_transition)
        else elim (find_task s.task_id seen) [
          | none ↦ err fault
          | some t ↦ ok (s, t.organization_id)
        ]
  ]

  -- The users to ping. The view is read after the commit by `get`.
  unfoldable pub review : (actor : ℕ) → Decision → (comment : Option String) → Tx (List ℕ)
  review actor decision remark = do
    (s, organization) ← lift load_review
    updated ← move_on now submission_id s.version actor decision
    refuse_if (updated == 0) (conflict stale_submission)
    modify (reply now submission_id s actor decision remark)
    status ← recompute now s.task_id
    log_activity organization actor submission_id
        (submission_reviewed s.task_id submission_id decision status)
    emit (record {
      organization_id = organization;
      type = decision_type decision;
      subject_id = submission_id;
      sender_user_id = some actor;
      recipient_user_ids = some s.claimant_user_id ∷ [];
      payload = s.task_id ∷ submission_id ∷ [];
    })
