-- ===== src/Submissions/Cached.antt =====
-- The status cache after a submission is made, reviewed or retired.
use patrice.Prelude.{
  ℕ, ◌≡◌, ◌≢◌, Option-cases, none, ◌++◌, ◌+◌, false, true, update_where, ◌==◌, count, inl, inr,
  refl, Bool, Option, none, some, List, [], ◌∷◌, arith, String,
}
use patrice.RequestTemplate.Data.{Text}
use patrice.Db.Rows.{
  Db, Task, TaskClaimant, Submission, Decision, Value, system, submitted_version,
  submission_retired,
}
use patrice.Db.Tx.{ok, Result-cases}
use patrice.Db.Tables.{latest_any, update_slot, find_slot, recompute, write_status}
use patrice.Db.Emit.{add_message, create_system_message, log_activity, emit, requester_id}
use patrice.Tasks.Status.{IsCached, Recomputed, Recomputed-IsCached}
use patrice.Submissions.Answers.{AnswerInput, SubmissionView, save_answers, save_answer}
use patrice.Submissions.Submit.{
  create_submission, mark_submitted, write_submission, new_submission, not_awaited, number_after,
}
use patrice.Submissions.Review.{load_review, review, move_on, moved, is_version, reply}
use patrice.Submissions.Retire.{
  load_retire, retire_row, retire_submission, retired_submission, retire_thread, revert_slot,
}

abbrev pub SameCore : Db → Db → Type 0
SameCore a b = (a.tasks ≡ b.tasks) × (a.claimants ≡ b.claimants) × (a.submissions ≡ b.submissions)

save_answers-SameCore :
    (organization id : ℕ) (inputs : List AnswerInput) (db : Db)
    → SameCore (save_answers organization id inputs db) db
unfolding save_answers save_answer
save_answers-SameCore organization id [] db = (refl, refl, refl)
save_answers-SameCore organization id (a ∷ rest) db =
    save_answers-SameCore organization id rest (save_answer organization id a db)

module _ (seen : Db) (now id : ℕ) (db : Db) where
  pub review_loads :
      (actor : ℕ) (d : Decision) (remark : Option String) {r : List ℕ} {db' : Db}
      → review seen now id actor d remark db ≡ ok (r, db')
      → (o : Submission × ℕ) × (load_review seen now id ≡ ok o)
  unfolding review
  review_loads actor d remark h = elim (Result-cases (load_review seen now id)) [
    | inl (o, e) ↦ (o, e)
    | inr (x, e) ↦ absurd (ground arith)
  ]

  pub review_recomputes :
      (actor : ℕ) (d : Decision) (remark : Option String) {s : Submission} {organization : ℕ}
      {r : List ℕ} {db' : Db}
      → load_review seen now id ≡ ok (s, organization)
      → review seen now id actor d remark db ≡ ok (r, db')
      → (count (is_version id s.version) db.submissions ≢ 0)
        × Recomputed now s.task_id
            (reply now id s actor d remark (moved now id s.version actor d db))
            db'
  unfolding review move_on log_activity emit recompute write_status
  review_recomputes actor d remark e h = ground arith

  abbrev pub retire_mid : Submission → (actor : ℕ) → String → Db
  retire_mid s actor reason =
      let audit =
        add_message now s.task_id system none none none
          (submission_retired s.submission_no s.claimant_user_id actor reason) db in
      revert_slot s.task_id s.claimant_user_id (
        retire_thread now id (record audit {
          submissions = update_where (λ x. x.id == id) (retired_submission now) audit.submissions;
        }))

  pub retire_loads :
      (actor : ℕ) (reason : String) {r : Unit {0}} {db' : Db}
      → retire_submission seen now id actor reason db ≡ ok (r, db')
      → (o : Submission × ℕ) × (load_retire seen now id ≡ ok o)
  unfolding retire_submission
  retire_loads actor reason h = elim (Result-cases (load_retire seen now id)) [
    | inl (o, e) ↦ (o, e)
    | inr (x, e) ↦ absurd (ground arith)
  ]

  pub retire_recomputes :
      (actor : ℕ) (reason : String) {s : Submission} {organization : ℕ} {r : Unit {0}} {db' : Db}
      → load_retire seen now id ≡ ok (s, organization)
      → retire_submission seen now id actor reason db ≡ ok (r, db')
      → Recomputed now s.task_id (retire_mid s actor reason) db'
  unfolding retire_submission retire_row log_activity recompute write_status
  retire_recomputes actor reason e h = ground arith

-- Whatever the reviewer had read of the task: a review that succeeds leaves the status cache of the
-- submission's task as its slots and submissions give it.
pub review-IsCached :
    (seen : Db) (now id actor : ℕ) (d : Decision) (remark : Option String) (db : Db)
    {s : Submission} {organization : ℕ} {r : List ℕ} {db' : Db}
    → load_review seen now id ≡ ok (s, organization)
    → review seen now id actor d remark db ≡ ok (r, db')
    → IsCached s.task_id db'
review-IsCached seen now id actor d remark db {db' = db'} e h =
    Recomputed-IsCached now _ _ db' (review_recomputes seen now id db actor d remark e h).1

-- The tables with the new submission and its answers.
abbrev pub with_answers : (now id : ℕ) → Task → (user : ℕ) → List AnswerInput → Db → Db
with_answers now id t user inputs db = save_answers t.organization_id db.next_id inputs (record db {
  submissions =
      db.submissions ++ new_submission now db.next_id id user (latest_any id user db) ∷ [];
  next_id = db.next_id + 1;
})

abbrev pub submitted_db :
    (now id : ℕ) → Task → (user : ℕ) → List AnswerInput → TaskClaimant → Db → Db
submitted_db now id t user inputs c db =
    add_message now id system none none (some db.next_id)
      (submitted_version user (number_after (latest_any id user db)))
      (update_slot c.id (λ x. record x { has_submitted = true })
        (with_answers now id t user inputs db))

pub submitted_db-submissions :
    (now id : ℕ) (t : Task) (user : ℕ) (inputs : List AnswerInput) (c : TaskClaimant) (db : Db)
    → (submitted_db now id t user inputs c db).submissions
      ≡ db.submissions ++ new_submission now db.next_id id user (latest_any id user db) ∷ []
unfolding add_message update_slot
submitted_db-submissions now id t user inputs c db =
    (save_answers-SameCore t.organization_id db.next_id inputs _).2

module _ (string_of : Value → Text) (number_of : Value → ℕ) (is_finite is_integer : ℕ → Bool)
    (less : ℕ → ℕ → Bool) where
  pub write_slot :
      (seen : Db) (now id : ℕ) (t : Task) (user : ℕ) (inputs : List AnswerInput) (db : Db)
      {r : SubmissionView × List ℕ} {db' : Db}
      → write_submission string_of number_of is_finite is_integer less seen now id t user inputs db
        ≡ ok (r, db')
      → (not_awaited (latest_any id user db) ≡ false)
        × ((c : TaskClaimant) × (find_slot id user (with_answers now id t user inputs db) ≡ some c))
  unfolding write_submission create_submission mark_submitted
  write_slot seen now id t user inputs db h =
      elim (Option-cases (find_slot id user (with_answers now id t user inputs db))) [
        | inl gone ↦ absurd (ground (arith, gone))
        | inr (c, found) ↦ (ground arith, (c, found))
      ]

  pub write_recomputes :
      (seen : Db) (now id : ℕ) (t : Task) (user : ℕ) (inputs : List AnswerInput) (c : TaskClaimant)
      (db : Db) {r : SubmissionView × List ℕ} {db' : Db}
      → find_slot id user (with_answers now id t user inputs db) ≡ some c
      → write_submission string_of number_of is_finite is_integer less seen now id t user inputs db
        ≡ ok (r, db')
      → Recomputed now id (submitted_db now id t user inputs c db) db'
  unfolding write_submission create_submission mark_submitted create_system_message recompute
      log_activity requester_id emit write_status
  write_recomputes seen now id t user inputs c db found h = ground arith
