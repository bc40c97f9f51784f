-- ===== src/Submissions/Versions.antt =====
-- The versions of a submission: one review for each version that was read, and the numbers that
-- submissions of a claimant get.
use patrice.Prelude.{
  ℕ, ◌<◌, ◌≡◌, refl, ◌∙◌, Bool, true, false, ◌&&◌, Option, none, some, List, [], ◌∷◌, ◌++◌, arith,
  All, All-map, count, update_where, String,
}
use patrice.RequestTemplate.Data.{Text}
use patrice.Db.Rows.{Db, Task, Submission, Decision, Value, conflict, stale_submission}
use patrice.Db.Tx.{ok, err, >>=-eq-ok}
use patrice.Db.Tables.{latest_in, latest_any, latest_active, is_submission_of, is_active}
use patrice.Db.Emit.{add_message}
use patrice.Tasks.Status.{IsCached, Recomputed-IsCached}
use patrice.Submissions.Answers.{AnswerInput, SubmissionView}
use patrice.Submissions.Submit.{
  admit, submit, write_submission, new_submission, number_after, not_awaited,
}
use patrice.Submissions.Review.{
  load_review, review, move_on, moved, reviewed, is_version, reply, add_comment,
}
use patrice.Submissions.Cached.{
  review_recomputes, write_slot, write_recomputes, submitted_db-submissions,
}

count-reviewed :
    (now id version actor : ℕ) (d : Decision) (l : List Submission)
    → count (is_version id version) (update_where (is_version id version) (reviewed now actor d) l)
      ≡ 0
count-reviewed now id version actor d [] = refl
count-reviewed now id version actor d (s ∷ l) =
    ground (arith, count-reviewed now id version actor d l)

reply-submissions :
    (now id : ℕ) (s : Submission) (actor : ℕ) (d : Decision) (remark : Option String) (db : Db)
    → (reply now id s actor d remark db).submissions ≡ db.submissions
unfolding reply add_comment add_message
reply-submissions now id s actor d none db = refl
reply-submissions now id s actor d (some remark) db = refl

-- Two reviewers who read the same version of a submission: once the first has reviewed it, the
-- second is refused as stale, whatever either decides.
pub review_once :
    (seen seen' : Db) (now now' id actor actor' : ℕ) (d d' : Decision)
    (remark remark' : Option String) (db : Db) (s s' : Submission) (organization organization' : ℕ)
    {r : List ℕ} {db' : Db}
    → load_review seen now id ≡ ok (s, organization)
    → load_review seen' now' id ≡ ok (s', organization')
    → s'.version ≡ s.version
    → review seen now id actor d remark db ≡ ok (r, db')
    → review seen' now' id actor' d' remark' db' ≡ err (conflict stale_submission)
unfolding review move_on moved
review_once seen seen' now now' id actor actor' d d' remark remark' db s s' o o' {r} {db'} e e' same
      h =
    let (_, (_, _, _, _, subs)) = review_recomputes seen now id db actor d remark e h in
    let written : db'.submissions
        ≡ update_where (is_version id s.version) (reviewed now actor d) db.submissions =
      subs ∙ reply-submissions now id s actor d remark (moved now id s.version actor d db) in
    let gone : count (is_version id s'.version) db'.submissions ≡ 0 =
      rw (same, written) (count-reviewed now id s.version actor d db.submissions) in
    ground (arith, gone)

latest_in_greatest :
    (p : Submission → Bool) (l : List Submission)
    → All (λ s. p s ≡ true → s.submission_no < number_after (latest_in p l)) l
unfolding latest_in
latest_in_greatest p [] = tt
latest_in_greatest p (s ∷ l) =
    (λ e. ground arith, All-map _ _ (λ x h e. ground (arith, h e)) l (latest_in_greatest p l))

latest_in-snoc :
    (p : Submission → Bool) (l : List Submission) (x : Submission)
    → p x ≡ true
    → All (λ s. p s ≡ true → s.submission_no < x.submission_no) l
    → latest_in p (l ++ x ∷ []) ≡ some x
unfolding latest_in
latest_in-snoc p [] x e h = ground arith
latest_in-snoc p (s ∷ l) x e (h, hs) = ground (arith, latest_in-snoc p l x e hs)

latest_active-snoc :
    (now id task user : ℕ) (db db' : Db)
    → db'.submissions
      ≡ db.submissions ++ new_submission now id task user (latest_any task user db) ∷ []
    → latest_active task user db' ≡ some (new_submission now id task user (latest_any task user db))
unfolding latest_active latest_any new_submission
latest_active-snoc now id task user db db' e =
    let new = new_submission now id task user (latest_any task user db) in
    rw e (
      latest_in-snoc (λ s. is_submission_of task user s && is_active s.lifecycle_state)
        db.submissions new (ground arith)
        (All-map _ _ (λ s h e'. h (ground arith)) db.submissions
          (latest_in_greatest (is_submission_of task user) db.submissions)))

module _ (string_of : Value → Text) (number_of : Value → ℕ) (is_finite is_integer : ℕ → Bool)
    (less : ℕ → ℕ → Bool) where
  submit_writes :
      (seen : Db) (now id user : ℕ) (inputs : List AnswerInput) (db : Db)
      {r : SubmissionView × List ℕ} {db' : Db}
      → submit string_of number_of is_finite is_integer less seen now id user inputs db
        ≡ ok (r, db')
      → (t : Task) × (write_submission string_of number_of is_finite is_integer less seen now id t
            user inputs db
          ≡ ok (r, db'))
  unfolding submit admit
  submit_writes seen now id user inputs db h =
      let (t, db1, admitted, run) =
        >>=-eq-ok (admit string_of number_of is_finite is_integer less seen now id user inputs)
          (λ t.
            write_submission string_of number_of is_finite is_integer less seen now id t user
              inputs)
          db h in
      let same : db1 ≡ db = ground arith in (t, rw same at run)

  -- A submit that succeeds finds no active latest version but a returned one. It makes a version in
  -- review, with a number above every number that the claimant has used on the task, retired
  -- versions included. That version is the claimant's latest active one, and the status cache of the
  -- task takes it into account.
  pub submit_versions :
      (seen : Db) (now id user : ℕ) (inputs : List AnswerInput) (db : Db)
      {r : SubmissionView × List ℕ} {db' : Db}
      → submit string_of number_of is_finite is_integer less seen now id user inputs db
        ≡ ok (r, db')
      → (not_awaited (latest_any id user db) ≡ false)
        × (latest_active id user db'
            ≡ some (new_submission now db.next_id id user (latest_any id user db)))
        × All
            (λ s.
              is_submission_of id user s ≡ true
              → s.submission_no < number_after (latest_any id user db))
            db.submissions
        × IsCached id db'
  unfolding latest_any
  submit_versions seen now id user inputs db {r} {db'} h =
      let (t, run) = submit_writes seen now id user inputs db h in
      let (awaited, (c, found)) =
        write_slot string_of number_of is_finite is_integer less seen now id t user inputs db run in
      let done =
        write_recomputes string_of number_of is_finite is_integer less seen now id t user inputs c
          db found run in
      let (_, _, _, _, subs) = done in
      (
        awaited,
        latest_active-snoc now db.next_id id user db db'
            (subs ∙ submitted_db-submissions now id t user inputs c db),
        latest_in_greatest (is_submission_of id user) db.submissions,
        Recomputed-IsCached now id _ db' done,
      )
