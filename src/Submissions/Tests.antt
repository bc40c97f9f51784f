-- ===== src/Submissions/Tests.antt =====
-- A submission is made, returned, made again, and retired.
use patrice.Prelude.{
  ℕ, ◌<◌, ◌≡◌, refl, true, false, none, some, List, [], ◌∷◌, ◌++◌, All, any, keep, map, not, ◌==◌,
}
use patrice.RequestTemplate.Data.{Text, QuestionType}
use patrice.RequestTemplate.{
  validate_submission, unknown_errors, each_question, by_question, question_codes, answer_errors,
  value_empty, is_blank, is_space, text_errors, attachment_codes,
}
use patrice.TaskStatus.{compute_min_rule_status}
use patrice.Db.Rows.{
  LifecycleState, Decision, Value, text_value, Submission, Db, conflict, stale_submission,
  already_submitted,
}
use patrice.Db.Tx.{Result, ok, err}
use patrice.Db.Tables.{
  no_directory, find_task, find_slot, find_submission, load_active_task, recompute, write_status,
  update_task, update_slot, rolled_status, active_claimant_ids, slots_of, slot_states,
  latest_active, latest_any, latest_in, is_submission_of, is_slot_of,
}
use patrice.Db.Emit.{
  add_message, create_system_message, log_activity, compute_recipients, recipients_from, emit,
  max_seq, insert_notification, insert_all, requester_id,
}
use patrice.Tasks.Status.{IsCached}
use patrice.Submissions.Answers.{
  AnswerInput, SubmissionView, type_by_id, as_text, to_validator_answer, find_template,
  lookup_attachment, reown, save_answer, save_answers, answer_views, submission_view,
}
use patrice.Submissions.Submit.{
  new_submission, create_submission, mark_submitted, answer_errors_of, admit, write_submission,
  submit, number_after, not_awaited,
}
use patrice.Submissions.Review.{
  moved, move_on, first_in, thread_message, add_comment, reply, load_review, review,
}
use patrice.Submissions.Retire.{
  retire_row, retire_thread, revert_slot, load_retire, retire_submission,
}
use patrice.Submissions.Cached.{review-IsCached}
use patrice.Submissions.Versions.{review_once, submit_versions}
use patrice.Submissions.Thread.{
  names, cascaded, retirement_note, is_submitted_slot, is_live_version, retire_cascades,
}

abbrev start : Db
start = record {
  tasks =
      record {
        id = 1;
        organization_id = 9;
        name = "Banner";
        description = "Draw it";
        division_id = 2;
        team_id = none;
        requester_user_id = 4;
        openings = 1;
        claims_closed = false;
        status_cache = none;
        lifecycle_state = LifecycleState.active;
        retired_at = none;
        version = 0;
        created_at = 0;
        updated_at = 0;
      }
      ∷ [];
  claimants =
      record {
        id = 10;
        task_id = 1;
        user_id = 5;
        joined_at = 3;
        has_submitted = false;
        left_at = none;
      }
      ∷ [];
  divisions = [];
  users = [];
  submissions = [];
  messages = [];
  activities = [];
  notifications = [];
  answers = [];
  attachments = [];
  templates =
      record {
        id = 4;
        owner_task_id = 1;
        questions =
            record {
              id = 1;
              type = QuestionType.text;
              required = true;
              constraints = record {
                min_chars = none;
                max_chars = none;
                kind_is_integer = false;
                min = none;
                max = none;
                multi = false;
                options = [];
                min_select = none;
                max_select = none;
                allowed_types = [];
                max_files = none;
              };
            }
            ∷ [];
      }
      ∷ [];
  directory = no_directory;
  next_id = 11;
}

abbrev inputs : List AnswerInput
inputs = record { question_id = 1; value = text_value (104 ∷ []); attachment_ids = none } ∷ []

abbrev string_of : Value → Text
string_of (text_value s) = s
string_of v = []

abbrev after : {A : Type 0} → Result (A × Db) → Db
after (ok (a, db)) = db
after (err e) = start

abbrev send : Db → Result ((SubmissionView × List ℕ) × Db)
send db = submit string_of (λ v. 0) (λ n. true) (λ n. true) (λ m n. false) db 20 1 5 inputs db

abbrev sent : Db
sent = after (send start)

abbrev returned : Db
returned = after (review sent 30 11 4 Decision.return (some "Bigger") sent)

abbrev resent : Db
resent = after (send returned)

submissions : Unit {0}
unfolding find_task find_slot find_submission load_active_task recompute write_status update_task
    update_slot rolled_status active_claimant_ids slots_of slot_states latest_active latest_any
    latest_in compute_min_rule_status add_message create_system_message log_activity
    compute_recipients recipients_from emit max_seq insert_notification insert_all requester_id
    type_by_id as_text to_validator_answer find_template lookup_attachment reown save_answer
    save_answers answer_views submission_view new_submission create_submission mark_submitted
    answer_errors_of admit write_submission submit moved move_on first_in thread_message add_comment
    reply load_review review retire_row retire_thread revert_slot load_retire retire_submission
    validate_submission unknown_errors each_question by_question question_codes answer_errors
    value_empty is_blank is_space text_errors attachment_codes
submissions = tt

sent_twice : send sent ≡ err (conflict already_submitted)
unfolding submissions
sent_twice = refl

review-IsCached_example : IsCached 1 returned
unfolding submissions
review-IsCached_example =
    review-IsCached sent 30 11 4 Decision.return (some "Bigger") sent refl refl

review_once_example :
    review sent 31 11 6 Decision.approve none returned ≡ err (conflict stale_submission)
unfolding submissions
review_once_example =
    review_once sent sent 30 31 11 4 6 Decision.return Decision.approve (some "Bigger") none sent _
      _ _ _ refl refl refl refl

submit_versions_example :
    (not_awaited (latest_any 1 5 returned) ≡ false)
    × (latest_active 1 5 resent
        ≡ some (new_submission 20 returned.next_id 1 5 (latest_any 1 5 returned)))
    × All
        (λ s.
          is_submission_of 1 5 s ≡ true → s.submission_no < number_after (latest_any 1 5 returned))
        returned.submissions
    × IsCached 1 resent
unfolding submissions
submit_versions_example =
    submit_versions string_of (λ v. 0) (λ n. true) (λ n. true) (λ m n. false) returned 20 1 5 inputs
      returned refl

abbrev gone : Db
gone = after (retire_submission sent 40 11 4 "Wrong task" sent)

abbrev loaded : Submission
loaded = new_submission 20 11 1 5 none

retire_cascades_example :
    (any (is_live_version 11) gone.submissions ≡ false)
    × (keep (λ x. not (x.id == 11)) gone.submissions
        ≡ keep (λ x. not (x.id == 11)) sent.submissions)
    × (keep (names 11) gone.messages ≡ map (cascaded 40) (keep (names 11) sent.messages))
    × (keep (λ m. not (names 11 m)) gone.messages
        ≡ keep (λ m. not (names 11 m)) sent.messages
          ++ retirement_note 40 sent.next_id loaded 4 "Wrong task" ∷ [])
    × (any (is_submitted_slot 1 5) gone.claimants ≡ false)
    × (keep (λ c. not (is_slot_of 1 5 c)) gone.claimants
        ≡ keep (λ c. not (is_slot_of 1 5 c)) sent.claimants)
    × IsCached 1 gone
unfolding submissions
retire_cascades_example =
    retire_cascades sent 40 11 4 "Wrong task" sent {s = loaded} {organization = 9} {db' = gone} refl
      refl
