-- ===== src/RequestTemplates/Tests.antt =====
-- Two tasks with a template each. The other task has a submission that answers its question; a
-- submission without an answer comes in while the template of the first is edited.
use patrice.Prelude.{ℕ, ◌≡◌, refl, true, false, not, none, some, List, [], ◌∷◌, keep, ◌==◌}
use patrice.RequestTemplate.Data.{QuestionType, Constraints}
use patrice.TaskStatus.{SubmissionState}
use patrice.Db.Rows.{
  LifecycleState, Task, Submission, TemplateRow, Db, no_value, task_request_template_updated, fault,
  conflict, request_template_locked,
}
use patrice.Db.Tx.{ok, err}
use patrice.Db.Tables.{no_rows, find_task}
use patrice.Db.Emit.{log_activity}
use patrice.Submissions.Answers.{find_template}
use patrice.RequestTemplates.{
  QuestionInput, is_locked, is_answered, new_questions, find_template_row, with_questions,
  put_questions, replace_questions, put_for_task,
}
use patrice.RequestTemplates.Lock.{
  IsNamed, put_for_task-IsNamed, edited_under_lock, retired_answers_block,
}

abbrev a_task : ℕ → Task
a_task id = record {
  id = id;
  organization_id = 9;
  name = "Banner";
  description = "Draw it";
  division_id = 2;
  team_id = none;
  requester_user_id = 4;
  openings = 1;
  claims_closed = false;
  status_cache = none;
  lifecycle_state = LifecycleState.active;
  retired_at = none;
  version = 0;
  created_at = 0;
  updated_at = 0;
}

abbrev unlimited : Constraints ℕ
unlimited = record {
  min_chars = none;
  max_chars = none;
  kind_is_integer = false;
  min = none;
  max = none;
  multi = false;
  options = [];
  min_select = none;
  max_select = none;
  allowed_types = [];
  max_files = none;
}

abbrev asked : List QuestionInput
asked =
    record { type = QuestionType.text; required = false; constraints = unlimited }
    ∷ record { type = QuestionType.numeric; required = true; constraints = unlimited }
    ∷ []

abbrev a_template : (id task question : ℕ) → TemplateRow
a_template id task question = record {
  id = id;
  owner_task_id = task;
  questions =
      record {
        id = question;
        type = QuestionType.multiline;
        required = false;
        constraints = unlimited;
      }
      ∷ [];
}

abbrev a_submission : (id task : ℕ) → LifecycleState → Submission
a_submission id task state = record {
  id = id;
  task_id = task;
  claimant_user_id = 5;
  submission_no = 1;
  prev_submission_id = none;
  state = SubmissionState.review;
  submitted_at = 7;
  reviewed_by = none;
  reviewed_at = none;
  lifecycle_state = state;
  retired_at = none;
  version = 0;
}

abbrev before : Db
before = record no_rows {
  tasks = a_task 1 ∷ a_task 2 ∷ [];
  templates = a_template 4 1 50 ∷ a_template 6 2 60 ∷ [];
  submissions = a_submission 30 2 LifecycleState.active ∷ [];
  answers = record { id = 40; submission_id = 30; question_id = 60; value = no_value } ∷ [];
}

abbrev between : Db
between = record before {
  submissions = a_submission 31 1 LifecycleState.active ∷ before.submissions;
}

-- The submission of the second task is retired; its answer stays.
abbrev given_up : Db
given_up = record before { submissions = a_submission 30 2 LifecycleState.retired ∷ [] }

abbrev after_edit : Db → Db
after_edit db = record db {
  templates = with_questions 100 asked (a_template 4 1 50) ∷ a_template 6 2 60 ∷ [];
  activities =
      record {
        organization_id = 9;
        actor_user_id = some 4;
        subject_id = 4;
        verb = task_request_template_updated 4 1 2;
      }
      ∷ [];
  next_id = 102;
}

put_for_task-IsNamed_example :
    IsNamed (after_edit before)
    × (is_locked 1 before ≡ false)
    × (new_questions 100 asked ≡ new_questions 100 asked)
    × (keep (λ t. not (t.id == 4)) (after_edit before).templates
        ≡ keep (λ t. not (t.id == 4)) before.templates)
    × ((after_edit before).answers ≡ before.answers)
    × ((after_edit before).submissions ≡ before.submissions)
unfolding IsNamed put_for_task replace_questions put_questions find_template_row is_answered
    is_locked find_template find_task log_activity
put_for_task-IsNamed_example =
    put_for_task-IsNamed before 1 4 asked before {task = a_task 1} {template = a_template 4 1 50}
      {row = with_questions 100 asked (a_template 4 1 50)} {db' = after_edit before} refl refl
      (refl, tt) refl

edited_under_lock_example :
    (db' : Db) × (put_for_task before 1 4 asked between
      ≡ ok (with_questions 100 asked (a_template 4 1 50), db'))
    × (is_locked 1 db' ≡ true)
unfolding find_template_row is_answered is_locked find_template find_task
edited_under_lock_example =
    edited_under_lock before 1 4 asked between {task = a_task 1} {template = a_template 4 1 50}
      {row = a_template 4 1 50} refl refl refl refl refl refl

-- An edit that reads the submission is refused.
locked : put_for_task between 1 4 asked between ≡ err (conflict request_template_locked)
unfolding put_for_task is_locked find_template find_task
locked = refl

-- The task has a retired submission only, and its template cannot be edited.
blocked : put_for_task given_up 2 4 asked given_up ≡ err fault
unfolding is_answered is_locked find_template find_task
blocked =
    retired_answers_block given_up 2 4 asked given_up {task = a_task 2}
      {template = a_template 6 2 60} refl refl refl refl
