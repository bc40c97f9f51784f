-- ===== src/RequestTemplates.antt =====
-- api/src/request-templates/request-templates.service.ts: editing the request template of a task. The
-- template of a division and the reads are not modelled.
use patrice.Prelude.{
  ℕ, ◌+◌, Bool, true, false, ◌&&◌, Option, List, [], ◌∷◌, length, any, find, update_where, ◌==◌,
}
use patrice.RequestTemplate.Data.{QuestionType, Constraints, Question}
use patrice.Db.Rows.{
  Submission, TemplateRow, Db, task_request_template_updated, task_not_found,
  request_template_not_found, request_template_locked, not_found, conflict, fault,
}
use patrice.Db.Tx.{ok, Tx, pure, ◌>>=◌, ◌>>◌, modify, refuse_if, or_throw}
use patrice.Db.Tables.{is_active, find_task}
use patrice.Db.Emit.{log_activity}
use patrice.Submissions.Answers.{find_template}
pub mod Lock
mod Tests

-- A question of the request, without its prompt.
pub record QuestionInput : Type 0 where
  pub type : QuestionType
  pub required : Bool
  pub constraints : Constraints ℕ

-- `submission.count` of the active submissions is above 0.
abbrev pub is_active_on : (task : ℕ) → Submission → Bool
is_active_on task s = s.task_id == task && is_active s.lifecycle_state

unfoldable pub is_locked : (task : ℕ) → Db → Bool
is_locked task db = any (is_active_on task) db.submissions

abbrev pub has_question : (question : ℕ) → TemplateRow → Bool
has_question question t = any (λ q. q.id == question) t.questions

-- An answer refers to a question of the template: the foreign key restricts deleting it.
unfoldable pub is_answered : (template : ℕ) → Db → Bool
is_answered template db =
    any (λ a. any (λ t. t.id == template && has_question a.question_id t) db.templates) db.answers

-- The rows of `question.createMany`, with the ids that they get.
abbrev pub new_questions : (first : ℕ) → List QuestionInput → List (Question ℕ)
new_questions first [] = []
new_questions first (q ∷ rest) =
    record { id = first; type = q.type; required = q.required; constraints = q.constraints }
    ∷ new_questions (first + 1) rest

unfoldable pub find_template_row : (id : ℕ) → Db → Option TemplateRow
find_template_row id db = find (λ t. t.id == id) db.templates

abbrev pub with_questions : (first : ℕ) → List QuestionInput → TemplateRow → TemplateRow
with_questions first questions t = record t { questions = new_questions first questions }

unfoldable pub put_questions : (template : ℕ) → List QuestionInput → Db → Db
put_questions template questions db = record db {
  templates =
      update_where (λ t. t.id == template) (with_questions db.next_id questions) db.templates;
  next_id = db.next_id + length questions;
}

-- `question.deleteMany`, `question.createMany` and `requestTemplate.update`.
unfoldable pub replace_questions : (template : ℕ) → List QuestionInput → Tx (Unit {0})
replace_questions template questions = do
  λ db. refuse_if (is_answered template db) fault db
  modify (put_questions template questions)
  λ db. or_throw fault (find_template_row template db) db
  pure tt

module _ (seen : Db) (task_id actor : ℕ) where
  unfoldable pub put_for_task : List QuestionInput → Tx TemplateRow
  put_for_task questions = do
    task ← or_throw (not_found task_not_found) (find_task task_id seen)
    template ← or_throw (not_found request_template_not_found) (find_template task_id seen)
    refuse_if (is_locked task_id seen) (conflict request_template_locked)
    replace_questions template.id questions
    log_activity task.organization_id actor template.id
        (task_request_template_updated template.id task_id (length questions))
    λ db. or_throw fault (find_template_row template.id db) db
