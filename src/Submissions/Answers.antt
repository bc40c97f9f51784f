-- ===== src/Submissions/Answers.antt =====
-- The answers of a submission: the validator's view of them, and the rows that keep them.
use patrice.Prelude.{
  ℕ, ◌+◌, ◌&&◌, Option, none, some, List, [], ◌∷◌, ◌++◌, map, has, keep, find, update_where, ◌==◌,
  opt_eq, get_or,
}
use patrice.RequestTemplate.Data.{Text, QuestionType, Question, Answer, AttachmentMeta}
use patrice.TaskStatus.{SubmissionState}
use patrice.Db.Rows.{
  LifecycleState, Submission, Value, no_value, number_value, list_value, Attachment, TemplateRow,
  Db, submission_not_found, not_found,
}
use patrice.Db.Tx.{Result, ok, err}
use patrice.Db.Tables.{find_submission, is_active}

-- An entry of `SubmitDto.answers`, where an absent value is `no_value`.
pub record AnswerInput : Type 0 where
  pub question_id : ℕ
  pub value : Value
  pub attachment_ids : Option (List ℕ)

-- `typeById.get(id)`: a later question of the same id wins, and ids are unique.
unfoldable pub type_by_id : ℕ → List (Question ℕ) → Option QuestionType
type_by_id id questions = elim (find (λ q. q.id == id) questions) [
  | none ↦ none
  | some q ↦ some q.type
]

abbrev blank_answer : AnswerInput → Answer ℕ
blank_answer a = record {
  question_id = a.question_id;
  text = none;
  number = none;
  selected = none;
  attachment_ids = none;
}

-- The conversions `String(v)` and `Number(v)` of JavaScript.
module _ (string_of : Value → Text) (number_of : Value → ℕ) where
  unfoldable pub as_text : Value → Option Text
  as_text no_value = none
  as_text v = some (string_of v)

  unfoldable pub as_number : Value → Option ℕ
  as_number (number_value n) = some n
  as_number no_value = none
  as_number v = some (number_of v)

  unfoldable pub as_selected : Value → Option (List Text)
  as_selected (list_value l) = some l
  as_selected no_value = none
  as_selected v = some (string_of v ∷ [])

  -- `toValidatorAnswer`
  unfoldable pub to_validator_answer : Option QuestionType → AnswerInput → Answer ℕ
  to_validator_answer (some QuestionType.numeric) a = record (blank_answer a) {
    number = as_number a.value;
  }
  to_validator_answer (some QuestionType.dropdown) a = record (blank_answer a) {
    selected = as_selected a.value;
  }
  to_validator_answer (some QuestionType.radio) a = record (blank_answer a) {
    selected = as_selected a.value;
  }
  to_validator_answer (some QuestionType.attachment) a = record (blank_answer a) {
    attachment_ids = a.attachment_ids;
  }
  to_validator_answer _ a = record (blank_answer a) { text = as_text a.value }

unfoldable pub find_template : (task : ℕ) → Db → Option TemplateRow
find_template task db = find (λ t. t.owner_task_id == task) db.templates

-- The `AttachmentLookupPort` of a submit.
unfoldable pub lookup_attachment : (organization : ℕ) → Db → ℕ → Option AttachmentMeta
lookup_attachment organization db id =
    elim (find
      (λ a. a.id == id && (a.organization_id == organization && is_active a.lifecycle_state))
      db.attachments) [
        | none ↦ none
        | some a ↦ some (record { content_type = a.content_type; kind = a.kind })
      ]

-- `attachment.updateMany`: the attachments named are given to the answer.
unfoldable pub reown : (organization answer : ℕ) → List ℕ → List Attachment → List Attachment
reown organization answer ids =
    update_where (λ a. has a.id ids && a.organization_id == organization)
      (λ a. record a { answer_id = some answer; message_id = none })

unfoldable pub save_answer : (organization submission : ℕ) → AnswerInput → Db → Db
save_answer organization submission a db = record db {
  answers =
      db.answers
      ++ record {
        id = db.next_id;
        submission_id = submission;
        question_id = a.question_id;
        value = a.value;
      }
        ∷ [];
  attachments = reown organization db.next_id (get_or [] a.attachment_ids) db.attachments;
  next_id = db.next_id + 1;
}

-- The loop over the answers.
unfoldable pub save_answers : (organization submission : ℕ) → List AnswerInput → Db → Db
save_answers organization submission [] db = db
save_answers organization submission (a ∷ rest) db =
    save_answers organization submission rest (save_answer organization submission a db)

pub record AnswerView : Type 0 where
  pub id : ℕ
  pub question_id : ℕ
  pub value : Value
  pub attachment_ids : List ℕ

pub record SubmissionView : Type 0 where
  pub id : ℕ
  pub task_id : ℕ
  pub claimant_user_id : ℕ
  pub submission_no : ℕ
  pub prev_submission_id : Option ℕ
  pub state : SubmissionState
  pub submitted_at : ℕ
  pub reviewed_by : Option ℕ
  pub reviewed_at : Option ℕ
  pub lifecycle_state : LifecycleState
  pub version : ℕ
  pub answers : List AnswerView

unfoldable pub answer_views : (submission : ℕ) → Db → List AnswerView
answer_views submission db =
    map
      (λ row. record {
        id = row.id;
        question_id = row.question_id;
        value = row.value;
        attachment_ids =
            map (λ a. a.id) (keep (λ a. opt_eq a.answer_id (some row.id)) db.attachments);
      })
      (keep (λ row. row.submission_id == submission) db.answers)

-- `toView`
unfoldable pub submission_view : Submission → Db → SubmissionView
submission_view s db = record {
  id = s.id;
  task_id = s.task_id;
  claimant_user_id = s.claimant_user_id;
  submission_no = s.submission_no;
  prev_submission_id = s.prev_submission_id;
  state = s.state;
  submitted_at = s.submitted_at;
  reviewed_by = s.reviewed_by;
  reviewed_at = s.reviewed_at;
  lifecycle_state = s.lifecycle_state;
  version = s.version;
  answers = answer_views s.id db;
}

-- `get`
unfoldable pub get_submission : ℕ → Db → Result SubmissionView
get_submission id db = elim (find_submission id db) [
  | none ↦ err (not_found submission_not_found)
  | some s ↦ ok (submission_view s db)
]
