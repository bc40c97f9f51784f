-- ===== src/RequestTemplates/Lock.antt =====
-- What editing a template does to answers, and when its lock holds.
use patrice.Prelude.{
  ℕ, ◌≡◌, refl, arith, Bool, true, false, not, ◌&&◌, some, List, [], ◌∷◌, length, any, keep, find,
  update_where, All, All-zip, ◌==◌, ◌++◌,
}
use patrice.Db.Rows.{Task, AnswerRow, TemplateRow, Db, fault, task_request_template_updated}
use patrice.Db.Tx.{ok, err}
use patrice.Db.Tables.{find_task}
use patrice.Db.Emit.{log_activity}
use patrice.Submissions.Answers.{find_template}
use patrice.RequestTemplates.{
  QuestionInput, is_locked, has_question, is_answered, new_questions, find_template_row,
  with_questions, put_questions, replace_questions, put_for_task,
}

-- Every answer names a question of a template.
unfoldable pub IsNamed : Db → Type 0
IsNamed db = All (λ a. any (has_question a.question_id) db.templates ≡ true) db.answers

-- A question that is not of the template stays with the template it is of.
named_elsewhere :
    (template question first : ℕ) (questions : List QuestionInput) (rows : List TemplateRow)
    → any (has_question question) rows ≡ true
    → any (λ t. t.id == template && has_question question t) rows ≡ false
    → any
        (has_question question)
        (update_where (λ t. t.id == template) (with_questions first questions) rows)
      ≡ true
named_elsewhere template question first questions [] named apart = named
named_elsewhere template question first questions (t ∷ rest) named apart =
    let ih = named_elsewhere template question first questions rest in ground (arith, ih)

All-not_any :
    (p : AnswerRow → Bool) (l : List AnswerRow) → any p l ≡ false → All (λ a. p a ≡ false) l
All-not_any p [] h = tt
All-not_any p (a ∷ rest) h = ground (arith, All-not_any p rest)

put_questions-IsNamed :
    (template : ℕ) (questions : List QuestionInput) (db : Db)
    → is_answered template db ≡ false
    → IsNamed db
    → IsNamed (put_questions template questions db)
unfolding IsNamed put_questions is_answered
put_questions-IsNamed template questions db free named =
    All-zip db.answers named (All-not_any _ db.answers free) (λ a n apart.
      named_elsewhere template a.question_id db.next_id questions db.templates n apart)

-- The templates of the other owners.
others_stay :
    (template first : ℕ) (questions : List QuestionInput) (rows : List TemplateRow)
    → keep
        (λ t. not (t.id == template))
        (update_where (λ t. t.id == template) (with_questions first questions) rows)
      ≡ keep (λ t. not (t.id == template)) rows
others_stay template first questions [] = refl
others_stay template first questions (t ∷ rest) =
    ground (arith, others_stay template first questions rest)

find_updated :
    (template first : ℕ) (questions : List QuestionInput) (rows : List TemplateRow)
    → {t : TemplateRow} → find (λ r. r.id == template) rows ≡ some t
    → find
        (λ r. r.id == template)
        (update_where (λ r. r.id == template) (with_questions first questions) rows)
      ≡ some (with_questions first questions t)
find_updated template first questions [] h = cc
find_updated template first questions (r ∷ rest) {t} h =
    let ih = find_updated template first questions rest {t = t} in ground (arith, ih)

updated_questions :
    (template first : ℕ) (questions : List QuestionInput) (rows : List TemplateRow)
    → {t : TemplateRow}
    → find
        (λ r. r.id == template)
        (update_where (λ r. r.id == template) (with_questions first questions) rows)
      ≡ some t
    → t.questions ≡ new_questions first questions
updated_questions template first questions [] h = cc
updated_questions template first questions (r ∷ rest) {t} h =
    let ih = updated_questions template first questions rest {t = t} in ground (arith, ih)

-- The tables after an edit.
unfoldable edited : (organization actor task template : ℕ) → List QuestionInput → Db → Db
edited organization actor task template questions db =
    let after = put_questions template questions db in
    record after {
      activities =
          db.activities
          ++ record {
            organization_id = organization;
            actor_user_id = some actor;
            subject_id = template;
            verb = task_request_template_updated template task (length questions);
          }
            ∷ [];
    }

module _ (seen : Db) (task_id actor : ℕ) (questions : List QuestionInput) where
  put_steps :
      (db : Db) {task : Task} {template row : TemplateRow} {db' : Db}
      → find_task task_id seen ≡ some task
      → find_template task_id seen ≡ some template
      → put_for_task seen task_id actor questions db ≡ ok (row, db')
      → (is_locked task_id seen ≡ false)
        × (is_answered template.id db ≡ false)
        × (find_template_row template.id (put_questions template.id questions db) ≡ some row)
        × (db' ≡ edited task.organization_id actor task_id template.id questions db)
  unfolding put_for_task replace_questions log_activity edited find_template_row put_questions
  put_steps db known found h = ground arith

  -- An edit that succeeds orphans no answer: if every answer named a question of a template, it still
  -- does. No submission was active when the lock was read. The template gets the questions of the
  -- request and new ids for them, and no other template, no answer and no submission is changed.
  pub put_for_task-IsNamed :
      (db : Db) {task : Task} {template row : TemplateRow} {db' : Db}
      → find_task task_id seen ≡ some task
      → find_template task_id seen ≡ some template
      → IsNamed db
      → put_for_task seen task_id actor questions db ≡ ok (row, db')
      → IsNamed db'
        × (is_locked task_id seen ≡ false)
        × (row.questions ≡ new_questions db.next_id questions)
        × (keep (λ t. not (t.id == template.id)) db'.templates
            ≡ keep (λ t. not (t.id == template.id)) db.templates)
        × (db'.answers ≡ db.answers)
        × (db'.submissions ≡ db.submissions)
  unfolding IsNamed edited put_questions find_template_row
  put_for_task-IsNamed db {task} {template} {row} {db'} known found named h =
      let (open_then, free, there, tables) = put_steps db known found h in
      let others = others_stay template.id db.next_id questions db.templates in
      (
        rw tables (put_questions-IsNamed template.id questions db free named),
        open_then,
        updated_questions template.id db.next_id questions db.templates there,
        rw tables others,
        rw tables refl,
        rw tables refl,
      )

  -- The lock is read before the transaction: an edit that found no active submission goes on although
  -- one was made in between, as long as it answered no question. The submission then stands on a template
  -- that it was not made for.
  pub edited_under_lock :
      (db : Db) {task : Task} {template row : TemplateRow}
      → find_task task_id seen ≡ some task
      → find_template task_id seen ≡ some template
      → is_locked task_id seen ≡ false
      → find_template_row template.id db ≡ some row
      → is_answered template.id db ≡ false
      → is_locked task_id db ≡ true
      → (db' : Db) × (put_for_task seen task_id actor questions db
          ≡ ok (with_questions db.next_id questions row, db'))
        × (is_locked task_id db' ≡ true)
  unfolding put_for_task replace_questions log_activity edited find_template_row put_questions
      is_locked
  edited_under_lock db {task} {template} {row} h1 h2 h3 h4 h5 h6 =
      let there = find_updated template.id db.next_id questions db.templates h4 in
      (edited task.organization_id actor task_id template.id questions db, ground arith, h6)

  -- The lock does not count a retired submission, but its answers still restrict the deleting of the
  -- questions: the edit is not refused as locked, it fails.
  pub retired_answers_block :
      (db : Db) {task : Task} {template : TemplateRow}
      → find_task task_id seen ≡ some task
      → find_template task_id seen ≡ some template
      → is_locked task_id seen ≡ false
      → is_answered template.id db ≡ true
      → put_for_task seen task_id actor questions db ≡ err fault
  unfolding put_for_task replace_questions
  retired_answers_block db h1 h2 h3 h4 = ground arith
