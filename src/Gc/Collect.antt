-- ===== src/Gc/Collect.antt =====
-- What is left of a task that was collected.
use patrice.Prelude.{
  ℕ, ◌+◌, ◌≡◌, ◌≢◌, refl, Bool, true, false, not, ◌&&◌, Option, none, some, List, [], ◌∷◌, arith,
  All, Bool-cases, subst, inl, inr, All-map, All-of, Distinct, is_some, any, count, keep, map, ◌==◌,
}
use patrice.Db.Directory.{gc_task_collected}
use patrice.Db.Rows.{Attachment, Db}
use patrice.Db.Tx.{ok}
use patrice.Gc.{
  log_system, without_task, delete_task_aggregate, is_attached, of_message, of_submission,
  of_answer,
}

pub any-keep-not {ℓ} :
    {A : Type ℓ} (p : A → Bool) (xs : List A) → any p (keep (λ x. not (p x)) xs) ≡ false
any-keep-not p [] = refl
any-keep-not p (x ∷ xs) = ground (arith, any-keep-not p xs)

-- Rows that are not dropped are kept as they were.
keep-keep-not {ℓ} :
    {A : Type ℓ} (p q : A → Bool) (xs : List A)
    → All (λ x. q x ≡ true → p x ≡ false) xs
    → keep q (keep (λ x. not (p x)) xs) ≡ keep q xs
keep-keep-not p q [] k = refl
keep-keep-not p q (x ∷ xs) k = ground (arith, k.0, keep-keep-not p q xs k.1)

-- What the tables guarantee: ids are primary keys, and a file is of a message or of an answer, by a
-- check of its table.
pub record IsKeyed (db : Db) : Type 0 where
  pub messages_keyed : Distinct (λ m. m.id) db.messages
  pub submissions_keyed : Distinct (λ s. s.id) db.submissions
  pub answers_keyed : Distinct (λ a. a.id) db.answers
  pub one_owner : All (λ a. (is_some a.message_id && is_some a.answer_id) ≡ false) db.attachments

-- No row of the task is left, the answers and files taken by what `before` says they are of.
pub record IsGone (task : ℕ) (before db : Db) : Type 0 where
  pub no_task : any (λ t. t.id == task) db.tasks ≡ false
  pub no_message : any (λ m. m.task_id == task) db.messages ≡ false
  pub no_submission : any (λ s. s.task_id == task) db.submissions ≡ false
  pub no_answer : any (λ a. of_submission task before a.submission_id) db.answers ≡ false
  pub no_attachment : any (is_attached task before) db.attachments ≡ false
  pub no_claimant : any (λ c. c.task_id == task) db.claimants ≡ false
  pub no_template : any (λ t. t.owner_task_id == task) db.templates ≡ false

-- The rows of a task are the same in both.
pub record SameTask (task : ℕ) (a b : Db) : Type 0 where
  pub same_task : keep (λ t. t.id == task) b.tasks ≡ keep (λ t. t.id == task) a.tasks
  pub same_messages :
      keep (λ m. m.task_id == task) b.messages ≡ keep (λ m. m.task_id == task) a.messages
  pub same_submissions :
      keep (λ s. s.task_id == task) b.submissions ≡ keep (λ s. s.task_id == task) a.submissions
  pub same_answers :
      keep (λ r. of_submission task a r.submission_id) b.answers
      ≡ keep (λ r. of_submission task a r.submission_id) a.answers
  pub same_attachments :
      keep (is_attached task a) b.attachments ≡ keep (is_attached task a) a.attachments
  pub same_claimants :
      keep (λ c. c.task_id == task) b.claimants ≡ keep (λ c. c.task_id == task) a.claimants
  pub same_templates :
      keep (λ t. t.owner_task_id == task) b.templates
      ≡ keep (λ t. t.owner_task_id == task) a.templates

apart : (n task other : ℕ) → other ≢ task → n == other ≡ true → n == task ≡ false
apart n task other d h = ground arith

none_of_key :
    {A : Type 0} (key : A → ℕ) (p : A → Bool) (k : ℕ) (xs : List A)
    → All (λ y. key y ≢ k) xs
    → any (λ x. key x == k && p x) xs ≡ false
none_of_key key p k [] h = refl
none_of_key key p k (x ∷ xs) h = ground (arith, h.0, none_of_key key p k xs h.1)

-- Where keys are distinct, one row has the key: two tests on it that exclude one another do not both
-- pass.
one_row :
    {A : Type 0} (key : A → ℕ) (p q : A → Bool) (k : ℕ) (xs : List A)
    → ((x : A) → q x ≡ true → p x ≡ false)
    → Distinct key xs
    → any (λ x. key x == k && q x) xs ≡ true
    → any (λ x. key x == k && p x) xs ≡ false
one_row key p q k [] excl d h = refl
one_row key p q k (x ∷ xs) excl d h = elim (Bool-cases (key x == k)) [
  | inl here ↦
      let same : key x ≡ k = ground arith in
      let absent = subst (λ n. All (λ y. key y ≢ n) xs) same d.0 in
      ground (arith, excl x, none_of_key key q k xs absent, none_of_key key p k xs absent)
  | inr other ↦ ground (arith, one_row key p q k xs excl d.1)
]

module _ (task other : ℕ) (db : Db) (d : other ≢ task) (keyed : IsKeyed db) where
  submission_apart : (id : ℕ) → of_submission other db id ≡ true → of_submission task db id ≡ false
  submission_apart id h =
      one_row (λ s. s.id) (λ s. s.task_id == task) (λ s. s.task_id == other) id db.submissions
        (λ s. apart s.task_id task other d) keyed.submissions_keyed h

  message_apart : (id : Option ℕ) → of_message other db id ≡ true → of_message task db id ≡ false
  message_apart none h = refl
  message_apart (some id) h =
      one_row (λ m. m.id) (λ m. m.task_id == task) (λ m. m.task_id == other) id db.messages
        (λ m. apart m.task_id task other d) keyed.messages_keyed h

  answer_apart : (id : Option ℕ) → of_answer other db id ≡ true → of_answer task db id ≡ false
  answer_apart none h = refl
  answer_apart (some id) h =
      one_row (λ a. a.id) (λ a. of_submission task db a.submission_id)
        (λ a. of_submission other db a.submission_id) id db.answers
        (λ a. submission_apart a.submission_id) keyed.answers_keyed h

  attachment_apart :
      (a : Attachment)
      → (is_some a.message_id && is_some a.answer_id) ≡ false
      → is_attached other db a ≡ true
      → is_attached task db a ≡ false
  attachment_apart a one h = ground (arith, message_apart a.message_id, answer_apart a.answer_id)

  without_task-SameTask : SameTask other db (without_task task db)
  unfolding without_task
  without_task-SameTask = record {
    same_task = keep-keep-not _ _ db.tasks (All-of _ (λ t h. apart t.id task other d h) _);
    same_messages =
        keep-keep-not _ _ db.messages (All-of _ (λ m h. apart m.task_id task other d h) _);
    same_submissions =
        keep-keep-not _ _ db.submissions (All-of _ (λ s h. apart s.task_id task other d h) _);
    same_answers =
        keep-keep-not _ _ db.answers (All-of _ (λ a h. submission_apart a.submission_id h) _);
    same_attachments =
        keep-keep-not _ _ db.attachments (All-map _ _ attachment_apart _ keyed.one_owner);
    same_claimants =
        keep-keep-not _ _ db.claimants (All-of _ (λ c h. apart c.task_id task other d h) _);
    same_templates =
        keep-keep-not _ _ db.templates (All-of _ (λ t h. apart t.owner_task_id task other d h) _);
  }

without_task-IsGone : (task : ℕ) (db : Db) → IsGone task db (without_task task db)
unfolding without_task
without_task-IsGone task db = record {
  no_task = any-keep-not (λ t. t.id == task) db.tasks;
  no_message = any-keep-not (λ m. m.task_id == task) db.messages;
  no_submission = any-keep-not (λ s. s.task_id == task) db.submissions;
  no_answer = any-keep-not (λ a. of_submission task db a.submission_id) db.answers;
  no_attachment = any-keep-not (is_attached task db) db.attachments;
  no_claimant = any-keep-not (λ c. c.task_id == task) db.claimants;
  no_template = any-keep-not (λ t. t.owner_task_id == task) db.templates;
}

-- A file is handed over for removal or still has its row, once for each row it had.
files_accounted :
    (p : Attachment → Bool) (key : ℕ) (xs : List Attachment)
    → count (λ k. k == key) (map (λ a. a.storage_key) (keep p xs))
        + count (λ a. a.storage_key == key) (keep (λ a. not (p a)) xs)
      ≡ count (λ a. a.storage_key == key) xs
files_accounted p key [] = refl
files_accounted p key (x ∷ xs) = ground (arith, files_accounted p key xs)

-- Collecting a task leaves no row of it: no message, submission, answer, file row, slot or template. It
-- leaves every row of every other task as it was, where ids are distinct and a file has one owner. And
-- every storage key of a file row that it deletes is among the keys that it returns, as often as it was
-- there, and no other key is.
pub delete_task_aggregate-IsGone :
    (organization task other key : ℕ) (db : Db) {keys : List ℕ} {db' : Db}
    → other ≢ task
    → IsKeyed db
    → delete_task_aggregate organization task db ≡ ok (keys, db')
    → IsGone task db db'
      × SameTask other db db'
      × (count (λ k. k == key) keys + count (λ a. a.storage_key == key) db'.attachments
          ≡ count (λ a. a.storage_key == key) db.attachments)
unfolding delete_task_aggregate log_system without_task
delete_task_aggregate-IsGone organization task other key db {keys} {db'} d keyed h =
    let tables : db'
        ≡ log_system organization task (gc_task_collected task) (without_task task db) =
      ground arith in
    let returned : keys ≡ map (λ a. a.storage_key) (keep (is_attached task db) db.attachments) =
      ground arith in
    let gone = without_task-IsGone task db in
    let same = without_task-SameTask task other db d keyed in
    (
      rw tables (record {
        no_task = gone.no_task;
        no_message = gone.no_message;
        no_submission = gone.no_submission;
        no_answer = gone.no_answer;
        no_attachment = gone.no_attachment;
        no_claimant = gone.no_claimant;
        no_template = gone.no_template;
      }),
      rw tables (record {
        same_task = same.same_task;
        same_messages = same.same_messages;
        same_submissions = same.same_submissions;
        same_answers = same.same_answers;
        same_attachments = same.same_attachments;
        same_claimants = same.same_claimants;
        same_templates = same.same_templates;
      }),
      rw (tables, returned) (files_accounted (is_attached task db) key db.attachments),
    )
