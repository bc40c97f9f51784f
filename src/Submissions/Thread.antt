-- ===== src/Submissions/Thread.antt =====
-- What a retired submission leaves of its thread, its claimant's slot and its task's status.
use patrice.Prelude.{
  ℕ, ◌≡◌, refl, ◌∙◌, Bool, false, not, ◌&&◌, none, some, List, [], ◌∷◌, ◌++◌, arith, any, ap, map,
  keep, keep-append, keep-not-update_where, update_where, opt_eq, if◌then◌else◌, ◌==◌, String,
}
use patrice.Db.Rows.{
  Db, Submission, Message, TaskClaimant, active, retired, submission_retired, system,
}
use patrice.Db.Tx.{ok}
use patrice.Db.Tables.{is_slot_of, is_retired, is_active, recompute, write_status}
use patrice.Db.Emit.{add_message, log_activity}
use patrice.Tasks.Status.{IsCached, Recomputed-IsCached}
use patrice.Submissions.Retire.{
  load_retire, retire_submission, retire_row, retire_thread, revert_slot, in_thread,
  retired_submission,
}
use patrice.Submissions.Cached.{retire_mid, retire_recomputes}

abbrev pub retired_message : ℕ → Message → Message
retired_message now m = record m { lifecycle_state = retired; retired_at = some now }

pub thread_gone :
    (now id : ℕ) (l : List Message)
    → any (in_thread id) (update_where (in_thread id) (retired_message now) l) ≡ false
thread_gone now id [] = refl
thread_gone now id (m ∷ l) = ground (arith, thread_gone now id l)

-- The message names the submission.
abbrev pub names : (submission : ℕ) → Message → Bool
names submission m = opt_eq m.submission_id (some submission)

-- What the cascade makes of a message that names the submission.
abbrev pub cascaded : (now : ℕ) → Message → Message
cascaded now m = if is_active m.lifecycle_state then retired_message now m else m

named_retired :
    (now id : ℕ) (l : List Message)
    → keep (names id) (update_where (in_thread id) (retired_message now) l)
      ≡ map (cascaded now) (keep (names id) l)
named_retired now id [] = refl
named_retired now id (m ∷ l) = ground (arith, named_retired now id l)

others_kept :
    (now id : ℕ) (l : List Message)
    → keep (λ m. not (names id m)) (update_where (in_thread id) (retired_message now) l)
      ≡ keep (λ m. not (names id m)) l
others_kept now id [] = refl
others_kept now id (m ∷ l) = ground (arith, others_kept now id l)

snoc_named :
    (id : ℕ) (l : List Message) (m : Message)
    → names id m ≡ false
    → keep (names id) (l ++ m ∷ []) ≡ keep (names id) l
snoc_named id [] m h = ground arith
snoc_named id (x ∷ l) m h = ground (arith, snoc_named id l m h)

-- The claimant's slot, marked as submitted.
abbrev pub is_submitted_slot : (task user : ℕ) → TaskClaimant → Bool
is_submitted_slot task user c = is_slot_of task user c && c.has_submitted

slot_reverted :
    (task user : ℕ) (l : List TaskClaimant)
    → any
        (is_submitted_slot task user)
        (update_where (is_slot_of task user) (λ c. record c { has_submitted = false }) l)
      ≡ false
slot_reverted task user [] = refl
slot_reverted task user (c ∷ l) = ground (arith, slot_reverted task user l)

abbrev pub is_live_version : (id : ℕ) → Submission → Bool
is_live_version id s = s.id == id && not (is_retired s.lifecycle_state)

row_retired :
    (now id : ℕ) (l : List Submission)
    → any (is_live_version id) (update_where (λ s. s.id == id) (retired_submission now) l) ≡ false
row_retired now id [] = refl
row_retired now id (s ∷ l) = ground (arith, row_retired now id l)

pub retire_messages :
    (seen : Db) (now id actor : ℕ) (reason : String) (db : Db) {s : Submission} {organization : ℕ}
    {r : Unit {0}} {db' : Db}
    → load_retire seen now id ≡ ok (s, organization)
    → retire_submission seen now id actor reason db ≡ ok (r, db')
    → db'.messages ≡ (retire_mid seen now id db s actor reason).messages
unfolding retire_submission retire_row log_activity recompute write_status
retire_messages seen now id actor reason db e h = ground arith

-- The system message about the retirement, in the task's own thread.
abbrev pub retirement_note : (now id : ℕ) → Submission → (actor : ℕ) → (reason : String) → Message
retirement_note now id s actor reason = record {
  id = id;
  task_id = s.task_id;
  kind = system;
  sender_user_id = none;
  parent_message_id = none;
  submission_id = none;
  body = submission_retired s.submission_no s.claimant_user_id actor reason;
  lifecycle_state = active;
  retired_at = none;
  edited_at = none;
  version = 0;
  created_at = now;
}

-- A retirement that succeeds retires the submission, and no other; retires every active message that
-- names the submission, and leaves those that name it and were retired before; changes no message
-- that does not name it, but adds the note of the retirement, active and in the task's own thread;
-- marks the claimant's slot as not submitted, and no other; and leaves the status cache as the slots
-- and submissions give it.
pub retire_cascades :
    (seen : Db) (now id actor : ℕ) (reason : String) (db : Db) {s : Submission} {organization : ℕ}
    {r : Unit {0}} {db' : Db}
    → load_retire seen now id ≡ ok (s, organization)
    → retire_submission seen now id actor reason db ≡ ok (r, db')
    → (any (is_live_version id) db'.submissions ≡ false)
      × (keep (λ x. not (x.id == id)) db'.submissions ≡ keep (λ x. not (x.id == id)) db.submissions)
      × (keep (names id) db'.messages ≡ map (cascaded now) (keep (names id) db.messages))
      × (keep (λ m. not (names id m)) db'.messages
          ≡ keep (λ m. not (names id m)) db.messages
            ++ retirement_note now db.next_id s actor reason ∷ [])
      × (any (is_submitted_slot s.task_id s.claimant_user_id) db'.claimants ≡ false)
      × (keep (λ c. not (is_slot_of s.task_id s.claimant_user_id c)) db'.claimants
          ≡ keep (λ c. not (is_slot_of s.task_id s.claimant_user_id c)) db.claimants)
      × IsCached s.task_id db'
unfolding retire_thread revert_slot add_message
retire_cascades seen now id actor reason db {s} {organization} {r} {db'} e h =
    let done = retire_recomputes seen now id db actor reason e h in
    let (_, _, _, slots, subs) = done in
    let audit = submission_retired s.submission_no s.claimant_user_id actor reason in
    let mid = add_message now s.task_id system none none none audit db in
    let note = retirement_note now db.next_id s actor reason in
    let msgs = retire_messages seen now id actor reason db e h in
    (
      rw subs (row_retired now id db.submissions),
      rw subs (
          keep-not-update_where (λ x. x.id == id) (retired_submission now) (λ x k. k)
            db.submissions),
      rw msgs (
          named_retired now id mid.messages
          ∙ ap (map (cascaded now)) (snoc_named id db.messages note refl)),
      rw msgs (
          others_kept now id mid.messages
          ∙ keep-append (λ m. not (names id m)) db.messages (note ∷ [])),
      rw slots (slot_reverted s.task_id s.claimant_user_id db.claimants),
      rw slots (
          keep-not-update_where (is_slot_of s.task_id s.claimant_user_id)
            (λ c. record c { has_submitted = false }) (λ c k. k) db.claimants),
      Recomputed-IsCached now s.task_id _ db' done,
    )
