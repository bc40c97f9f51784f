-- ===== src/Messages/Cascade.antt =====
-- A user's reply in the thread of a submission, when the submission is retired.
use patrice.Prelude.{
  ℕ, ◌≡◌, refl, ◌∙◌, Bool, true, false, not, ◌&&◌, Option, none, some, List, [], ◌∷◌, ◌++◌, arith,
  any, any-append, update_where, is_some, opt_eq, ◌==◌, String, inl, inr,
}
use patrice.Db.Rows.{
  Db, Task, Body, Submission, Message, comment, text, message_created, submission_retired, system,
}
use patrice.Db.Tx.{ok, Result-cases, lift, ◌>>=◌, >>=-eq-ok, lift-eq-ok}
use patrice.Db.Tables.{is_active, load_active_task}
use patrice.Db.Emit.{add_message, emit, log_activity, requester_id, claimant_recipients}
use patrice.Submissions.Retire.{
  load_retire, retire_submission, retire_thread, revert_slot, in_thread,
}
use patrice.Submissions.Thread.{thread_gone, retire_messages, retired_message}
use patrice.Messages.{load_parent, notify_message, post, write_message, create}

notify_message-messages :
    (seen : Db) (now organization task id actor : ℕ) (parent : Option Message) (db : Db)
    {r : List ℕ} {db' : Db}
    → notify_message seen now organization task id actor parent db ≡ ok (r, db')
    → db'.messages ≡ db.messages
unfolding notify_message emit requester_id claimant_recipients
notify_message-messages seen now organization task id actor none db h = ground arith
notify_message-messages seen now organization task id actor (some parent) db h = ground arith

-- A reply to the message, active, and of no submission.
abbrev pub is_live_reply : (id parent : ℕ) → Message → Bool
is_live_reply id parent m =
    m.id == id
    && (is_active m.lifecycle_state
        && (opt_eq m.parent_message_id (some parent) && not (is_some m.submission_id)))

live_reply_kept :
    (now sub id parent : ℕ) (l : List Message)
    → any (is_live_reply id parent) (update_where (in_thread sub) (retired_message now) l)
      ≡ any (is_live_reply id parent) l
live_reply_kept now sub id parent [] = refl
live_reply_kept now sub id parent (m ∷ l) = ground (arith, live_reply_kept now sub id parent l)

abbrev logged : (now organization task actor : ℕ) → (parent_id : Option ℕ) → String → Db → Db
logged now organization task actor parent_id body db =
    let posted = add_message now task comment (some actor) parent_id none (text body) db in
    record posted {
      activities =
          posted.activities
          ++ record {
            organization_id = organization;
            actor_user_id = some actor;
            subject_id = db.next_id;
            verb = message_created db.next_id task parent_id;
          }
            ∷ [];
    }

pub write_posts :
    (seen : Db) (now organization task actor : ℕ) (parent : Option Message) (parent_id : Option ℕ)
    (body : String) (db : Db) {id : ℕ} {r : List ℕ} {db' : Db}
    → write_message seen now organization task actor parent parent_id body db ≡ ok ((id, r), db')
    → (id ≡ db.next_id)
      × (db'.messages
          ≡ (add_message now task comment (some actor) parent_id none (text body) db).messages)
unfolding write_message post log_activity
write_posts seen now organization task actor parent parent_id body db h =
    elim (Result-cases (
      notify_message seen now organization task db.next_id actor parent
        (logged now organization task actor parent_id body db))) [
          | inl ((ids, mid), done) ↦
              let same =
                notify_message-messages seen now organization task db.next_id actor parent
                  (logged now organization task actor parent_id body db) done in
              ground (arith, done, same)
          | inr (e, failed) ↦ absurd (ground (arith, failed))
        ]

pub create_steps :
    (seen : Db) (now task actor : ℕ) (parent : Option ℕ) (body : String) (db : Db) {r : ℕ × List ℕ}
    {db' : Db}
    → create seen now task actor parent body db ≡ ok (r, db')
    → (t : Task) × (top : Option Message) × (load_active_task task seen ≡ ok t)
      × (load_parent seen now task parent ≡ ok top)
      × (write_message seen now t.organization_id task actor top parent body db ≡ ok (r, db'))
unfolding create
create_steps seen now task actor parent body db h =
    let write = λ (t : Task) (top : Option Message).
      write_message seen now t.organization_id task actor top parent body in
    let (t, db1, loaded, h1) =
      >>=-eq-ok (lift (load_active_task task seen))
        (λ t. lift (load_parent seen now task parent) >>= write t) db h in
    let (live, same) = lift-eq-ok (load_active_task task seen) db loaded in
    let (top, db2, found, h2) =
      >>=-eq-ok (lift (load_parent seen now task parent)) (write t) db1 h1 in
    let (there, same') = lift-eq-ok (load_parent seen now task parent) db1 found in
    (t, top, live, there, rw (same', same) at h2)

live_reply_posted :
    (now task actor parent : ℕ) (body : String) (db : Db)
    → any
        (is_live_reply db.next_id parent)
        (add_message now task comment (some actor) (some parent) none (text body) db).messages
      ≡ true
unfolding add_message
live_reply_posted now task actor parent body db =
    any-append (is_live_reply db.next_id parent) db.messages _ ∙ ground arith

live_reply_after_audit :
    (now task id parent : ℕ) (body : Body) (db : Db)
    → any (is_live_reply id parent) db.messages ≡ true
    → any (is_live_reply id parent) (add_message now task system none none none body db).messages
      ≡ true
unfolding add_message
live_reply_after_audit now task id parent body db h =
    any-append (is_live_reply id parent) db.messages _ ∙ ground arith

-- A reply that a user posts under a message, and a retirement of the submission that the thread may
-- belong to: the retirement leaves no active message that names the submission, and the reply is
-- still active, since a posted reply names its parent and no submission.
pub reply_outlives :
    (seen seen' : Db) (now later task actor parent sub requester : ℕ) (body reason : String)
    (db : Db) {s : Submission} {organization id : ℕ} {r : List ℕ} {u : Unit {0}} {db1 db2 : Db}
    → create seen now task actor (some parent) body db ≡ ok ((id, r), db1)
    → load_retire seen' later sub ≡ ok (s, organization)
    → retire_submission seen' later sub requester reason db1 ≡ ok (u, db2)
    → (any (in_thread sub) db2.messages ≡ false)
      × (any (is_live_reply id parent) db2.messages ≡ true)
unfolding retire_thread revert_slot
reply_outlives seen seen' now later task actor parent sub requester body reason db {s}
      {organization} {id} {r} {u} {db1} {db2} h e k =
    let (t, top, _, _, write) = create_steps seen now task actor (some parent) body db h in
    let (new, posted) =
      write_posts seen now t.organization_id task actor top (some parent) body db write in
    let kept = retire_messages seen' later sub requester reason db1 e k in
    let audit = submission_retired s.submission_no s.claimant_user_id requester reason in
    let mid = add_message later s.task_id system none none none audit db1 in
    let live : any (is_live_reply id parent) db1.messages ≡ true =
      rw (new, posted) (live_reply_posted now task actor parent body db) in
    (
      rw kept (thread_gone later sub mid.messages),
      rw kept (
          live_reply_kept later sub id parent mid.messages
          ∙ live_reply_after_audit later s.task_id id parent audit db1 live),
    )
