-- ===== src/Tasks/Completion.antt =====
-- What is left of a manual completion when a claimant leaves.
use mathlib.Core.Option
use patrice.Prelude.{
  ℕ, ◌+◌, ◌≤◌, ◌<◌, ◌≡◌, refl, ap, ◌∙◌, Bool, false, some, List, [], ◌∷◌, arith, find, count, keep,
  map, find_passes, length, find-update_where, ◌==◌,
}
use patrice.TaskStatus.{RolledStatus}
use patrice.TaskStatus.Readings.{min_rule-open}
use patrice.Db.Rows.{Db, Task, TaskClaimant}
use patrice.Db.Tx.{ok}
use patrice.Db.Tables.{
  find_task, update_task, task_view, active_count, rolled_status, slot_states, active_claimant_ids,
  slots_of, is_active_slot,
}
use patrice.Db.Emit.{create_system_message, log_activity, emit, claimant_recipients, add_message}
use patrice.Tasks.Base.{Reply}
use patrice.Tasks.Claims.{leave, leave_slot}
use patrice.Tasks.Edits.{complete}
use patrice.Tasks.Slots.{IsSound, active_count-claimants, leave_slot-active_count}
use patrice.Tasks.Status.{vacate_recomputes, leave_vacates, find_task-write_status, stamped}
use patrice.Tasks.Capacity.{Fits, find_task-leave_slot}
use patrice.Tasks.Soundness.{IsSound-kept}

abbrev completed : ℕ → Task → Task
completed now t = record t {
  status_cache = some RolledStatus.approved;
  version = t.version + 1;
  updated_at = now;
}

complete_writes :
    (seen : Db) (now id actor : ℕ) (db : Db) {r : Reply} {db' : Db}
    → complete seen now id actor db ≡ ok (r, db')
    → (db'.claimants ≡ db.claimants)
      × (db.next_id ≤ db'.next_id)
      × (find_task id db' ≡ Option.map (completed now) (find_task id db))
unfolding complete find_task update_task task_view create_system_message add_message log_activity
    emit claimant_recipients
complete_writes seen now id actor db h =
    ground (arith, find-update_where (λ t. t.id) id (completed now) db.tasks (λ t. refl))

length-keep {ℓ} : {A : Type ℓ} (p : A → Bool) (l : List A) → length (keep p l) ≡ count p l
length-keep p [] = refl
length-keep p (x ∷ l) = ground (arith, length-keep p l)

length-map {ℓ} : {A B : Type ℓ} (f : A → B) (l : List A) → length (map f l) ≡ length l
length-map f [] = refl
length-map f (x ∷ l) = omega (arith, length-map f l)

length-slot_states : (id : ℕ) (db : Db) → length (slot_states id db) ≡ active_count id db
unfolding slot_states active_claimant_ids slots_of active_count
length-slot_states id db =
    length-map _ (map (λ (c : TaskClaimant). c.user_id) (keep (is_active_slot id) db.claimants))
    ∙ length-map (λ (c : TaskClaimant). c.user_id) (keep (is_active_slot id) db.claimants)
    ∙ length-keep (is_active_slot id) db.claimants

rolled_status-open :
    (t : Task) (db : Db)
    → t.claims_closed ≡ false
    → active_count t.id db < t.openings
    → rolled_status t db ≡ RolledStatus.open_
unfolding rolled_status
rolled_status-open t db live room =
    (min_rule-open _).1 (live, omega (arith, length-slot_states t.id db, room))

-- A requester completes a task whose claims are open, which makes its status approved. When a
-- claimant then leaves, the status is open again: nothing but the cache keeps the completion.
pub completion_lost :
    (seen seen' : Db) (now later id actor user : ℕ) (db : Db) (t : Task) {r r' : Reply}
    {db1 db2 : Db}
    → IsSound db
    → Fits id db
    → find_task id db ≡ some t
    → t.claims_closed ≡ false
    → complete seen now id actor db ≡ ok (r, db1)
    → leave seen' later id user db1 ≡ ok (r', db2)
    → (find_task id db1 ≡ some (completed now t))
      × ((t' : Task) × (find_task id db2 ≡ some t') × (t'.status_cache ≡ some RolledStatus.open_))
unfolding find_task
completion_lost seen seen' now later id actor user db t {r} {r'} {db1} {db2} sound fits found live h
      k =
    let (slots, next, row) = complete_writes seen now id actor db h in
    let there : find_task id db1 ≡ some (completed now t) =
      row ∙ ap (Option.map (completed now)) found in
    let (_, _, c, foundc, held, run) = leave_vacates seen' later id db1 user k in
    let mid = leave_slot later c db1 in
    let (s, here, tasks, _, _) = vacate_recomputes seen' later id db1 _ c user user _ run in
    let kept : find_task id mid ≡ some (completed now t) =
      find_task-leave_slot later id c db1 ∙ there in
    let same : s ≡ completed now t = cc in
    let less =
      leave_slot-active_count later id user db1 (IsSound-kept db db1 slots next sound) c foundc
        held in
    let own : t.id ≡ id = ground (arith, find_passes (λ (x : Task). x.id == id) db.tasks found) in
    let room : active_count t.id mid < t.openings =
      rw own (omega (arith, less, active_count-claimants id db db1 slots, fits t found)) in
    let reopened : rolled_status s mid ≡ RolledStatus.open_ =
      rw same (rolled_status-open (completed now t) mid live room) in
    (
      there,
      (
        stamped later (rolled_status s mid) s,
        ap (find (λ x. x.id == id)) tasks
            ∙ find_task-write_status later id (rolled_status s mid) mid
            ∙ ap (Option.map (stamped later (rolled_status s mid))) here,
        ap some reopened,
      ),
    )
