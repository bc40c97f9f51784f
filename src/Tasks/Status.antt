-- ===== src/Tasks/Status.antt =====
-- The status cache after each operation that recomputes it.
use mathlib.Core.Option
use patrice.Prelude.{
  ℕ, ◌≡◌, refl, ◌∙◌, sym, ap, Bool, true, Option, none, some, arith, find, ◌==◌, find-update_where,
  ℤ, pos, zero,
}
use patrice.TaskStatus.{RolledStatus}
use patrice.Db.Rows.{Db, Task, TaskClaimant, Verb, task_left, task_claimant_removed}
use patrice.Db.Tx.{Tx, ok, lift, ◌>>=◌, >>=-eq-ok, lift-eq-ok}
use patrice.Db.Tables.{
  find_task, update_task, write_status, recompute, rolled_status, slot_states, active_claimant_ids,
  slots_of, latest_active, load_active_task, task_view, find_slot, holds_slot,
}
use patrice.Db.Emit.{log_activity, create_system_message, emit, requester_id, claimant_recipients}
use patrice.Tasks.Base.{Reply}
use patrice.Tasks.Claims.{claim, take_slot, leave_slot, vacate, leave, remove_claimant}
use patrice.Tasks.Manage.{manage_claims, managed, write_claims, change_openings, notify_closed}

-- The task is there, and its status cache is the status that its slots and submissions give.
abbrev pub IsCached : ℕ → Db → Type 0
IsCached id db =
    (t : Task) × (find_task id db ≡ some t) × (t.status_cache ≡ some (rolled_status t db))

abbrev pub stamped : ℕ → RolledStatus → Task → Task
stamped now status t = record t { status_cache = some status; updated_at = now }

rolled_status-core :
    (t : Task) (db db' : Db)
    → db'.claimants ≡ db.claimants
    → db'.submissions ≡ db.submissions
    → rolled_status t db' ≡ rolled_status t db
unfolding rolled_status slot_states active_claimant_ids slots_of latest_active
rolled_status-core t db db' e f = rw (e, f) refl

pub find_task-write_status :
    (now id : ℕ) (status : RolledStatus) (db : Db)
    → find_task id (write_status now id status db)
      ≡ Option.map (stamped now status) (find_task id db)
unfolding find_task write_status
find_task-write_status now id status db =
    find-update_where (λ t. t.id) id (stamped now status) db.tasks (λ t. refl)

-- What is left is the tables with the status written, up to messages, audit rows and notifications.
IsCached-write_status :
    (now id : ℕ) (t : Task) (db db' : Db)
    → find_task id db ≡ some t
    → db'.tasks ≡ (write_status now id (rolled_status t db) db).tasks
    → db'.claimants ≡ db.claimants
    → db'.submissions ≡ db.submissions
    → IsCached id db'
unfolding find_task rolled_status
IsCached-write_status now id t db db' found same_tasks same_slots same_subs = (
  stamped now (rolled_status t db) t,
  ap (find (λ row. row.id == id)) same_tasks
      ∙ find_task-write_status now id (rolled_status t db) db
      ∙ ap (Option.map (stamped now (rolled_status t db))) found,
  ap some (sym (rolled_status-core t db db' same_slots same_subs)),
)

-- What an operation leaves: `mid` with the status of `id` written, and other tables changed.
abbrev pub Recomputed : ℕ → ℕ → Db → Db → Type 0
Recomputed now id mid db' =
    (t : Task) × (find_task id mid ≡ some t)
    × (db'.tasks ≡ (write_status now id (rolled_status t mid) mid).tasks)
    × (db'.claimants ≡ mid.claimants)
    × (db'.submissions ≡ mid.submissions)

pub Recomputed-IsCached : (now id : ℕ) (mid db' : Db) → Recomputed now id mid db' → IsCached id db'
Recomputed-IsCached now id mid db' (t, found, tasks, slots, subs) =
    IsCached-write_status now id t mid db' found tasks slots subs

module _ (seen : Db) (now id : ℕ) (db : Db) where
  pub claim_recomputes :
      (user : ℕ) {r : Reply} {db' : Db}
      → claim seen now id user db ≡ ok (r, db')
      → Recomputed now id (take_slot now id user (find_slot id user db) db) db'
  unfolding claim recompute log_activity create_system_message emit requester_id task_view
      write_status
  claim_recomputes user h = ground arith

  pub vacate_recomputes :
      (t : Task) (c : TaskClaimant) (actor user : ℕ) (verb : RolledStatus → Verb) {r : Reply}
      {db' : Db}
      → vacate seen now id t c actor user verb db ≡ ok (r, db')
      → Recomputed now id (leave_slot now c db) db'
  unfolding vacate recompute log_activity create_system_message emit requester_id task_view
      write_status
  vacate_recomputes t c actor user verb h = ground arith

  -- The slot that `leave` and `removeClaimant` give up.
  pub leave_vacates :
      (user : ℕ) {r : Reply} {db' : Db}
      → leave seen now id user db ≡ ok (r, db')
      → (t : Task) × (load_active_task id seen ≡ ok t)
        × (c : TaskClaimant) × (find_slot id user db ≡ some c)
        × (holds_slot (some c) ≡ true)
        × (vacate seen now id t c user user (task_left id user) db ≡ ok (r, db'))
  unfolding leave
  leave_vacates user h = ground arith

  pub remove_vacates :
      (actor user : ℕ) {r : Reply} {db' : Db}
      → remove_claimant seen now id actor user db ≡ ok (r, db')
      → (t : Task) × (load_active_task id seen ≡ ok t)
        × (c : TaskClaimant) × (find_slot id user db ≡ some c)
        × (holds_slot (some c) ≡ true)
        × (vacate seen now id t c actor user (task_claimant_removed id user) db ≡ ok (r, db'))
  unfolding remove_claimant
  remove_vacates actor user h = ground arith

  change_openings-db :
      (t : Task) (delta : Option ℤ) {n : Option ℕ} {db' : Db}
      → change_openings seen now id t delta db ≡ ok (n, db')
      → db' ≡ db
  unfolding change_openings
  change_openings-db t none h = ground arith
  change_openings-db t (some (pos zero)) h = ground arith
  change_openings-db t (some delta) h = ground arith

  pub write_claims_recomputes :
      (t : Task) (n : Option ℕ) (closed : Option Bool) (actor : ℕ) {r : Reply} {db' : Db}
      → write_claims seen now id t n closed actor db ≡ ok (r, db')
      → Recomputed now id (update_task now id (managed n closed) db) db'
  unfolding write_claims recompute log_activity emit claimant_recipients write_status notify_closed
  write_claims_recomputes t n (some true) actor h = ground arith
  write_claims_recomputes t n closed actor h = ground arith

  pub manage_steps :
      (delta : Option ℤ) (closed : Option Bool) (actor : ℕ) {r : Reply} {db' : Db}
      → manage_claims seen now id delta closed actor db ≡ ok (r, db')
      → (t : Task) × (load_active_task id seen ≡ ok t)
        × (n : Option ℕ) × (mid : Db) × (change_openings seen now id t delta db ≡ ok (n, mid))
        × (write_claims seen now id t n closed actor mid ≡ ok (r, db'))
  unfolding manage_claims
  manage_steps delta closed actor h =
      let write = λ (t : Task) (n : Option ℕ). write_claims seen now id t n closed actor in
      let (t, db1, loaded, h1) =
        >>=-eq-ok (lift (load_active_task id seen))
          (λ t. change_openings seen now id t delta >>= write t) db h in
      let (live, same) = lift-eq-ok (load_active_task id seen) db loaded in
      let (n, mid, decided, h2) =
        >>=-eq-ok (change_openings seen now id t delta) (write t) db1 h1 in
      (t, live, n, mid, rw same at decided, h2)

-- The operations that change a slot, the openings or whether claims are closed.
pub data SlotOp : Type 0 where
  claims : (user : ℕ) → SlotOp
  leaves : (user : ℕ) → SlotOp
  removes : (actor user : ℕ) → SlotOp
  manages : (openings_delta : Option ℤ) (claims_closed : Option Bool) (actor : ℕ) → SlotOp

abbrev pub run_slot_op : (seen : Db) (now id : ℕ) → SlotOp → Tx Reply
run_slot_op seen now id (claims user) = claim seen now id user
run_slot_op seen now id (leaves user) = leave seen now id user
run_slot_op seen now id (removes actor user) = remove_claimant seen now id actor user
run_slot_op seen now id (manages delta closed actor) = manage_claims seen now id delta closed actor

-- Whatever the operation had read of the task, and whatever the cache was before: when it succeeds,
-- the task's status cache is the status that its slots and their submissions give.
pub slot_op-IsCached :
    (seen : Db) (now id : ℕ) (op : SlotOp) (db : Db) {r : Reply} {db' : Db}
    → run_slot_op seen now id op db ≡ ok (r, db')
    → IsCached id db'
slot_op-IsCached seen now id (claims user) db {db'} h =
    Recomputed-IsCached now id _ db' (claim_recomputes seen now id db user h)
slot_op-IsCached seen now id (leaves user) db {db'} h =
    let (t, _, c, _, _, run) = leave_vacates seen now id db user h in
    Recomputed-IsCached now id _ db' (vacate_recomputes seen now id db t c user user _ run)
slot_op-IsCached seen now id (removes actor user) db {db'} h =
    let (t, _, c, _, _, run) = remove_vacates seen now id db actor user h in
    Recomputed-IsCached now id _ db' (vacate_recomputes seen now id db t c actor user _ run)
slot_op-IsCached seen now id (manages delta closed actor) db {db'} h =
    let (t, _, n, mid, _, run) = manage_steps seen now id db delta closed actor h in
    Recomputed-IsCached now id _ db' (write_claims_recomputes seen now id mid t n closed actor run)
