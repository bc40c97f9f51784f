-- ===== src/Tasks/Capacity.antt =====
-- The openings of a task bound its active slots, as long as the task that an operation read is the
-- one that it locks; a stale read can break the bound.
use mathlib.Core.Option
use patrice.Prelude.{
  ℕ, zero, ◌+◌, ◌≤◌, ◌<◌, ◌≡◌, ◌∙◌, refl, sym, ap, Bool, true, false, Option, none, some, arith,
  find, ℤ, pos, find-update_where, Option-cases, inl, inr, ◌==◌, ◌⊎◌,
}
use patrice.TaskStatus.{RolledStatus}
use patrice.Db.Rows.{Db, Task, TaskClaimant, Verb, Error}
use patrice.Db.Tx.{ok, err, Result-cases}
use patrice.Db.Emit.{log_activity, create_system_message, emit, requester_id}
use patrice.Db.Tables.{
  find_task, update_task, update_slot, find_slot, holds_slot, is_retired, active_count,
  rolled_status, load_active_task, recompute, task_view,
}
use patrice.Tasks.Base.{Reply}
use patrice.Tasks.Claims.{claim, take_slot, leave_slot, vacate}
use patrice.Tasks.Manage.{managed, change_openings, new_openings, write_claims}
use patrice.Tasks.Slots.{IsSound, claim_fits, active_count-claimants, leave_slot-active_count}
use patrice.Tasks.Status.{
  Recomputed, find_task-write_status, claim_recomputes, vacate_recomputes, leave_vacates,
  remove_vacates, write_claims_recomputes, manage_steps, SlotOp, claims, leaves, removes, manages,
  run_slot_op,
}

-- The active slots of the task are within its openings.
abbrev pub Fits : ℕ → Db → Type 0
Fits id db = (t : Task) → find_task id db ≡ some t → active_count id db ≤ t.openings

Recomputed-openings :
    (now id : ℕ) (mid db' : Db) (t t' : Task)
    → Recomputed now id mid db'
    → find_task id mid ≡ some t
    → find_task id db' ≡ some t'
    → t'.openings ≡ t.openings
unfolding find_task
Recomputed-openings now id mid db' t t' (s, found, tasks, slots, subs) here there =
    let written =
      ap (find (λ row. row.id == id)) tasks
      ∙ find_task-write_status now id (rolled_status s mid) mid in
    ground arith

find_task-take_slot :
    (now id user : ℕ) (o : Option TaskClaimant) (db : Db)
    → find_task id (take_slot now id user o db) ≡ find_task id db
unfolding find_task take_slot update_slot
find_task-take_slot now id user none db = refl
find_task-take_slot now id user (some c) db = refl

pub find_task-leave_slot :
    (now id : ℕ) (c : TaskClaimant) (db : Db) → find_task id (leave_slot now c db) ≡ find_task id db
unfolding find_task leave_slot update_slot
find_task-leave_slot now id c db = refl

abbrev rewritten : ℕ → Option ℕ → Option Bool → Task → Task
rewritten now n closed t = let t' = managed n closed t in record t' { updated_at = now }

find_task-managed :
    (now id : ℕ) (n : Option ℕ) (closed : Option Bool) (db : Db)
    → find_task id (update_task now id (managed n closed) db)
      ≡ Option.map (rewritten now n closed) (find_task id db)
unfolding find_task update_task
find_task-managed now id n closed db =
    find-update_where (λ t. t.id) id (rewritten now n closed) db.tasks (λ t. refl)

module _ (seen : Db) (now id : ℕ) (db : Db) where
  pub change_openings-room :
      (t : Task) (delta : Option ℤ) {n : Option ℕ} {mid : Db}
      → change_openings seen now id t delta db ≡ ok (n, mid)
      → (mid ≡ db) × ((n ≡ none) ⊎ ((k : ℕ) × (n ≡ some k) × (active_count id db ≤ k)))
  unfolding change_openings new_openings
  change_openings-room t none h = ground arith
  change_openings-room t (some (pos zero)) h = ground arith
  change_openings-room t (some delta) h = ground arith

  vacate_frees :
      (t : Task) (c : TaskClaimant) (actor user : ℕ) (verb : RolledStatus → Verb) {r : Reply}
      {db' : Db}
      → IsSound db
      → find_slot id user db ≡ some c
      → holds_slot (some c) ≡ true
      → vacate seen now id t c actor user verb db ≡ ok (r, db')
      → (active_count id db' + 1 ≡ active_count id db) × (Fits id db → Fits id db')
  vacate_frees t c actor user verb {r} {db'} sound found held h =
      let done = vacate_recomputes seen now id db t c actor user verb h in
      let (s, there, tasks, slots, subs) = done in
      let before : find_task id db ≡ some s = sym (find_task-leave_slot now id c db) ∙ there in
      let less : active_count id db' + 1 ≡ active_count id db = omega (
        arith,
        active_count-claimants id (leave_slot now c db) db' slots,
        leave_slot-active_count now id user db sound c found held,
      ) in
      (
        less,
        λ fits t' e. omega (
          arith,
          fits s before,
          less,
          Recomputed-openings now id (leave_slot now c db) db' s t' done there e,
        ),
      )

  claim_keeps_Fits :
      (user : ℕ) {r : Reply} {db' : Db}
      → IsSound db
      → find_task id seen ≡ find_task id db
      → claim seen now id user db ≡ ok (r, db')
      → Fits id db'
  claim_keeps_Fits user {r} {db'} sound fresh h t' e =
      let done = claim_recomputes seen now id db user h in
      let (s, there, tasks, slots, subs) = done in
      let (t, found, _, _, _, bound) = claim_fits seen now id user db sound h in
      let here : find_task id db ≡ some s =
        sym (find_task-take_slot now id user (find_slot id user db) db) ∙ there in
      let same : t ≡ s = cc in
      let openings : t.openings ≡ s.openings = ap (λ (x : Task). x.openings) same in
      omega (
        arith,
        bound,
        openings,
        Recomputed-openings now id (take_slot now id user (find_slot id user db) db) db' s t' done
            there e,
      )

  managed-Fits :
      (n : Option ℕ) (closed : Option Bool) (s : Task)
      → Fits id db
      → (n ≡ none) ⊎ ((k : ℕ) × (n ≡ some k) × (active_count id db ≤ k))
      → find_task id (update_task now id (managed n closed) db) ≡ some s
      → active_count id db ≤ s.openings
  managed-Fits n closed s fits room there = elim (Option-cases (find_task id db)) [
    | inl gone ↦ ground (arith, find_task-managed now id n closed db)
    | inr (t, here) ↦ ground (arith, find_task-managed now id n closed db, fits t here)
  ]

  active_count-update_task :
      (f : Task → Task) → active_count id (update_task now id f db) ≡ active_count id db
  unfolding active_count update_task
  active_count-update_task f = refl

  manage_keeps_Fits :
      (delta : Option ℤ) (closed : Option Bool) (actor : ℕ) {r : Reply} {db' : Db}
      → Fits id db
      → run_slot_op seen now id (manages delta closed actor) db ≡ ok (r, db')
      → Fits id db'
  manage_keeps_Fits delta closed actor {r} {db'} fits h t' e =
      let (t, _, n, mid, decided, run) = manage_steps seen now id db delta closed actor h in
      let (same, room) = change_openings-room t delta decided in
      let run' : write_claims seen now id t n closed actor db ≡ ok (r, db') = rw same at run in
      let done = write_claims_recomputes seen now id db t n closed actor run' in
      let (s, there, tasks, slots, subs) = done in
      let mid' = update_task now id (managed n closed) db in
      omega (
        arith,
        managed-Fits n closed s fits room there,
        active_count-claimants id mid' db' slots,
        active_count-update_task (managed n closed),
        Recomputed-openings now id mid' db' s t' done there e,
      )

-- When the task that is read is the one that is locked, no operation on its slots makes them more
-- than its openings: neither a claim, nor a leave, nor a removal, nor a change of the openings.
pub slot_op-Fits :
    (seen : Db) (now id : ℕ) (op : SlotOp) (db : Db) {r : Reply} {db' : Db}
    → IsSound db
    → find_task id seen ≡ find_task id db
    → Fits id db
    → run_slot_op seen now id op db ≡ ok (r, db')
    → Fits id db'
slot_op-Fits seen now id (claims user) db sound fresh fits h =
    claim_keeps_Fits seen now id db user sound fresh h
slot_op-Fits seen now id (leaves user) db sound fresh fits h =
    let (t, _, c, found, held, run) = leave_vacates seen now id db user h in
    (vacate_frees seen now id db t c user user _ sound found held run).1 fits
slot_op-Fits seen now id (removes actor user) db sound fresh fits h =
    let (t, _, c, found, held, run) = remove_vacates seen now id db actor user h in
    (vacate_frees seen now id db t c actor user _ sound found held run).1 fits
slot_op-Fits seen now id (manages delta closed actor) db sound fresh fits h =
    manage_keeps_Fits seen now id db delta closed actor fits h

-- The guards of a claim are all that can refuse it.
claim_refused :
    (seen : Db) (now id user : ℕ) (db : Db) (t t' : Task) (e : Error)
    → find_task id seen ≡ some t
    → find_task id db ≡ some t'
    → t.claims_closed ≡ false
    → is_retired t.lifecycle_state ≡ false
    → holds_slot (find_slot id user db) ≡ false
    → active_count id db < t.openings
    → ¬ (claim seen now id user db ≡ err e)
unfolding claim load_active_task recompute log_activity create_system_message emit requester_id
    task_view find_task
claim_refused seen now id user db t t' e read locked open_to_all live free room h =
    let mid = take_slot now id user (find_slot id user db) db in
    ground (
      arith,
      find_task-take_slot now id user (find_slot id user db) db,
      find_task-write_status now id (rolled_status t' mid) mid,
    )

-- A claim that reads the task before a requester lowers its openings: with a slot free by the old
-- count and none by the new one it succeeds, and leaves more active slots than openings.
pub stale_claim_overfills :
    (seen : Db) (now id user : ℕ) (db : Db) (t t' : Task)
    → IsSound db
    → find_task id seen ≡ some t
    → find_task id db ≡ some t'
    → t.claims_closed ≡ false
    → is_retired t.lifecycle_state ≡ false
    → holds_slot (find_slot id user db) ≡ false
    → t'.openings ≤ active_count id db
    → active_count id db < t.openings
    → (r : Reply) × (db' : Db) × (claim seen now id user db ≡ ok (r, db'))
      × (t'.openings < active_count id db')
stale_claim_overfills seen now id user db t t' sound read locked open_to_all live free full room =
    elim (Result-cases (claim seen now id user db)) [
      | inl ((r, db'), done) ↦
          let (_, _, _, _, more, _) = claim_fits seen now id user db sound done in
          (r, db', done, omega (arith, more))
      | inr (e, refused) ↦
          absurd (
            claim_refused seen now id user db t t' e read locked open_to_all live free room refused)
    ]
