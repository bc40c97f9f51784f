-- ===== src/Tasks/Slots.antt =====
-- The slots of a task: how each operation moves their count, and that claims stay within the
-- openings.
use patrice.Prelude.{
  ℕ, ◌≡◌, ◌≤◌, ◌<◌, ◌+◌, inl, inr, refl, ◌∙◌, true, false, none, some, arith, All, count,
  count-append, find, Distinct, count-update_where, find_passes, Option-cases,
}
use patrice.Db.Rows.{Db, Task, TaskClaimant}
use patrice.Db.Tx.{ok}
use patrice.Db.Tables.{
  find_task, find_slot, holds_slot, is_slot_of, is_active_slot, active_count, recompute,
  load_active_task, task_view, update_task, write_status, update_slot, is_retired,
}
use patrice.Db.Emit.{log_activity, create_system_message, emit, requester_id}
use patrice.Tasks.Base.{Reply}
use patrice.Tasks.Claims.{claim, take_slot, leave_slot}

-- The rows of slots are well formed: ids are distinct and generated before, and a user has at most
-- one slot on a task.
pub record IsSound (db : Db) : Type 0 where
  pub ids_distinct : Distinct (λ c. c.id) db.claimants
  pub ids_old : All (λ c. c.id < db.next_id) db.claimants
  pub one_slot : (task user : ℕ) → count (is_slot_of task user) db.claimants ≤ 1

abbrev pub slot_id : TaskClaimant → ℕ
slot_id c = c.id

abbrev pub renew : ℕ → TaskClaimant → TaskClaimant
renew now c = record c { left_at = none; joined_at = now; has_submitted = false }

abbrev pub give_up : ℕ → TaskClaimant → TaskClaimant
give_up now c = record c { left_at = some now }

module _ (now id user : ℕ) (db : Db) (sound : IsSound db) where
  take_slot-active_count :
      holds_slot (find_slot id user db) ≡ false
      → active_count id (take_slot now id user (find_slot id user db) db) ≡ active_count id db + 1
  unfolding active_count take_slot update_slot find_slot
  take_slot-active_count free = elim (Option-cases (find (is_slot_of id user) db.claimants)) [
    | inl new ↦ rw (new, count-append) (ground arith)
    | inr (c, old) ↦ rw old (
        ground (
          arith,
          count-update_where slot_id (is_slot_of id user) (is_active_slot id) (renew now)
              db.claimants c sound.ids_distinct old,
          find_passes (is_slot_of id user) db.claimants old,
        ))
  ]

  pub leave_slot-active_count :
      (c : TaskClaimant)
      → find_slot id user db ≡ some c
      → holds_slot (some c) ≡ true
      → active_count id (leave_slot now c db) + 1 ≡ active_count id db
  unfolding active_count leave_slot update_slot find_slot
  leave_slot-active_count c found held = ground (
    arith,
    count-update_where slot_id (is_slot_of id user) (is_active_slot id) (give_up now) db.claimants c
        sound.ids_distinct found,
    find_passes (is_slot_of id user) db.claimants found,
  )

pub active_count-claimants :
    (id : ℕ) (db db' : Db) → db'.claimants ≡ db.claimants → active_count id db' ≡ active_count id db
unfolding active_count
active_count-claimants id db db' e = rw e refl

module _ (seen : Db) (now id user : ℕ) (db : Db) where
  pub claim_steps :
      {r : Reply} {db' : Db}
      → claim seen now id user db ≡ ok (r, db')
      → (t : Task) × (find_task id seen ≡ some t)
        × (t.claims_closed ≡ false)
        × (is_retired t.lifecycle_state ≡ false)
        × (holds_slot (find_slot id user db) ≡ false)
        × (active_count id db < t.openings)
        × (db'.claimants ≡ (take_slot now id user (find_slot id user db) db).claimants)
  unfolding claim load_active_task recompute log_activity create_system_message emit requester_id
      task_view update_task write_status
  claim_steps h = ground arith

  -- A claim that succeeds takes exactly one slot more, for a task that was neither retired nor
  -- closed when it was read, and stays within the openings that were read.
  pub claim_fits :
      {r : Reply} {db' : Db}
      → IsSound db
      → claim seen now id user db ≡ ok (r, db')
      → (t : Task) × (find_task id seen ≡ some t)
        × (t.claims_closed ≡ false)
        × (is_retired t.lifecycle_state ≡ false)
        × (active_count id db' ≡ active_count id db + 1)
        × (active_count id db' ≤ t.openings)
  claim_fits {db'} sound h =
      let (t, found, open_to_all, live, free, room, same) = claim_steps h in
      let more =
        active_count-claimants id (take_slot now id user (find_slot id user db) db) db' same
        ∙ take_slot-active_count now id user db sound free in
      (t, found, open_to_all, live, more, omega arith)
