-- ===== src/Tasks/Claims.antt =====
-- api/src/tasks/tasks.service.ts: taking a slot and giving it up (claim, leave, removeClaimant).
use patrice.Prelude.{ℕ, ◌+◌, leb, false, not, Option, none, some, [], ◌∷◌, ◌++◌}
use patrice.TaskStatus.{RolledStatus}
use patrice.Db.Rows.{
  Task, TaskClaimant, claimed_this_task, left_this_task, Verb, task_claimed, task_left,
  task_claimant_removed, NotificationType, Db, claims_are_closed, already_claimed, no_openings,
  not_claimed, Error, not_found, conflict,
}
use patrice.Db.Tx.{Tx, pure, ◌>>=◌, ◌>>◌, gets, modify, lift, refuse_if, or_throw}
use patrice.Db.Tables.{
  find_slot, holds_slot, active_count, update_slot, recompute, task_view, load_active_task,
}
use patrice.Db.Emit.{create_system_message, log_activity, emit, requester_id}
use patrice.Tasks.Base.{Reply, task_event}

abbrev pub new_slot : (now task user id : ℕ) → TaskClaimant
new_slot now task user id = record {
  id = id;
  task_id = task;
  user_id = user;
  joined_at = now;
  has_submitted = false;
  left_at = none;
}

-- The row that a claim writes: the old slot made active again, or a new one.
unfoldable pub take_slot : (now task user : ℕ) → Option TaskClaimant → Db → Db
take_slot now task user (some existing) db =
    update_slot existing.id
      (λ c. record c { left_at = none; joined_at = now; has_submitted = false }) db
take_slot now task user none db = record db {
  claimants = db.claimants ++ new_slot now task user db.next_id ∷ [];
  next_id = db.next_id + 1;
}

unfoldable pub leave_slot : (now : ℕ) → TaskClaimant → Db → Db
leave_slot now slot = update_slot slot.id (λ c. record c { left_at = some now })

module _ (seen : Db) (now task_id : ℕ) where
  unfoldable pub claim : (user : ℕ) → Tx Reply
  claim user = do
    task ← lift (load_active_task task_id seen)
    refuse_if task.claims_closed (conflict claims_are_closed)
    existing ← gets (find_slot task_id user)
    refuse_if (holds_slot existing) (conflict already_claimed)
    taken ← gets (active_count task_id)
    refuse_if (leb task.openings taken) (conflict no_openings)
    modify (take_slot now task_id user existing)
    status ← recompute now task_id
    log_activity task.organization_id user task_id (task_claimed task_id user status)
    create_system_message now task_id (claimed_this_task user) none none
    requester ← requester_id task_id
    notified ←
        emit (
          task_event task NotificationType.claim_joined user (requester ∷ []) (task_id ∷ user ∷ []))
    view ← task_view task_id
    pure (view, notified)

  -- The part that `leave` and `removeClaimant` share, once the slot is found.
  unfoldable pub vacate : Task → TaskClaimant → (actor user : ℕ) → (RolledStatus → Verb) → Tx Reply
  vacate task slot actor user verb = do
    modify (leave_slot now slot)
    status ← recompute now task_id
    log_activity task.organization_id actor task_id (verb status)
    create_system_message now task_id (left_this_task user) none none
    requester ← requester_id task_id
    notified ←
        emit
          (task_event task NotificationType.claim_left actor (requester ∷ []) (task_id ∷ user ∷ []))
    view ← task_view task_id
    pure (view, notified)

  -- `!slot || slot.leftAt !== null`
  pub held_slot : Error → (user : ℕ) → Tx TaskClaimant
  held_slot e user = do
    slot ← gets (find_slot task_id user)
    refuse_if (not (holds_slot slot)) e
    or_throw e slot

  unfoldable pub leave : (user : ℕ) → Tx Reply
  unfolding held_slot
  leave user = do
    task ← lift (load_active_task task_id seen)
    slot ← held_slot (conflict not_claimed) user
    vacate task slot user user (task_left task_id user)

  unfoldable pub remove_claimant : (actor target : ℕ) → Tx Reply
  unfolding held_slot
  remove_claimant actor target = do
    task ← lift (load_active_task task_id seen)
    slot ← held_slot (not_found not_claimed) target
    vacate task slot actor target (task_claimant_removed task_id target)
