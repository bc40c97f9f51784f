-- ===== src/Tasks/Tests.antt =====
-- Runs of the operations on a task with two openings, and the theorems at it.
use patrice.Prelude.{ℕ, ◌+◌, ◌<◌, ◌≡◌, refl, false, none, some, [], ◌∷◌, arith}
use patrice.TaskStatus.{RolledStatus, compute_min_rule_status}
use patrice.Db.Rows.{LifecycleState, Task, TaskClaimant, Db, no_openings, conflict, already_claimed}
use patrice.Db.Tx.{Result, ok, err}
use patrice.Db.Tables.{
  no_directory, find_task, find_slot, active_count, load_active_task, recompute, task_view,
  write_status, update_task, update_slot, rolled_status, find_division, to_view,
  active_claimant_ids, slots_of, slot_states, latest_active, latest_in,
}
use patrice.Db.Emit.{
  create_system_message, log_activity, compute_recipients, recipients_from, emit, max_seq,
  insert_notification, insert_all, requester_id, claimant_recipients,
}
use patrice.Tasks.Base.{Reply}
use patrice.Tasks.Claims.{claim, take_slot, leave_slot, vacate, leave, remove_claimant}
use patrice.Tasks.Completion.{completion_lost}
use patrice.Tasks.Edits.{complete}
use patrice.Tasks.Manage.{new_openings, change_openings, notify_closed, write_claims, manage_claims}
use patrice.Tasks.Slots.{IsSound}
use patrice.Tasks.Status.{IsCached, claims, leaves, slot_op-IsCached}
use patrice.Tasks.Refinement.{SpecStep, members, slot_op-SpecStep}
use patrice.Tasks.Capacity.{Fits, slot_op-Fits, stale_claim_overfills}
use patrice.Tasks.Soundness.{slot_op-IsSound, Serial, begin, then_op, Serial-Fits}

-- The task, with a number of openings, and user 5 on it.
abbrev task : ℕ → Task
task n = record {
  id = 1;
  organization_id = 9;
  name = "Banner";
  description = "Draw it";
  division_id = 2;
  team_id = none;
  requester_user_id = 4;
  openings = n;
  claims_closed = false;
  status_cache = none;
  lifecycle_state = LifecycleState.active;
  retired_at = none;
  version = 0;
  created_at = 0;
  updated_at = 0;
}

abbrev slot : TaskClaimant
slot = record {
  id = 10;
  task_id = 1;
  user_id = 5;
  joined_at = 3;
  has_submitted = false;
  left_at = none;
}

abbrev start : ℕ → Db
start n = record {
  tasks = task n ∷ [];
  claimants = slot ∷ [];
  divisions =
      record {
        id = 2;
        organization_id = 9;
        name = "workshop";
        default_openings = 1;
        openings_locked = false;
        restrict_claims = false;
        lifecycle_state = LifecycleState.active;
        retired_at = none;
        version = 0;
      }
      ∷ [];
  users = [];
  submissions = [];
  messages = [];
  activities = [];
  notifications = [];
  answers = [];
  attachments = [];
  templates = [];
  directory = no_directory;
  next_id = 11;
}

-- The tables that an operation leaves, and the start if it is refused.
abbrev after : Result (Reply × Db) → Db
after (ok (r, db)) = db
after (err e) = start 2

abbrev joined : Db
joined = after (claim (start 2) 100 1 6 (start 2))

tasks : Unit {0}
unfolding find_task find_slot active_count load_active_task recompute task_view write_status
    update_task update_slot rolled_status find_division to_view active_claimant_ids slots_of
    slot_states latest_active latest_in compute_min_rule_status create_system_message log_activity
    compute_recipients recipients_from emit max_seq insert_notification insert_all requester_id
    claimant_recipients claim take_slot leave_slot vacate leave remove_claimant new_openings
    change_openings notify_closed write_claims manage_claims
tasks = tt

start-IsSound : (n : ℕ) → IsSound (start n)
start-IsSound n = record {
  ids_distinct = ground arith;
  ids_old = ground arith;
  one_slot = λ t u. ground arith;
}

start-Fits : (n : ℕ) → Fits 1 (start (n + 1))
unfolding tasks
start-Fits n t found = ground arith

claim_runs :
    (active_count 1 joined ≡ 2)
    × (claim joined 101 1 6 joined ≡ err (conflict already_claimed))
    × (claim joined 101 1 7 joined ≡ err (conflict no_openings))
unfolding tasks
claim_runs = (refl, refl, refl)

slot_op-IsCached_example : IsCached 1 joined
unfolding tasks
slot_op-IsCached_example = slot_op-IsCached (start 2) 100 1 (claims 6) (start 2) refl

slot_op-SpecStep_example : SpecStep (claims 6) (members 1 (start 2)) (members 1 joined)
unfolding tasks
slot_op-SpecStep_example =
    slot_op-SpecStep (start 2) 100 1 (claims 6) (start 2) (start-IsSound 2) refl

slot_op-IsSound_example : IsSound joined
unfolding tasks
slot_op-IsSound_example =
    slot_op-IsSound (start 2) 100 1 (claims 6) (start 2) (start-IsSound 2) refl

slot_op-Fits_example : Fits 1 joined
unfolding tasks
slot_op-Fits_example =
    slot_op-Fits (start 2) 100 1 (claims 6) (start 2) (start-IsSound 2) refl (start-Fits 1) refl

-- Two openings when the task is read, one when it is locked.
stale_claim_overfills_example :
    (r : Reply) × (db' : Db) × (claim (start 2) 100 1 6 (start 1) ≡ ok (r, db'))
    × (1 < active_count 1 db')
unfolding tasks
stale_claim_overfills_example =
    stale_claim_overfills (start 2) 100 1 6 (start 1) (task 2) (task 1) (start-IsSound 1) refl refl
      refl refl refl (ground arith) (ground arith)

history : Serial 1 (start 2) (after (leave joined 102 1 5 joined))
unfolding tasks
history =
    then_op {db = joined} (then_op {db = start 2} begin 100 (claims 6) refl) 102 (leaves 5) refl

-- User 6 claims, and user 5 leaves.
Serial-Fits_example :
    IsSound (after (leave joined 102 1 5 joined)) × Fits 1 (after (leave joined 102 1 5 joined))
unfolding tasks
Serial-Fits_example = Serial-Fits history (start-IsSound 2) (start-Fits 1)

-- The task is completed, and user 5 leaves it.
completion_lost_example :
    (find_task 1 (after (complete (start 2) 50 1 4 (start 2)))
      ≡ some (record (task 2) {
        status_cache = some RolledStatus.approved;
        version = 1;
        updated_at = 50;
      }))
    × ((t' : Task) × (find_task 1
            (after (leave (start 2) 60 1 5 (after (complete (start 2) 50 1 4 (start 2)))))
          ≡ some t')
        × (t'.status_cache ≡ some RolledStatus.open_))
unfolding tasks complete
completion_lost_example =
    completion_lost (start 2) (start 2) 50 60 1 4 5 (start 2) (task 2) (start-IsSound 2)
      (start-Fits 1) refl refl refl refl
