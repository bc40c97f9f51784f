-- ===== src/Tasks/Edits.antt =====
-- api/src/tasks/tasks.service.ts: complete, changeRequester, update, retire and revive.
use patrice.Prelude.{ℕ, get_or, ◌+◌, not, Option, none, some, [], ◌∷◌, String}
use patrice.TaskStatus.{RolledStatus}
use patrice.Db.Rows.{
  LifecycleState, Task, marked_complete, requester_changed_to, task_updated, task_retired,
  task_revived, task_completed, task_requester_changed, NotificationType, Db, task_not_found,
  already_retired, not_revivable, user_not_found, user_retired, not_found, conflict,
}
use patrice.Db.Tx.{Result, ok, err, Tx, pure, ◌>>=◌, ◌>>◌, modify, lift, refuse_if, or_throw}
use patrice.Lifecycle.{is_revivable}
use patrice.Db.Tables.{is_retired, find_task, find_user, update_task, task_view, load_active_task}
use patrice.Db.Emit.{create_system_message, log_activity, emit, requester_id, claimant_recipients}
use patrice.Tasks.Base.{Reply, task_event}

module _ (seen : Db) (now task_id : ℕ) where
  unfoldable pub complete : (actor : ℕ) → Tx Reply
  complete actor = do
    task ← lift (load_active_task task_id seen)
    modify (
        update_task now task_id
          (λ t. record t { status_cache = some RolledStatus.approved; version = t.version + 1 }))
    view ← task_view task_id
    create_system_message now task_id (marked_complete actor) none none
    log_activity task.organization_id actor task_id (task_completed task_id RolledStatus.approved)
    claimants ← claimant_recipients task_id
    notified ← emit (task_event task NotificationType.completed actor claimants (task_id ∷ []))
    pure (view, notified)

  unfoldable pub change_requester : (actor user : ℕ) → Tx Reply
  change_requester actor user = do
    task ← lift (load_active_task task_id seen)
    new_requester ← or_throw (not_found user_not_found) (find_user user task.organization_id seen)
    refuse_if (is_retired new_requester.lifecycle_state) (conflict user_retired)
    old ← requester_id task_id
    modify (
        update_task now task_id
          (λ t. record t { requester_user_id = user; version = t.version + 1 }))
    view ← task_view task_id
    log_activity task.organization_id actor task_id (task_requester_changed task_id user)
    create_system_message now task_id (requester_changed_to user) none none
    notified ← emit (
        task_event task NotificationType.requester_changed actor (old ∷ some user ∷ [])
          (task_id ∷ user ∷ actor ∷ []))
    pure (view, notified)

  -- `findUnique`, or 404, with no test of the lifecycle.
  unfoldable pub load_task : Result Task
  load_task = elim (find_task task_id seen) [
    | none ↦ err (not_found task_not_found)
    | some t ↦ ok t
  ]

  unfoldable pub update : (name description : Option String) → (actor : ℕ) → Tx Reply
  unfolding load_task
  update name description actor = do
    task ← lift load_task
    modify (
        update_task now task_id (λ t. record t {
          name = get_or t.name name;
          description = get_or t.description description;
          version = t.version + 1;
        }))
    view ← task_view task_id
    log_activity task.organization_id actor task_id (task_updated task_id)
    pure (view, [])

  unfoldable pub retire : (actor : ℕ) → Tx Reply
  unfolding load_task
  retire actor = do
    task ← lift load_task
    refuse_if (is_retired task.lifecycle_state) (conflict already_retired)
    modify (
        update_task now task_id (λ t. record t {
          lifecycle_state = LifecycleState.retired;
          retired_at = some now;
          version = t.version + 1;
        }))
    view ← task_view task_id
    log_activity task.organization_id actor task_id (task_retired task_id)
    claimants ← claimant_recipients task_id
    notified ←
        emit (task_event task NotificationType.task_retired_type actor claimants (task_id ∷ []))
    pure (view, notified)

  -- `grace_ms` is `GraceService.windowMs` of the task's organization.
  unfoldable pub revive : (grace_ms actor : ℕ) → Tx Reply
  unfolding load_task
  revive grace_ms actor = do
    task ← lift load_task
    refuse_if (not (is_revivable now task.lifecycle_state task.retired_at grace_ms))
        (conflict not_revivable)
    modify (
        update_task now task_id (λ t. record t {
          lifecycle_state = LifecycleState.active;
          retired_at = none;
          version = t.version + 1;
        }))
    view ← task_view task_id
    log_activity task.organization_id actor task_id (task_revived task_id)
    pure (view, [])
