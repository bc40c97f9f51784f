-- ===== src/Tasks/Manage.antt =====
-- api/src/tasks/tasks.service.ts: manageClaims.
use patrice.Prelude.{
  ℕ, zero, get_or, ℤ, pos, add_int, ◌+◌, ltb, Bool, true, Option, none, some, List, [], ◌∷◌,
  if◌then◌else◌,
}
use patrice.Db.Rows.{
  Task, task_claims_updated, NotificationType, Db, openings_locked, invalid_openings, conflict,
  fault,
}
use patrice.Db.Tx.{Tx, pure, ◌>>=◌, ◌>>◌, gets, modify, lift, refuse_if, or_throw}
use patrice.Db.Tables.{
  to_view, find_task, find_division, active_count, update_task, recompute, load_active_task,
}
use patrice.Db.Emit.{log_activity, emit, claimant_recipients}
use patrice.Tasks.Base.{Reply, task_event}

-- The fields that `manageClaims` writes.
abbrev pub managed : (openings : Option ℕ) (claims_closed : Option Bool) → Task → Task
managed openings claims_closed t = record t {
  openings = get_or t.openings openings;
  claims_closed = get_or t.claims_closed claims_closed;
  version = t.version + 1;
}

module _ (seen : Db) (now task_id : ℕ) where
  -- `task.openings + dto.openingsDelta` with its two tests; `none` is an error.
  unfoldable pub new_openings : (openings taken : ℕ) → ℤ → Option ℕ
  new_openings openings taken delta = elim (add_int openings delta) [
    | none ↦ none
    | some n ↦ if ltb n taken then none else some n
  ]

  -- The openings that are written, `none` where the count is not touched.
  unfoldable pub change_openings : Task → Option ℤ → Tx (Option ℕ)
  change_openings task none = pure none
  change_openings task (some (pos zero)) = pure none
  change_openings task (some delta) = do
    division ← λ db. or_throw fault (find_division task.division_id db) db
    refuse_if division.openings_locked (conflict openings_locked)
    taken ← gets (active_count task_id)
    n ← or_throw (conflict invalid_openings) (new_openings task.openings taken delta)
    pure (some n)

  -- `if (dto.claimsClosed === true)`
  unfoldable pub notify_closed : Option Bool → Task → (actor : ℕ) → Tx (List ℕ)
  notify_closed (some true) task actor = do
    claimants ← claimant_recipients task_id
    emit (task_event task NotificationType.claims_closed actor claimants (task_id ∷ []))
  notify_closed _ task actor = pure []

  -- The writes, once the openings are decided.
  unfoldable pub write_claims :
      Task → (openings : Option ℕ) (claims_closed : Option Bool) (actor : ℕ) → Tx Reply
  write_claims task openings claims_closed actor = do
    modify (update_task now task_id (managed openings claims_closed))
    status ← recompute now task_id
    row ← λ db. or_throw fault (find_task task_id db) db
    log_activity task.organization_id actor task_id
        (task_claims_updated task_id row.openings row.claims_closed status)
    notified ← notify_closed claims_closed task actor
    view ← gets (to_view row)
    pure (view, notified)

  unfoldable pub manage_claims :
      (openings_delta : Option ℤ) (claims_closed : Option Bool) (actor : ℕ) → Tx Reply
  manage_claims openings_delta claims_closed actor = do
    task ← lift (load_active_task task_id seen)
    openings ← change_openings task openings_delta
    write_claims task openings claims_closed actor
