-- ===== src/Tasks/Revival.antt =====
-- A task that is retired and revived.
use patrice.Prelude.{ℕ, ◌+◌, none, some, [], ◌∷◌, ◌++◌}
use patrice.Db.Rows.{LifecycleState, Db, Task, task_revived}
use patrice.Db.Tables.{update_task}

abbrev gone : ℕ → Task → Task
gone now t = record t {
  lifecycle_state = LifecycleState.retired;
  retired_at = some now;
  version = t.version + 1;
  updated_at = now;
}

abbrev back : ℕ → Task → Task
back now t = record t {
  lifecycle_state = LifecycleState.active;
  retired_at = none;
  version = t.version + 1;
  updated_at = now;
}

abbrev revived_db : (now id actor : ℕ) → Task → Db → Db
revived_db now id actor t db =
    let db1 =
      update_task now id
        (λ x. record x {
          lifecycle_state = LifecycleState.active;
          retired_at = none;
          version = x.version + 1;
        })
        db in
    record db1 {
      activities =
          db1.activities
          ++ record {
            organization_id = t.organization_id;
            actor_user_id = some actor;
            subject_id = id;
            verb = task_revived id;
          }
            ∷ [];
    }
