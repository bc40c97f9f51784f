-- ===== src/Db/Tables.antt =====
-- Reads and writes of the tables, with api/src/tasks/task-status.service.ts and the loading and the
-- views of api/src/tasks/tasks.service.ts.
use patrice.Prelude.{
  ℕ, ltb, Bool, true, false, not, ◌&&◌, Option, none, some, List, [], ◌∷◌, map, count, keep, find,
  update_where, is_some, ◌==◌, if◌then◌else◌,
}
use patrice.TaskStatus.{SubmissionState, RolledStatus, compute_min_rule_status}
use patrice.Db.Directory.{Directory}
use patrice.Db.Rows.{
  LifecycleState, active, retired, Task, TaskView, TaskClaimant, Division, AppUser, Submission, Db,
  task_not_found, task_is_retired, not_found, conflict, fault,
}
use patrice.Db.Tx.{Result, ok, err, Tx, pure, ◌>>=◌, ◌>>◌, gets, modify, or_throw}

abbrev pub is_retired : LifecycleState → Bool
is_retired retired = true
is_retired _ = false

abbrev pub is_active : LifecycleState → Bool
is_active active = true
is_active _ = false

unfoldable pub find_task : ℕ → Db → Option Task
find_task id db = find (λ t. t.id == id) db.tasks

unfoldable pub find_division : ℕ → Db → Option Division
find_division id db = find (λ d. d.id == id) db.divisions

unfoldable pub find_user : (id organization : ℕ) → Db → Option AppUser
find_user id organization db = find (λ u. u.id == id && u.organization_id == organization) db.users

abbrev pub is_slot_of : (task user : ℕ) → TaskClaimant → Bool
is_slot_of task user c = c.task_id == task && c.user_id == user

abbrev pub is_active_slot : (task : ℕ) → TaskClaimant → Bool
is_active_slot task c = c.task_id == task && not (is_some c.left_at)

-- `taskClaimant.findUnique({ where: { taskId_userId } })`
unfoldable pub find_slot : (task user : ℕ) → Db → Option TaskClaimant
find_slot task user db = find (is_slot_of task user) db.claimants

-- `existing && existing.leftAt === null`
abbrev pub holds_slot : Option TaskClaimant → Bool
holds_slot none = false
holds_slot (some c) = not (is_some c.left_at)

unfoldable pub slots_of : (task : ℕ) → Db → List TaskClaimant
slots_of task db = keep (is_active_slot task) db.claimants

unfoldable pub active_count : (task : ℕ) → Db → ℕ
active_count task db = count (is_active_slot task) db.claimants

unfoldable pub active_claimant_ids : (task : ℕ) → Db → List ℕ
active_claimant_ids task db = map (λ c. c.user_id) (slots_of task db)

unfoldable pub find_submission : ℕ → Db → Option Submission
find_submission id db = find (λ s. s.id == id) db.submissions

-- The greater `submissionNo` of the two; the earlier row if they are equal.
abbrev pub newer : Submission → Option Submission → Submission
newer s none = s
newer s (some later) = if ltb s.submission_no later.submission_no then later else s

-- `findFirst({ where, orderBy: { submissionNo: 'desc' } })`
unfoldable pub latest_in : (Submission → Bool) → List Submission → Option Submission
latest_in p [] = none
latest_in p (s ∷ rest) = let later = latest_in p rest in if p s then some (newer s later) else later

abbrev pub is_submission_of : (task user : ℕ) → Submission → Bool
is_submission_of task user s = s.task_id == task && s.claimant_user_id == user

unfoldable pub latest_active : (task user : ℕ) → Db → Option Submission
latest_active task user db =
    latest_in (λ s. is_submission_of task user s && is_active s.lifecycle_state) db.submissions

unfoldable pub latest_any : (task user : ℕ) → Db → Option Submission
latest_any task user db = latest_in (is_submission_of task user) db.submissions

abbrev pub state_of : Option Submission → Option SubmissionState
state_of none = none
state_of (some s) = some s.state

unfoldable pub slot_states : (task : ℕ) → Db → List (Option SubmissionState)
slot_states task db =
    map (λ user. state_of (latest_active task user db)) (active_claimant_ids task db)

unfoldable pub rolled_status : Task → Db → RolledStatus
rolled_status t db = compute_min_rule_status (record {
  openings = t.openings;
  claims_closed = t.claims_closed;
  claimant_states = slot_states t.id db;
})

-- `task.update`: the row of this id, with `@updatedAt`.
unfoldable pub update_task : (now id : ℕ) → (Task → Task) → Db → Db
update_task now id f db = record db {
  tasks =
      update_where (λ t. t.id == id) (λ t. let t' = f t in record t' { updated_at = now }) db.tasks;
}

-- `taskClaimant.update({ where: { id } })`
unfoldable pub update_slot : (id : ℕ) → (TaskClaimant → TaskClaimant) → Db → Db
update_slot id f db = record db { claimants = update_where (λ c. c.id == id) f db.claimants }

unfoldable pub write_status : (now task : ℕ) → RolledStatus → Db → Db
unfolding update_task
write_status now task status =
    update_task now task (λ row. record row { status_cache = some status })

-- TaskStatusService.recompute
unfoldable pub recompute : (now task : ℕ) → Tx RolledStatus
recompute now task = do
  t ← λ db. or_throw fault (find_task task db) db
  status ← gets (rolled_status t)
  modify (write_status now task status)
  pure status

-- `toView` of a row with its active claimants
unfoldable pub to_view : Task → Db → TaskView
to_view t db = record {
  id = t.id;
  name = t.name;
  description = t.description;
  division_id = t.division_id;
  team_id = t.team_id;
  requester_user_id = t.requester_user_id;
  openings = t.openings;
  status_cache = t.status_cache;
  lifecycle_state = t.lifecycle_state;
  retired_at = t.retired_at;
  version = t.version;
  created_at = t.created_at;
  updated_at = t.updated_at;
  claimant_user_ids = active_claimant_ids t.id db;
}

-- `findUniqueOrThrow` with the claimants, then `toView`.
unfoldable pub task_view : (task : ℕ) → Tx TaskView
task_view task db = elim (find_task task db) [ none ↦ err fault | some t ↦ ok (to_view t db, db) ]

-- `loadActiveTask`, which reads outside of the transaction.
unfoldable pub load_active_task : ℕ → Db → Result Task
load_active_task id seen = elim (find_task id seen) [
  | none ↦ err (not_found task_not_found)
  | some t ↦ if is_retired t.lifecycle_state then err (conflict task_is_retired) else ok t
]

-- The tables of users and access with no rows.
abbrev pub no_directory : Directory
no_directory = record {
  organizations = [];
  roles = [];
  user_roles = [];
  grants = [];
  teams = [];
  identities = [];
  sessions = [];
  invitations = [];
  invitation_uses = [];
}

-- The tables with no rows.
abbrev pub no_rows : Db
no_rows = record {
  tasks = [];
  claimants = [];
  divisions = [];
  users = [];
  submissions = [];
  messages = [];
  activities = [];
  notifications = [];
  answers = [];
  attachments = [];
  templates = [];
  directory = no_directory;
  next_id = 100;
}
