-- ===== src/Gc/Tests.antt =====
-- A retired user with a role, a session and an invitation, and a retired task.
use patrice.Prelude.{
  ℕ, ◌+◌, count, Option, ◌≡◌, refl, false, not, ◌&&◌, none, some, [], ◌∷◌, any, arith, ◌==◌,
  is_some,
}
use patrice.Db.Directory.{UserRoleSource, LifecycleState}
use patrice.TaskStatus.{SubmissionState}
use patrice.Db.Rows.{
  AppUser, Task, Message, MessageKind, text, Submission, Attachment, no_value, Db, fault,
}
use patrice.Db.Tx.{Result, ok, err}
use patrice.Db.Tables.{no_rows, no_directory, find_task, is_retired}
use patrice.Access.Op.{update_user, put_users}
use patrice.Gc.{
  past_grace, user_has_history, log_system, log_revoked, mark_issued, revoke_issued_invitations,
  null_received_invitation_emails, purge_user_satellites, scrub_user, forget_uses, drop_user,
  remove_user, delete_user, without_task, delete_task_aggregate, users_to_scrub, users_to_delete,
  collectable_tasks,
}
use patrice.Lifecycle.{is_revivable}
use patrice.Gc.Cutoff.{past_grace-is_revivable}
use patrice.Gc.Collect.{IsKeyed, IsGone, SameTask, delete_task_aggregate-IsGone}
use patrice.Gc.Scrub.{IsPurged, delete_user-IsPurged}

abbrev user : AppUser
user = record {
  id = 1;
  organization_id = 9;
  email = some "ada@example.org";
  display_name = "Ada";
  created_via_invitation_id = none;
  lifecycle_state = LifecycleState.retired;
  deactivated_at = none;
  retired_at = some 10;
  version = 0;
}

abbrev task : Task
task = record {
  id = 2;
  organization_id = 9;
  name = "Banner";
  description = "";
  division_id = 3;
  team_id = none;
  requester_user_id = 1;
  openings = 1;
  claims_closed = false;
  status_cache = none;
  lifecycle_state = LifecycleState.retired;
  retired_at = some 10;
  version = 0;
  created_at = 0;
  updated_at = 0;
}

abbrev a_message : (id task : ℕ) → Message
a_message id task = record {
  id = id;
  task_id = task;
  kind = MessageKind.comment;
  sender_user_id = some 1;
  parent_message_id = none;
  submission_id = none;
  body = text "See the file";
  lifecycle_state = LifecycleState.active;
  retired_at = none;
  edited_at = none;
  version = 0;
  created_at = 5;
}

abbrev a_submission : (id task : ℕ) → Submission
a_submission id task = record {
  id = id;
  task_id = task;
  claimant_user_id = 1;
  submission_no = 1;
  prev_submission_id = none;
  state = SubmissionState.review;
  submitted_at = 6;
  reviewed_by = none;
  reviewed_at = none;
  lifecycle_state = LifecycleState.active;
  retired_at = none;
  version = 0;
}

abbrev a_file : (message answer : Option ℕ) → (key : ℕ) → Attachment
a_file message answer key = record {
  id = key;
  organization_id = 9;
  message_id = message;
  answer_id = answer;
  uploader_user_id = 1;
  storage_key = key;
  content_type = [];
  kind = [];
  lifecycle_state = LifecycleState.active;
}

abbrev without_tasks : Db
without_tasks = record no_rows {
  users = user ∷ [];
  directory = record no_directory {
    user_roles =
        record {
          id = 40;
          user_id = 1;
          role_id = 20;
          source = UserRoleSource.native;
          source_connection_id = none;
          granted_by = none;
        }
        ∷ [];
    invitations =
        record {
          id = 60;
          organization_id = 9;
          token_hash = 7;
          email = none;
          intended_role_ids = [];
          passcode_hash = none;
          max_uses = 1;
          use_count = 0;
          created_by = some 1;
          expires_at = 1000;
          revoked_at = none;
        }
        ∷ [];
  };
}

abbrev start : Db
start = record without_tasks { tasks = task ∷ [] }

gc : Unit {0}
unfolding past_grace user_has_history log_system log_revoked mark_issued revoke_issued_invitations
    null_received_invitation_emails purge_user_satellites scrub_user forget_uses drop_user
    remove_user delete_user without_task delete_task_aggregate users_to_scrub users_to_delete
    collectable_tasks update_user put_users find_task
gc = tt

abbrev tables : {A : Type 0} → Result (A × Db) → Db
tables (ok (a, db)) = db
tables (err e) = start

abbrev collected : Db
collected = tables (delete_task_aggregate 9 2 start)

abbrev after_scrub : Db
after_scrub = tables (scrub_user 100 9 1 start)

abbrev after_delete : Db
after_delete = tables (delete_user 100 9 1 without_tasks)

gc_runs :
    (collectable_tasks 100 50 9 start ≡ 2 ∷ [])
    × (users_to_scrub 100 50 9 start ≡ 1 ∷ [])
    × (users_to_delete 100 50 9 start ≡ [])
    × (users_to_delete 100 50 9 collected ≡ 1 ∷ [])
    × (users_to_scrub 100 50 9 after_scrub ≡ 1 ∷ [])
    × (delete_user 100 9 1 start ≡ err fault)
unfolding gc
gc_runs = (refl, refl, refl, refl, refl, refl)

past_grace-is_revivable_example : past_grace 100 50 LifecycleState.retired (some 10) ≡ (
    is_retired LifecycleState.retired
    && (is_some {A = ℕ} (some 10) && not (is_revivable 100 LifecycleState.retired (some 10) 50)))
past_grace-is_revivable_example = past_grace-is_revivable 100 50 LifecycleState.retired (some 10)

-- Two tasks, each with a submission that answers with a file; the first has a message with a file too.
abbrev with_files : Db
with_files = record start {
  tasks = task ∷ record task { id = 3 } ∷ [];
  messages = a_message 70 2 ∷ a_message 71 3 ∷ [];
  submissions = a_submission 80 2 ∷ a_submission 81 3 ∷ [];
  answers =
      record { id = 90; submission_id = 80; question_id = 5; value = no_value }
      ∷ record { id = 91; submission_id = 81; question_id = 6; value = no_value }
      ∷ [];
  attachments =
      a_file (some 70) none 500 ∷ a_file none (some 90) 501 ∷ a_file none (some 91) 502 ∷ [];
}

abbrev files_collected : Db
files_collected = tables (delete_task_aggregate 9 2 with_files)

with_files-IsKeyed : IsKeyed with_files
with_files-IsKeyed = record {
  messages_keyed = omega arith;
  submissions_keyed = omega arith;
  answers_keyed = omega arith;
  one_owner = (refl, (refl, (refl, tt)));
}

delete_task_aggregate-IsGone_example :
    IsGone 2 with_files files_collected
    × SameTask 3 with_files files_collected
    × (count (λ k. k == 501) (500 ∷ 501 ∷ [])
          + count (λ a. a.storage_key == 501) files_collected.attachments
        ≡ count (λ a. a.storage_key == 501) with_files.attachments)
unfolding gc
delete_task_aggregate-IsGone_example =
    delete_task_aggregate-IsGone 9 2 3 501 with_files (ground arith) with_files-IsKeyed refl

delete_user-IsPurged_example :
    IsPurged 1 after_delete
    × (any (λ x. x.id == 1) after_delete.users ≡ false)
    × (any (λ x. x.created_user_id == 1) after_delete.directory.invitation_uses ≡ false)
    × (user_has_history 1 after_delete ≡ false)
unfolding gc
delete_user-IsPurged_example = delete_user-IsPurged 100 9 1 without_tasks refl
