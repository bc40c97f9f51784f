-- ===== src/Db/Rows.antt =====
-- The rows of api/prisma/schema.prisma, the views made from them, and the errors of
-- api/src/common/errors.ts. A message body, an audit payload and a notification payload are data
-- with a constructor for each template string or payload shape, of the ids that stand in it.
use patrice.Prelude.{ℕ, Bool, Option, List, String}
use patrice.TaskStatus.{SubmissionState, RolledStatus}
use patrice.RequestTemplate.Data.{Text, Question}
use patrice.Db.Directory.{Directory, DirectoryVerb}
pub use patrice.Db.Directory.{LifecycleState, active, deactivated, retired}

pub record Task : Type 0 where
  pub id : ℕ
  pub organization_id : ℕ
  pub name : String
  pub description : String
  pub division_id : ℕ
  pub team_id : Option ℕ
  pub requester_user_id : ℕ
  pub openings : ℕ
  pub claims_closed : Bool
  pub status_cache : Option RolledStatus
  pub lifecycle_state : LifecycleState
  pub retired_at : Option ℕ
  pub version : ℕ
  pub created_at : ℕ
  pub updated_at : ℕ

pub record TaskView : Type 0 where
  pub id : ℕ
  pub name : String
  pub description : String
  pub division_id : ℕ
  pub team_id : Option ℕ
  pub requester_user_id : ℕ
  pub openings : ℕ
  pub status_cache : Option RolledStatus
  pub lifecycle_state : LifecycleState
  pub retired_at : Option ℕ
  pub version : ℕ
  pub created_at : ℕ
  pub updated_at : ℕ
  pub claimant_user_ids : List ℕ

pub record TaskClaimant : Type 0 where
  pub id : ℕ
  pub task_id : ℕ
  pub user_id : ℕ
  pub joined_at : ℕ
  pub has_submitted : Bool
  pub left_at : Option ℕ

pub record Division : Type 0 where
  pub id : ℕ
  pub organization_id : ℕ
  pub name : String
  pub default_openings : ℕ
  pub openings_locked : Bool
  pub restrict_claims : Bool
  pub lifecycle_state : LifecycleState
  pub retired_at : Option ℕ
  pub version : ℕ

pub record AppUser : Type 0 where
  pub id : ℕ
  pub organization_id : ℕ
  pub email : Option String
  pub display_name : String
  pub created_via_invitation_id : Option ℕ
  pub lifecycle_state : LifecycleState
  pub deactivated_at : Option ℕ
  pub retired_at : Option ℕ
  pub version : ℕ

pub record Submission : Type 0 where
  pub id : ℕ
  pub task_id : ℕ
  pub claimant_user_id : ℕ
  pub submission_no : ℕ
  pub prev_submission_id : Option ℕ
  pub state : SubmissionState
  pub submitted_at : ℕ
  pub reviewed_by : Option ℕ
  pub reviewed_at : Option ℕ
  pub lifecycle_state : LifecycleState
  pub retired_at : Option ℕ
  pub version : ℕ

pub data Decision : Type 0 where
  approve return reject : Decision

pub data MessageKind : Type 0 where
  comment system : MessageKind

pub data Body : Type 0 where
  text : String → Body
  claimed_this_task : (user : ℕ) → Body
  left_this_task : (user : ℕ) → Body
  marked_complete : (user : ℕ) → Body
  requester_changed_to : (user : ℕ) → Body
  submitted_version : (user submission_no : ℕ) → Body
  reviewed_version : (user : ℕ) → Decision → (submission_no : ℕ) → Body
  submission_retired : (submission_no claimant retired_by : ℕ) (reason : String) → Body

pub record Message : Type 0 where
  pub id : ℕ
  pub task_id : ℕ
  pub kind : MessageKind
  pub sender_user_id : Option ℕ
  pub parent_message_id : Option ℕ
  pub submission_id : Option ℕ
  pub body : Body
  pub lifecycle_state : LifecycleState
  pub retired_at : Option ℕ
  pub edited_at : Option ℕ
  pub version : ℕ
  pub created_at : ℕ

-- The verb of an audit row with its payload. A status in a payload is the cache that was written.
pub data Verb : Type 0 where
  task_updated task_retired task_revived : (task : ℕ) → Verb
  task_claimed task_left : (task user : ℕ) → RolledStatus → Verb
  task_claims_updated : (task openings : ℕ) (claims_closed : Bool) → RolledStatus → Verb
  task_claimant_removed : (task removed : ℕ) → RolledStatus → Verb
  task_completed : (task : ℕ) → RolledStatus → Verb
  task_requester_changed : (task requester : ℕ) → Verb
  message_created : (message task : ℕ) (parent : Option ℕ) → Verb
  message_updated message_retired message_revived : (message task : ℕ) → Verb
  submission_submitted : (task submission claimant submission_no : ℕ) → Verb
  submission_reviewed : (task submission : ℕ) → Decision → RolledStatus → Verb
  submission_retired_row : (task submission claimant : ℕ) (reason : String) → Verb
  task_request_template_updated : (template task question_count : ℕ) → Verb
  directory_verb : DirectoryVerb → Verb

pub record Activity : Type 0 where
  pub organization_id : ℕ
  pub actor_user_id : Option ℕ
  pub subject_id : ℕ
  pub verb : Verb

-- `NotificationType`, as far as these services raise it. The subject's type is fixed by it.
pub data NotificationType : Type 0 where
  submitted reviewed_approved reviewed_returned reviewed_rejected completed requester_changed
        claim_joined claim_left claims_closed task_retired_type message_posted message_replied
        submission_thread_replied :
      NotificationType

pub record NotificationEvent : Type 0 where
  pub organization_id : ℕ
  pub type : NotificationType
  pub subject_id : ℕ
  pub sender_user_id : Option ℕ
  pub recipient_user_ids : List (Option ℕ)
  -- The ids of the payload, in the order that the source writes them.
  pub payload : List ℕ

pub record Notification : Type 0 where
  pub organization_id : ℕ
  pub recipient_user_id : ℕ
  pub type : NotificationType
  pub subject_id : ℕ
  pub payload : List ℕ
  pub event_seq : ℕ

-- The json value of an answer. A number is its IEEE 754 bit pattern.
pub data Value : Type 0 where
  no_value : Value
  text_value : Text → Value
  number_value : ℕ → Value
  list_value : List Text → Value

pub record AnswerRow : Type 0 where
  pub id : ℕ
  pub submission_id : ℕ
  pub question_id : ℕ
  pub value : Value

pub record Attachment : Type 0 where
  pub id : ℕ
  pub organization_id : ℕ
  pub message_id : Option ℕ
  pub answer_id : Option ℕ
  pub uploader_user_id : ℕ
  pub storage_key : ℕ
  pub content_type : Text
  pub kind : Text
  pub lifecycle_state : LifecycleState

-- A request template with its questions, in the order of their ordinals.
pub record TemplateRow : Type 0 where
  pub id : ℕ
  pub owner_task_id : ℕ
  pub questions : List (Question ℕ)

pub record Db : Type 0 where
  pub tasks : List Task
  pub claimants : List TaskClaimant
  pub divisions : List Division
  pub users : List AppUser
  pub submissions : List Submission
  pub messages : List Message
  pub activities : List Activity
  pub notifications : List Notification
  pub answers : List AnswerRow
  pub attachments : List Attachment
  pub templates : List TemplateRow
  pub directory : Directory
  pub next_id : ℕ

pub data Code : Type 0 where
  task_not_found task_is_retired already_retired not_revivable claims_are_closed already_claimed
        no_openings not_claimed openings_locked invalid_openings user_not_found user_retired
        submission_not_found submission_is_retired invalid_transition stale_submission
        already_submitted request_template_not_found invalid_submission parent_not_found
        reply_to_reply message_not_found message_is_retired last_admin role_not_found not_standalone
        grant_not_found invalid_grant unknown_role division_not_found team_not_found not_a_member
        role_forbidden invite_not_found invite_unavailable invalid_passcode email_mismatch
        role_not_grantable discord_already_linked email_taken invite_race_lost
        request_template_locked :
      Code

-- The classes of `CodedException` by their status: 404, 409, 422, 403 and 410. A `fault` is an error that no
-- handler raises itself, such as `findUniqueOrThrow` on a missing row.
pub data Error : Type 0 where
  not_found : Code → Error
  conflict : Code → Error
  unprocessable : Code → Error
  denied : Code → Error
  gone : Code → Error
  fault : Error
