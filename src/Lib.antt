-- ===== src/Lib.antt =====
-- A model of Patrice, a service on which the members of an organization claim tasks, submit work and
-- have it reviewed, and which keeps its roles in step with an external service such as Discord.
--
-- The parts, and the files that model them (paths from the repository's root):
--
-- - Db: the rows of api/prisma/schema.prisma that the services below share (Rows,
--   and Directory for users and access), transactions (Tx, and Frame for what they keep),
--   the reads and writes of the tables with api/src/tasks/task-status.service.ts (Tables), and what a
--   service leaves in its caller's transaction (Emit): createSystemMessage of
--   api/src/messages/messages.service.ts, logActivity of api/src/activity/activity.service.ts, and the
--   recipients and emit of api/src/notifications. Delivery is about who is notified.
-- - Lifecycle: api/src/common/lifecycle.ts and api/src/common/grace.service.ts.
-- - Tasks: api/src/tasks/tasks.service.ts. Claims has claim, leave and removeClaimant, Manage has
--   manageClaims, Edits has complete, changeRequester, update, retire and revive. Slots, Status,
--   Capacity, Soundness, Revival and Completion are about them.
-- - TaskStatus: api/src/tasks/task-status.ts, the status that claims and submissions roll up to.
-- - RequestTemplate: api/src/request-templates/request-template.types.ts and validate-submission.ts.
--   Data has the types, Valid says what a valid submission is, and Parts and Decides compare the
--   validator with it.
-- - RequestTemplates: api/src/request-templates/request-templates.service.ts, the editing of a task's
--   template. Lock is about when it is refused.
-- - Submissions: api/src/submissions/submissions.service.ts. Answers, Submit, Review and Retire have
--   the operations. Cached, Versions and Thread are about them.
-- - Messages: api/src/messages/messages.service.ts. Threads is about their depth, and Cascade about
--   replies in the thread of a submission that is retired.
-- - Access: api/src/access. Actions has the vocabulary, Policies the projection of grants to policies,
--   Admins who is an effective administrator, Floor the check that one is left, and Op the operations
--   that leave tables whether they return or throw. Growth and Adds are about writes that only add
--   authority.
-- - Roles, Grants, Users, Divisions, Teams: api/src/roles/roles.service.ts,
--   api/src/grants/grants.service.ts (Shape says what a well-formed grant is, Edits has the
--   operations), api/src/users/users.service.ts, api/src/divisions/divisions.service.ts and
--   api/src/teams/teams.service.ts.
-- - Governance: whether the organization keeps an administrator over all of these (Run, Kept and History, by
--   Safe, Adding, OfDivisions, OfTeams and OfInvitations), and what retiring a division does (Cascade).
-- - Invitations: api/src/invitations/invitation-status.ts and invitations.service.ts. Redeem has the
--   operations; Steps, Uses, Safety and History are about how often an invitation is redeemed.
-- - Bootstrap: api/src/invitations/bootstrap.service.ts. Recovery is about the system invitation.
-- - Sessions: api/src/auth/session.service.ts. Expiry and Ended are about when a session resolves.
-- - Gc: api/src/gc/gc.service.ts. Cutoff compares it with Lifecycle; Collect and Scrub are about what a
--   collected task or user leaves.
-- - Reconciler: api/src/integrations/sync/reconciler.ts, which compares the roles of linked users with
--   their external groups and gives the operations that settle the difference.
-- - Gateway: api/src/integrations/gateway/gateway-connection.state-machine.ts, the machine that keeps a
--   connection to the external service's event stream.
-- - Prelude: lists, options, tests and keyed rows, shared by all of them.
--
-- How they fit together: an operation of Tasks or Submissions is a function of the tables. It checks
-- its guards, changes rows, recomputes the task's status with the rules of TaskStatus, writes an audit
-- row and a system message, and emits notifications. Submit also runs the validator of
-- RequestTemplate. The gateway asks for a reconciliation, and the reconciler computes one; the code
-- that calls both is not modelled.
--
-- State and operations. A table is a list of its rows, and the tables are one record, `Db`. A
-- transaction is a function from tables to a result: an error carries no tables, as a transaction that
-- throws is rolled back. The services read some rows before they open their transaction: these reads
-- take the argument `seen`, which need not be the tables that the body runs on, so a result for every
-- `seen` covers every interleaving of other transactions between the two. A body runs as one step:
-- claim, leave, removeClaimant, manageClaims and submit take the lock of the task's row for that, and
-- for the others it is assumed, since the isolation of the database is not modelled. Users who are
-- pinged after the commit are part of what an operation returns. Ids are numbers, made in growing
-- order as `uuidv7()` gives them. Times are milliseconds, and the clock is an argument. A message body,
-- an audit payload and a notification's payload are data with a constructor for each shape and the ids
-- that stand in it.
--
-- Text that is measured is a list of UTF-16 code units. JavaScript numbers and their tests and
-- conversions are parameters, and so is the random part of the gateway's delay, which is counted in
-- units of 2^-53 milliseconds so that it is exact. Loops are structural recursion over lists, so no
-- fuel is needed.
--
-- The service calls of roles, grants, users, divisions, teams, invitations and sessions work on the same
-- tables. An operation with the floor check writes an audit row after its transaction was rolled back, so
-- it has tables even where it throws. Hashes, random tokens, the decisions and the schema check of the
-- Cedar package, the lower case of a text and the equality of the column type citext are parameters. A
-- foreign key is modelled for the role of a membership, for the content of a user who is deleted, and
-- for the answers to a question that is deleted; others are not.
--
-- Not modelled: the decisions themselves, which the Cedar package makes from the policies, and the
-- entities that it is given; HTTP routing, request shapes, log-in, verification and OAuth; storage,
-- email, the queue and server-sent events; the Discord client and the sync service; the creation of
-- tasks, the default templates of divisions, the editing of settings, and the lists; the collecting of
-- divisions, teams, roles and connections; and the web application.
pub mod Prelude
pub mod TaskStatus
pub mod RequestTemplate
pub mod Db
pub mod Lifecycle
pub mod Tasks
pub mod Submissions
pub mod Messages
pub mod Gateway
pub mod Reconciler
pub mod Access
pub mod Roles
pub mod Grants
pub mod Users
pub mod Divisions
pub mod Teams
pub mod Invitations
pub mod Governance
pub mod Bootstrap
pub mod Sessions
pub mod Gc
pub mod RequestTemplates
