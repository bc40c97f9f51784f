-- ===== src/Tasks.antt =====
-- api/src/tasks/tasks.service.ts: the operations on a task that a claimant and a requester make. An
-- operation reads the task outside of its transaction, in `seen`, and then runs its body on the
-- tables that it finds once it holds the row's lock: other transactions may have committed between
-- the two. It returns the view and the users who are pinged after the commit. Who may call is
-- decided before (Cedar), and is not modelled here. `create` and `list` are not modelled.
pub mod Base
pub mod Claims
pub mod Edits
pub mod Manage
pub mod Slots
pub mod Status
pub mod Capacity
pub mod Soundness
pub mod Revival
pub mod Completion
pub mod Refinement
mod Tests
