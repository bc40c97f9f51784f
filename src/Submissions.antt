-- ===== src/Submissions.antt =====
-- api/src/submissions/submissions.service.ts: a claimant submits answers, a requester reviews or
-- retires a submission. As for tasks, an operation reads outside of its transaction, in `seen`, and
-- then runs its body on the tables that it finds. `listForTask` is not modelled.
pub mod Answers
pub mod Submit
pub mod Review
pub mod Retire
pub mod Cached
pub mod Versions
pub mod Thread
mod Tests
