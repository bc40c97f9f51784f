-- ===== src/Access.antt =====
-- api/src/access: the vocabulary of actions (actions.ts), the projection of grants to policies
-- (cedar/policies.ts), the administrability floor (administrability.service.ts) and the version of the
-- configuration (access.service.ts, bumpConfigVersion).
pub mod Actions
pub mod Policies
pub mod Op
pub mod Admins
pub mod Floor
pub mod Growth
pub mod Adds
