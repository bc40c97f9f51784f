-- ===== src/Governance.antt =====
-- The services of users and access together: whether the organization keeps an administrator
-- (api/src/access/administrability.service.ts) over any sequence of their operations.
pub mod Safe
pub mod Adding
pub mod OfDivisions
pub mod OfTeams
pub mod OfInvitations
pub mod Cascade
pub mod Run
pub mod Kept
pub mod History
mod Tests
