-- ===== src/Db.antt =====
-- The tables that the task, submission, message and notification services share
-- (api/prisma/schema.prisma), as lists of rows, and the services' helpers that run inside of a
-- caller's transaction. Ids are numbers, generated in growing order as `uuidv7()` gives them; times
-- are milliseconds, and the clock is an argument.
pub mod Directory
pub mod Rows
pub mod Tx
pub mod Frame
pub mod Tables
pub mod Emit
pub mod Delivery
mod Tests
