-- ===== src/Database.antt =====
-- The database as the services see it: transactions with retry, the lock order, the rows of a table.
pub mod Errors
pub mod Retry
pub mod LockOrder
pub mod Repo
