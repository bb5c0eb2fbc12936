-- ===== src/Api/Fallback.antt =====
-- internal/services/{fallback,heartbeat}.go over internal/repository/postgres/{fallback,heartbeat}.go:
-- what an SMS changes in the database.
pub mod Details
pub mod Queries
pub mod Receive
pub mod Outcomes
pub mod Repeats
pub mod Integrity
pub mod Accepts
