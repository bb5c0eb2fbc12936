-- ===== src/Edge/Fallback.antt =====
-- internal/fallback: critical incidents over SMS.
pub mod Message
pub mod Heartbeat
pub mod Policy
pub mod Coordinator
pub mod Limits
pub mod Runs
pub mod SqliteStore
pub mod Bounds
pub mod Examples
