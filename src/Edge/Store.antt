-- ===== src/Edge/Store.antt =====
-- internal/repository/sqlite: the durable queue.
pub mod Schema
pub mod Capacity
pub mod Mutations
pub mod Completion
pub mod Queries
pub mod Incidents
pub mod SmsAttempts
pub mod Debounces
pub mod Heartbeats
pub mod Initialize
pub mod Cases
pub mod Untouched
pub mod Lifecycle
pub mod Evolution
pub mod Replay
pub mod Invariant
pub mod Startup
pub mod StartupIncidents
pub mod Ready
pub mod Batches
pub mod Survival
pub mod Outcomes
pub mod Completed
pub mod Admission
pub mod IncidentLife
pub mod IncidentHistory
pub mod History
pub mod Examples
