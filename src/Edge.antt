-- ===== src/Edge.antt =====
-- services/edge-agent-go: the agent on a site gateway that queues telemetry durably, uploads it,
-- and falls back to SMS for critical incidents.
pub mod Domain
pub mod Errors
pub mod Fallback
pub mod Store
pub mod Uploader
pub mod Collector
pub mod Samples
