-- ===== src/Edge/Collector.antt =====
-- internal/collector: hardware readings become queued events and critical incidents.
pub mod Conditions
pub mod Collect
pub mod Calls
pub mod Session
pub mod Debounce
pub mod Examples
