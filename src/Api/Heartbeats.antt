-- ===== src/Api/Heartbeats.antt =====
-- internal/services/heartbeat.go over internal/repository/postgres/heartbeat.go: SMS heartbeats.
pub mod Receive
pub mod Recorded
