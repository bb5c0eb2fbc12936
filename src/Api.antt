-- ===== src/Api.antt =====
-- services/api-go: the API service.
pub mod Sms
pub mod Database
pub mod Fallback
pub mod Heartbeats
pub mod Pages
pub mod Alerts
pub mod Payments
pub mod Webhook
pub mod Samples
pub mod Examples
