-- ===== src/Api/Alerts.antt =====
-- Alerts of the API service: their listing in pages and their resolution (services/alerts.go over
-- repository/postgres/alerts.go).
pub mod Listing
pub mod Order
pub mod Coverage
pub mod Resolve
pub mod Once
pub mod Samples
pub mod Examples
