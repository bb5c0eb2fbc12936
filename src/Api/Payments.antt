-- ===== src/Api/Payments.antt =====
-- Payments of the API service (services/api-go).
pub mod Tables
pub mod Checks
pub mod Queries
pub mod Writes
pub mod Apply
pub mod Steps
pub mod Booked
pub mod Grants
pub mod Outcomes
pub mod Tariffs
pub mod Effects
pub mod Balances
pub mod Books
pub mod Conserved
pub mod Repeats
pub mod Webhook
pub mod Refusals
pub mod Delivery
pub mod Samples
pub mod Examples
