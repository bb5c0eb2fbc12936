-- ===== src/Ingest.antt =====
-- The ingestion service (services/ingestion-go).
pub mod Types
pub mod Validate
pub mod Handler
pub mod Accounts
pub mod Wire
pub mod EdgeUpload
pub mod Examples
pub mod Topic
pub mod TopicShape
pub mod Auth
pub mod Keys
