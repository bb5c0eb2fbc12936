-- ===== src/Edge/Uploader.antt =====
-- internal/uploader: batches of the queue, sent to the ingestion service.
pub mod Client
pub mod Batch
pub mod Delay
pub mod Calls
pub mod Session
pub mod Examples
