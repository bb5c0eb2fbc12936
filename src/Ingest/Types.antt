-- ===== src/Ingest/Types.antt =====
-- ingest/types.go, ports.go: a batch, its records and the answers of the service.
use ambagrid.Common.{ℕ, ℤ, Bool, Option, List, Text, Float}

pub record IngestRecord : Type 0 where
  pub sequence : ℕ
  pub site_id : Text
  pub gateway_id : Text
  pub device_id : Text
  pub asset_type : Text
  pub mqtt_topic : Text
  pub payload : Text
  pub priority : ℤ
  pub event_timestamp : ℕ
  pub edge_received_at : ℕ
  pub uploaded_at : ℕ
  pub replay : Bool
  pub critical_code : Text
  pub critical_value : Option Float

pub record IngestBatch : Type 0 where
  pub gateway_id : Text
  pub queue_depth : ℤ
  pub oldest_pending_at : Option ℕ
  pub last_event_timestamp : Option ℕ
  pub last_successful_sync_at : Option ℕ
  pub last_failed_sync_reason : Text
  pub records : List IngestRecord

pub record RecordRejection : Type 0 where
  pub index : ℕ
  pub sequence : ℕ
  pub code : Text
  pub message : Text

pub record IngestResponse : Type 0 where
  pub accepted : List ℕ
  pub rejected : List RecordRejection
  pub request_id : Text

pub record SiteHealthReport : Type 0 where
  pub site_id : Text
  pub gateway_id : Text
  pub contact_at : ℕ
  pub last_event_timestamp : Option ℕ
  pub queue_depth : ℤ
  pub oldest_pending_at : Option ℕ
  pub last_successful_sync_at : Option ℕ
  pub last_failed_sync_reason : Text
