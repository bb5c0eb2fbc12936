-- ===== src/Edge/Store/Schema.antt =====
-- schema.go: the tables of the queue database. Each table is the list of its rows in the order of
-- its primary key, or of insertion where the key is a text.
use ambagrid.Common.{
  ℕ, Bool, false, Option, none, List, [], ◌++◌, Text, Float, exists_where, sum_where, codes,
  decimal, ◌&&◌,
}
use ambagrid.Edge.Domain.{AssetType, Priority, EventStatus, is_active}

-- queue_events.
pub record Row : Type 0 where
  pub sequence : ℕ
  pub site_id : Text
  pub gateway_id : Text
  pub device_id : Text
  pub asset_type : AssetType
  pub mqtt_topic : Text
  pub payload : Text
  pub payload_bytes : ℕ
  pub priority : Priority
  pub event_at_ms : ℕ
  pub received_at_ms : ℕ
  pub persisted_at_ms : ℕ
  pub uploaded_at_ms : Option ℕ
  pub status : EventStatus
  pub attempt_count : ℕ
  pub rejection_count : ℕ
  pub replay_required : Bool
  pub next_attempt_at_ms : Option ℕ
  pub last_error : Option Text
  pub critical_code : Option Text
  pub critical_value : Option Float

-- fallback_incidents.
pub record Incident : Type 0 where
  pub event_key : Text
  pub sequence : ℕ
  pub site_id : Text
  pub asset_id : Text
  pub code : Text
  pub temperature_c : Option Float
  pub event_at_ms : ℕ
  pub opened_at_ms : ℕ
  pub resolved_at_ms : Option ℕ
  pub normal_delivered_at_ms : Option ℕ
  pub sms_sent_at_ms : Option ℕ
  pub upload_failures : ℕ
  pub sms_attempt_count : ℕ
  pub next_sms_attempt_at_ms : Option ℕ
  pub last_error : Option Text

-- fallback_attempts.
pub record Attempt : Type 0 where
  pub event_key : Text
  pub attempted_at_ms : ℕ
  pub succeeded : Option Bool
  pub failure_reason : Option Text

-- The single row of edge_sync_state.
pub record SyncState : Type 0 where
  pub last_upload_success_at_ms : Option ℕ
  pub last_upload_failure_reason : Option Text
  pub replay_mode_active : Bool
  pub abandoned_count : ℕ

-- debounce_conditions.
pub record Debounce : Type 0 where
  pub asset_id : Text
  pub code : Text
  pub active_since_ms : ℕ

-- heartbeat_attempts.
pub record HeartbeatAttempt : Type 0 where
  pub sequence : ℕ
  pub attempted_at_ms : ℕ
  pub succeeded : Option Bool
  pub failure_reason : Option Text

-- The database. `last_sequence` and `last_heartbeat` are the AUTOINCREMENT counters, which a
-- DELETE leaves alone.
pub record Db : Type 0 where
  pub identity : Option (Text × Text)
  pub events : List Row
  pub last_sequence : ℕ
  pub incidents : List Incident
  pub attempts : List Attempt
  pub sync : SyncState
  pub debounce : List Debounce
  pub heartbeats : List HeartbeatAttempt
  pub last_heartbeat : ℕ

-- A database that was just created: every table empty, and the default sync row.
unfoldable pub empty_db : Db
empty_db = record {
  identity = none;
  events = [];
  last_sequence = 0;
  incidents = [];
  attempts = [];
  sync = record {
    last_upload_success_at_ms = none;
    last_upload_failure_reason = none;
    replay_mode_active = false;
    abandoned_count = 0;
  };
  debounce = [];
  heartbeats = [];
  last_heartbeat = 0;
}

abbrev pub row_active : Row → Bool
row_active r = is_active r.status

-- An unfinished row that a request-level failure has marked for replay.
abbrev pub row_replays : Row → Bool
row_replays r = is_active r.status && r.replay_required

-- SELECT COALESCE(SUM(payload_bytes), 0) over the unfinished rows.
unfoldable pub queued_bytes : List Row → ℕ
queued_bytes rows = sum_where row_active (λ r. r.payload_bytes) rows

-- EXISTS(... WHERE status IN (...) AND replay_required = 1).
unfoldable pub replay_pending : List Row → Bool
replay_pending rows = exists_where row_replays rows

-- 'edge:' || site_id || ':' || sequence, and `fallback.NewEventKey`.
unfoldable pub event_key : Text → ℕ → Text
event_key site sequence = codes "edge:" ++ (site ++ (codes ":" ++ decimal sequence))
