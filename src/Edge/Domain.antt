-- ===== src/Edge/Domain.antt =====
-- internal/domain: the vocabulary of the durable queue.
use ambagrid.Common.{
  ℕ, ◌≡◌, Bool, true, false, ◌||◌, Option, ◌↔◌, arith, Text, codes, text_eq, Float, if◌then◌else◌,
}

-- `type AssetType string`.
abbrev pub AssetType : Type 0
AssetType = Text

abbrev pub smart_meter : AssetType
smart_meter = codes "smart_meter"

abbrev pub battery_bms : AssetType
battery_bms = codes "battery_bms"

abbrev pub solar_inverter : AssetType
solar_inverter = codes "solar_inverter"

unfoldable pub asset_valid : AssetType → Bool
asset_valid a = text_eq a smart_meter || text_eq a battery_bms || text_eq a solar_inverter

unfoldable pub topic_segment : AssetType → Text
topic_segment a =
    if text_eq a smart_meter
    then codes "smartmeter"
    else if text_eq a battery_bms
    then codes "battery_bms"
    else if text_eq a solar_inverter
    then codes "solar_inverter"
    else codes "unknown"

-- `type Priority int`; `other_priority` is any value beside the two constants.
pub data Priority : Type 0 where
  normal critical : Priority
  other_priority : ℕ → Priority

abbrev pub priority_valid : Priority → Bool
priority_valid normal = true
priority_valid critical = true
priority_valid (other_priority n) = false

abbrev pub is_normal : Priority → Bool
is_normal normal = true
is_normal _ = false

pub record Event : Type 0 where
  pub device_id : Text
  pub asset_type : AssetType
  pub mqtt_topic : Text
  pub payload : Text
  pub priority : Priority
  pub event_timestamp : ℕ
  pub edge_received_at : ℕ
  pub critical_code : Text
  pub critical_value : Option Float

pub data EventStatus : Type 0 where
  persisted pending_upload uploaded acknowledged expired abandoned : EventStatus

abbrev pub status_eq : EventStatus → EventStatus → Bool
status_eq persisted persisted = true
status_eq pending_upload pending_upload = true
status_eq uploaded uploaded = true
status_eq acknowledged acknowledged = true
status_eq expired expired = true
status_eq abandoned abandoned = true
status_eq _ _ = false

pub status_eq_iff : (s t : EventStatus) → (status_eq s t ≡ true) ↔ (s ≡ t)
status_eq_iff s t = ground arith

-- `status IN ('persisted', 'pending_upload', 'uploaded')`: the record is not finished.
abbrev pub is_active : EventStatus → Bool
is_active persisted = true
is_active pending_upload = true
is_active uploaded = true
is_active _ = false

-- A persisted event with its queue lifecycle, as `Ready` and `Record` return it.
pub record Record : Type 0 where
  pub sequence : ℕ
  pub site_id : Text
  pub gateway_id : Text
  pub device_id : Text
  pub asset_type : AssetType
  pub mqtt_topic : Text
  pub payload : Text
  pub priority : Priority
  pub status : EventStatus
  pub event_timestamp : ℕ
  pub edge_received_at : ℕ
  pub persisted_at : ℕ
  pub uploaded_at : Option ℕ
  pub attempt_count : ℕ
  pub rejection_count : ℕ
  pub replay_required : Bool
  pub next_attempt_at : Option ℕ
  pub last_error : Text
  pub critical_code : Text
  pub critical_value : Option Float

pub data QueueState : Type 0 where
  healthy warning normal_suspended queue_full filesystem_low : QueueState

pub record QueueStats : Type 0 where
  pub depth : ℕ
  pub payload_bytes : ℕ
  pub capacity_bytes : ℕ
  pub normal_admission_bytes : ℕ
  pub disk_bytes : ℕ
  pub filesystem_free_bytes : ℕ
  pub oldest_age : ℕ
  pub oldest_pending_at : Option ℕ
  pub last_event_timestamp : Option ℕ
  pub last_successful_sync_at : Option ℕ
  pub last_failed_sync_reason : Text
  pub abandoned_total : ℕ
  pub state : QueueState

pub record ElectricalMetrics : Type 0 where
  pub voltage : Option Float
  pub current : Option Float
  pub active_power : Option Float
  pub frequency : Option Float
  pub total_kwh : Option Float

-- A vendor-neutral sample of a hardware adapter (telemetry.go).
pub record Reading : Type 0 where
  pub device_id : Text
  pub asset_type : AssetType
  pub taken_at : ℕ
  pub payload : Text
  pub metrics : Option ElectricalMetrics
  pub internal_temperature : Float
  pub relay_closed : Bool
  pub battery_soc_pct : Float
  pub solar_irradiance : Float
  pub inverter_failed : Bool
  pub inverter_hard_fault : Bool
  pub tamper_detected : Bool
  pub site_outage : Option Bool
