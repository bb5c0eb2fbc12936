-- ===== src/Api/Database.antt =====
-- The PostgreSQL tables that the SMS services write (services/engine-rust/migrations), and the errors
-- of the API service.
use ambagrid.Common.{ℕ, Bool, false, Option, List, Text, Result, refuse_if}

-- The sentinel errors of domain, services and page; `database` is any other error.
pub data ApiError : Type 0 where
  conflict invalid_id not_found invalid_data invalid_request database : ApiError

-- Whether the n-th statement of a transaction fails, BEGIN and COMMIT counted. A failed statement
-- changes nothing, and the transaction is rolled back.
abbrev pub Faults : Type 0
Faults = ℕ → Bool

abbrev pub no_faults : Faults
no_faults n = false

abbrev pub statement : Bool → Result ApiError (Unit {0})
statement fails = refuse_if fails database

pub record Asset : Type 0 where
  pub asset_id : Text
  pub site_id : Text
  pub asset_type : Text

-- `is_open` is `status = 'open'`. An alert ID is a number: `gen_random_uuid` draws a new one.
pub record Alert : Type 0 where
  pub alert_id : ℕ
  pub asset_id : Text
  pub site_id : Text
  pub kind : Text
  pub is_open : Bool
  pub reason : Text
  pub opened_at : ℕ
  pub source_event_id : Option Text

pub record FallbackRow : Type 0 where
  pub event_key : Text
  pub site_id : Text
  pub sequence : ℕ
  pub asset_id : Text
  pub code : Text
  pub event_at : ℕ
  pub alert_id : ℕ

-- `row_key` is `event_key` of sms_fallback_receipts and `heartbeat_key` of sms_heartbeat_receipts;
-- only the first of the two tables has a gateway.
pub record ReceiptRow : Type 0 where
  pub provider_message_id : Text
  pub row_key : Text
  pub gateway_id : Option Text
  pub sender : Text
  pub recipient : Text
  pub received_at : ℕ
  pub outbound_cost_minor : ℕ
  pub inbound_cost_minor : ℕ
  pub currency : Text

pub record HeartbeatRow : Type 0 where
  pub heartbeat_key : Text
  pub site_id : Text
  pub gateway_id : Text
  pub sequence : ℕ
  pub interval_seconds : ℕ
  pub sent_at : ℕ
  pub contact_at : ℕ
  pub expires_at : ℕ

-- A row of command_event_outbox: the fields of its JSON payload beside its columns.
pub record OutboxRow : Type 0 where
  pub topic : Text
  pub event_type : Text
  pub aggregate_type : Text
  pub aggregate_id : ℕ
  pub asset_id : Text
  pub site_id : Text
  pub severity : Text
  pub reason : Text
  pub opened_at : ℕ
  pub source_event_id : Text

pub record Db : Type 0 where
  pub sites : List Text
  pub assets : List Asset
  pub alerts : List Alert
  pub next_alert : ℕ
  pub outbox : List OutboxRow
  pub fallback_events : List FallbackRow
  pub fallback_receipts : List ReceiptRow
  pub heartbeats : List HeartbeatRow
  pub heartbeat_receipts : List ReceiptRow

pub record SmsPricing : Type 0 where
  pub outbound_cost_minor : ℕ
  pub inbound_cost_minor : ℕ
  pub number_rental_minor : ℕ
  pub monthly_budget_minor : ℕ
  pub currency : Text
