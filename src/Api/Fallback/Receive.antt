-- ===== src/Api/Fallback/Receive.antt =====
-- services/fallback.go: `ReceiveSMS` in its transaction.
use ambagrid.Common.{
  ℕ, Bool, true, false, not, Option, none, some, List, Text, codes, ◌==◌, if◌then◌else◌, text_eq,
  is_empty, Result, ok, err, ◌>>=◌, ◌>>◌, refuse_if, in_tx,
}
use ambagrid.Edge.Fallback.Message.{site_asset}
use ambagrid.Api.Sms.Parse.{CriticalFallbackEvent, SmsReceipt}
use ambagrid.Api.Database.{
  ApiError, conflict, invalid_id, not_found, Faults, statement, Db, FallbackRow, ReceiptRow,
  OutboxRow, SmsPricing,
}
use ambagrid.Api.Fallback.Details.{event_key, alert_details, matches_asset, row_matches}
use ambagrid.Api.Fallback.Queries.{
  find_fallback_event, lookup_asset_type, find_alert_by_source, find_open_alert, new_alert,
  create_alert, publish_outbox_event, insert_fallback_event, receipt_row, add_receipt,
  find_receipt_key,
}

-- `FallbackService`: its topic and its prices.
pub record FallbackService : Type 0 where
  pub topic : Text
  pub pricing : SmsPricing

-- `smsBudgetMonitor.check`: it reads the usage, and only logs a warning by it.
unfoldable pub check_budget : SmsPricing → Bool → Result ApiError (Unit {0})
check_budget pricing fails = if pricing.monthly_budget_minor == 0 then ok tt else statement fails

-- `checkReceiptConflict`, and its copy in heartbeat.go without the first test.
unfoldable pub check_receipt_key : Bool → Text → Text → List ReceiptRow → Result ApiError (Unit {0})
unfolding find_receipt_key
check_receipt_key fails key id rows = do
  stored ← find_receipt_key fails id rows
  refuse_if (not (text_eq stored key)) conflict

unfoldable pub check_receipt_conflict :
    Bool → Text → Text → List ReceiptRow → Result ApiError (Unit {0})
unfolding check_receipt_key
check_receipt_conflict fails key id rows =
    if is_empty id then ok tt else check_receipt_key fails key id rows

unfoldable pub receipt_outcome :
    FallbackService
    → Faults
    → Text
    → Text
    → Bool × List ReceiptRow
    → Result ApiError (List ReceiptRow)
unfolding check_receipt_conflict check_budget
receipt_outcome s f key id (false, rows) = do check_receipt_conflict (f 10) key id rows; ok rows
receipt_outcome s f key id (true, rows) = do check_budget s.pricing (f 11); ok rows

-- `recordReceipt`.
unfoldable pub record_receipt :
    FallbackService → Faults → Text → SmsReceipt → Db → Result ApiError Db
unfolding add_receipt receipt_row receipt_outcome
record_receipt s f key receipt db = do
  statement (f 9)
  rows ← receipt_outcome s f key receipt.provider_message_id (
      add_receipt (receipt_row (some receipt.gateway_id) key receipt s.pricing)
        db.fallback_receipts)
  ok (record db { fallback_receipts = rows })

unfoldable pub asset_error : ApiError → ApiError
asset_error not_found = invalid_id
asset_error e = e

unfoldable pub asset_found : Text → Result ApiError Text → Result ApiError (Unit {0})
unfolding asset_error
asset_found code (err e) = err (asset_error e)
asset_found code (ok asset_type) = refuse_if (not (matches_asset code asset_type)) invalid_id

unfoldable pub check_asset : Faults → CriticalFallbackEvent → Db → Result ApiError (Unit {0})
unfolding asset_found lookup_asset_type
check_asset f e db =
    if text_eq e.asset_id site_asset
    then ok tt
    else asset_found e.code (lookup_asset_type (f 3) e.asset_id e.site_id db)

-- The alert of the event itself, or else an open one of its kind.
unfoldable pub find_alert : Faults → CriticalFallbackEvent → Text → Db → Result ApiError (Option ℕ)
unfolding find_alert_by_source find_open_alert
find_alert f e kind db = do
  own ← find_alert_by_source (f 4) (event_key e) db
  elim own [ some id ↦ ok (some id) | none ↦ find_open_alert (f 5) e.site_id e.asset_id kind db ]

unfoldable pub outbox_row : FallbackService → CriticalFallbackEvent → Text → ℕ → OutboxRow
outbox_row s e reason id = record {
  topic = s.topic;
  event_type = codes "alert.opened";
  aggregate_type = codes "alert";
  aggregate_id = id;
  asset_id = e.asset_id;
  site_id = e.site_id;
  severity = codes "SEVERITY_CRITICAL";
  reason = reason;
  opened_at = e.occurred_at;
  source_event_id = event_key e;
}

-- The alert for the event, whether it is new, and the database with it.
unfoldable pub ensure_alert :
    FallbackService
    → Faults
    → CriticalFallbackEvent
    → Text × Text
    → Db
    → Result ApiError (ℕ × Bool × Db)
unfolding find_alert create_alert publish_outbox_event outbox_row new_alert
ensure_alert s f e (kind, reason) db = do
  found ← find_alert f e kind db
  elim found [
    | some id ↦ ok (id, false, db)
    | none ↦ do
      db' ← create_alert (f 6) (event_key e) (new_alert e (event_key e) kind reason db) db
      db'' ← publish_outbox_event (f 7) (outbox_row s e reason db.next_alert) db'
      ok (db.next_alert, true, db'')
  ]

unfoldable pub fallback_row : CriticalFallbackEvent → ℕ → FallbackRow
fallback_row e id = record {
  event_key = event_key e;
  site_id = e.site_id;
  sequence = e.sequence;
  asset_id = e.asset_id;
  code = e.code;
  event_at = e.occurred_at;
  alert_id = id;
}

unfoldable pub receive_new :
    FallbackService → Faults → CriticalFallbackEvent → SmsReceipt → Db → Result ApiError (Bool × Db)
receive_new s f e receipt db = do
  check_asset f e db
  details ← alert_details e
  (id, created, db') ← ensure_alert s f e details db
  db'' ← insert_fallback_event (f 8) (fallback_row e id) db'
  db''' ← record_receipt s f (event_key e) receipt db''
  ok (created, db''')

unfoldable pub receive_stored :
    FallbackService
    → Faults
    → CriticalFallbackEvent
    → SmsReceipt
    → FallbackRow
    → Db
    → Result ApiError (Bool × Db)
receive_stored s f e receipt stored db = do
  refuse_if (not (row_matches stored e)) conflict
  db' ← record_receipt s f (event_key e) receipt db
  ok (false, db')

unfoldable pub receive_body :
    FallbackService → Faults → CriticalFallbackEvent → SmsReceipt → Db → Result ApiError (Bool × Db)
receive_body s f e receipt db = do
  found ← find_fallback_event (f 2) (event_key e) db
  elim found [
    | some stored ↦ receive_stored s f e receipt stored db
    | none ↦ receive_new s f e receipt db
  ]

-- `RunFallbackTx`: BEGIN, the lock of the key, the body, COMMIT. The lock of the key keeps two
-- transactions of one event apart.
unfoldable pub receive_sms :
    FallbackService → Faults → CriticalFallbackEvent → SmsReceipt → Db → Db × Result ApiError Bool
receive_sms s f e receipt db = in_tx db (do
  statement (f 0)
  statement (f 1)
  done ← receive_body s f e receipt db
  statement (f 12)
  ok done)
