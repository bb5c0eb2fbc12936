-- ===== src/Api/Fallback/Queries.antt =====
-- repository/postgres/fallback.go: the statements of a fallback transaction, with the constraints
-- of their tables.
use ambagrid.Common.{
  ℕ, ◌+◌, Bool, true, false, ◌&&◌, ◌||◌, not, Option, none, some, List, [], ◌∷◌, ◌++◌, Text, codes,
  ltb, ◌==◌, if◌then◌else◌, text_eq, Result, ok, err, ◌>>◌, refuse_if, exists_where, find_where,
  max_int64,
}
use ambagrid.Edge.Fallback.Message.{site_asset, bool_ne}
use ambagrid.Api.Sms.Parse.{CriticalFallbackEvent, SmsReceipt, critical_code_valid}
use ambagrid.Api.Database.{
  ApiError, not_found, database, statement, Db, Asset, Alert, FallbackRow, ReceiptRow, OutboxRow,
  SmsPricing,
}

abbrev pub event_at_key : Text → FallbackRow → Bool
event_at_key key r = text_eq r.event_key key

-- A stored code is one that `ParseCriticalCode` takes: a constraint of the table says so.
unfoldable pub find_fallback_event : Bool → Text → Db → Result ApiError (Option FallbackRow)
find_fallback_event fails key db = do
  statement fails
  elim (find_where (event_at_key key) db.fallback_events) [
    | none ↦ ok none
    | some r ↦ do refuse_if (not (critical_code_valid r.code)) database; ok (some r)
  ]

abbrev pub asset_at : Text → Text → Asset → Bool
asset_at asset site a = text_eq a.asset_id asset && text_eq a.site_id site

unfoldable pub lookup_asset_type : Bool → Text → Text → Db → Result ApiError Text
lookup_asset_type fails asset site db = do
  statement fails
  elim (find_where (asset_at asset site) db.assets) [
    | none ↦ err not_found
    | some a ↦ ok a.asset_type
  ]

abbrev pub from_source : Text → Alert → Bool
from_source key a = elim a.source_event_id [ none ↦ false | some k ↦ text_eq k key ]

abbrev pub open_for : Text → Text → Text → Alert → Bool
open_for site asset kind a =
    text_eq a.site_id site && (text_eq a.asset_id asset && (text_eq a.kind kind && a.is_open))

abbrev pub alert_id_of : Option Alert → Option ℕ
alert_id_of none = none
alert_id_of (some a) = some a.alert_id

-- `ErrNotFound` of these two queries is `none`.
unfoldable pub find_alert_by_source : Bool → Text → Db → Result ApiError (Option ℕ)
find_alert_by_source fails key db = do
  statement fails
  ok (alert_id_of (find_where (from_source key) db.alerts))

unfoldable pub find_open_alert : Bool → Text → Text → Text → Db → Result ApiError (Option ℕ)
find_open_alert fails site asset kind db = do
  statement fails
  ok (alert_id_of (find_where (open_for site asset kind) db.alerts))

-- `alerts_site_scope_check` and `alerts_asset_ref_id_fkey`.
unfoldable pub alert_refused : Alert → Db → Bool
alert_refused a db =
    not (exists_where (λ s. text_eq s a.site_id) db.sites)
    || (bool_ne (text_eq a.kind (codes "site_outage")) (text_eq a.asset_id site_asset)
        || (not (text_eq a.asset_id site_asset)
            && not (exists_where (λ (x : Asset). text_eq x.asset_id a.asset_id) db.assets)))

-- `alerts_site_asset_kind_open_uidx` and `alerts_source_event_id_uidx`, for an open alert of an SMS.
unfoldable pub alert_clashes : Text → Alert → Db → Bool
alert_clashes key a db =
    exists_where (open_for a.site_id a.asset_id a.kind) db.alerts
    || exists_where (from_source key) db.alerts

unfoldable pub new_alert : CriticalFallbackEvent → Text → Text → Text → Db → Alert
new_alert e key kind reason db = record {
  alert_id = db.next_alert;
  asset_id = e.asset_id;
  site_id = e.site_id;
  kind = kind;
  is_open = true;
  reason = reason;
  opened_at = e.occurred_at;
  source_event_id = some key;
}

unfoldable pub add_alert : Alert → Db → Db
add_alert a db = record db { alerts = db.alerts ++ a ∷ []; next_alert = db.next_alert + 1 }

unfoldable pub create_alert : Bool → Text → Alert → Db → Result ApiError Db
unfolding alert_refused alert_clashes add_alert
create_alert fails key a db = do
  statement fails
  refuse_if (alert_refused a db || alert_clashes key a db) database
  ok (add_alert a db)

unfoldable pub add_outbox : OutboxRow → Db → Db
add_outbox row db = record db { outbox = db.outbox ++ row ∷ [] }

unfoldable pub publish_outbox_event : Bool → OutboxRow → Db → Result ApiError Db
unfolding add_outbox
publish_outbox_event fails row db = do statement fails; ok (add_outbox row db)

abbrev pub same_number : FallbackRow → FallbackRow → Bool
same_number r s = text_eq r.site_id s.site_id && r.sequence == s.sequence

-- The primary key, the unique pair, the reference to the site, the checks and the range of bigint.
unfoldable pub event_refused : FallbackRow → Db → Bool
event_refused r db =
    exists_where (event_at_key r.event_key) db.fallback_events
    || (exists_where (same_number r) db.fallback_events
        || (not (exists_where (λ s. text_eq s r.site_id) db.sites)
            || (not (critical_code_valid r.code) || (r.sequence == 0 || ltb max_int64 r.sequence))))

unfoldable pub add_event : FallbackRow → Db → Db
add_event r db = record db { fallback_events = db.fallback_events ++ r ∷ [] }

unfoldable pub insert_fallback_event : Bool → FallbackRow → Db → Result ApiError Db
unfolding event_refused add_event
insert_fallback_event fails r db = do
  statement fails
  refuse_if (event_refused r db) database
  ok (add_event r db)

abbrev pub receipt_at : Text → ReceiptRow → Bool
receipt_at id r = text_eq r.provider_message_id id

unfoldable pub receipt_row : Option Text → Text → SmsReceipt → SmsPricing → ReceiptRow
receipt_row gateway key receipt pricing = record {
  provider_message_id = receipt.provider_message_id;
  row_key = key;
  gateway_id = gateway;
  sender = receipt.sender;
  recipient = receipt.recipient;
  received_at = receipt.received_at;
  outbound_cost_minor = pricing.outbound_cost_minor;
  inbound_cost_minor = pricing.inbound_cost_minor;
  currency = pricing.currency;
}

-- ON CONFLICT (provider_message_id) DO NOTHING, and whether a row went in: shared by the two tables
-- of receipts.
unfoldable pub add_receipt : ReceiptRow → List ReceiptRow → Bool × List ReceiptRow
add_receipt r rows =
    if exists_where (receipt_at r.provider_message_id) rows
    then (false, rows)
    else (true, rows ++ r ∷ [])

unfoldable pub find_receipt_key : Bool → Text → List ReceiptRow → Result ApiError Text
find_receipt_key fails id rows = do
  statement fails
  elim (find_where (receipt_at id) rows) [ none ↦ err database | some r ↦ ok r.row_key ]
