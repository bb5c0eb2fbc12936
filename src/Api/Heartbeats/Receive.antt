-- ===== src/Api/Heartbeats/Receive.antt =====
-- `ReceiveHeartbeat` in its transaction, and the statements of it.
use ambagrid.Common.{
  ℕ, ◌*◌, ◌/◌, Bool, true, false, ◌&&◌, ◌||◌, not, Option, none, some, List, [], ◌∷◌, ◌++◌, Text,
  ltb, leb, ◌==◌, text_eq, Result, ok, ◌>>=◌, ◌>>◌, refuse_if, in_tx, second, exists_where,
  find_where, max_int64,
}
use ambagrid.Api.Sms.Parse.{GatewayHeartbeat, SmsReceipt}
use ambagrid.Api.Database.{
  ApiError, conflict, database, Faults, statement, Db, HeartbeatRow, ReceiptRow, SmsPricing,
}
use ambagrid.Api.Fallback.Details.{heartbeat_key, contact_at, expires_at}
use ambagrid.Api.Fallback.Queries.{receipt_row, add_receipt}
use ambagrid.Api.Fallback.Receive.{check_receipt_key, check_budget}

abbrev pub heartbeat_at : Text → HeartbeatRow → Bool
heartbeat_at key r = text_eq r.heartbeat_key key

unfoldable pub find_heartbeat : Bool → Text → Db → Result ApiError (Option HeartbeatRow)
find_heartbeat fails key db = do statement fails; ok (find_where (heartbeat_at key) db.heartbeats)

-- `StoredHeartbeat.Matches`, with the interval that the query computes from its seconds.
unfoldable pub heartbeat_matches : HeartbeatRow → GatewayHeartbeat → Bool
heartbeat_matches r h = r.sent_at == h.sent_at && r.interval_seconds * second == h.interval

unfoldable pub heartbeat_row : GatewayHeartbeat → ℕ → HeartbeatRow
heartbeat_row h contact = record {
  heartbeat_key = heartbeat_key h;
  site_id = h.site_id;
  gateway_id = h.gateway_id;
  sequence = h.sequence;
  interval_seconds = h.interval / second;
  sent_at = h.sent_at;
  contact_at = contact;
  expires_at = expires_at h contact;
}

abbrev pub same_heartbeat : HeartbeatRow → HeartbeatRow → Bool
same_heartbeat r t =
    text_eq r.site_id t.site_id && (text_eq r.gateway_id t.gateway_id && r.sequence == t.sequence)

-- The keys, the reference to the site, the checks and the range of bigint.
unfoldable pub heartbeat_refused : HeartbeatRow → Db → Bool
heartbeat_refused r db =
    exists_where (heartbeat_at r.heartbeat_key) db.heartbeats
    || (exists_where (same_heartbeat r) db.heartbeats
        || (not (exists_where (λ s. text_eq s r.site_id) db.sites)
            || ((r.sequence == 0 || ltb max_int64 r.sequence)
                || ((ltb r.interval_seconds 60 || ltb 86_400 r.interval_seconds)
                    || leb r.expires_at r.contact_at))))

unfoldable pub add_heartbeat : HeartbeatRow → Db → Db
add_heartbeat r db = record db { heartbeats = db.heartbeats ++ r ∷ [] }

unfoldable pub insert_heartbeat : Bool → HeartbeatRow → Db → Result ApiError Db
unfolding heartbeat_refused add_heartbeat
insert_heartbeat fails r db = do
  statement fails
  refuse_if (heartbeat_refused r db) database
  ok (add_heartbeat r db)

unfoldable pub heartbeat_receipt_outcome :
    SmsPricing → Faults → Text → Text → Bool × List ReceiptRow → Result ApiError (List ReceiptRow)
unfolding check_receipt_key check_budget
heartbeat_receipt_outcome pricing f key id (false, rows) = do
  check_receipt_key (f 5) key id rows
  ok rows
heartbeat_receipt_outcome pricing f key id (true, rows) = do check_budget pricing (f 6); ok rows

-- `HeartbeatService.recordReceipt`.
unfoldable pub record_heartbeat_receipt :
    SmsPricing → Faults → Text → SmsReceipt → Db → Result ApiError Db
unfolding add_receipt receipt_row heartbeat_receipt_outcome
record_heartbeat_receipt pricing f key receipt db = do
  statement (f 4)
  rows ←
      heartbeat_receipt_outcome pricing f key receipt.provider_message_id
        (add_receipt (receipt_row none key receipt pricing) db.heartbeat_receipts)
  ok (record db { heartbeat_receipts = rows })

unfoldable pub heartbeat_stored :
    SmsPricing
    → Faults
    → GatewayHeartbeat
    → SmsReceipt
    → HeartbeatRow
    → Db
    → Result ApiError (Bool × Db)
heartbeat_stored pricing f h receipt r db = do
  refuse_if (not (heartbeat_matches r h)) conflict
  db' ← record_heartbeat_receipt pricing f (heartbeat_key h) receipt db
  ok (false, db')

unfoldable pub heartbeat_new :
    SmsPricing → Faults → GatewayHeartbeat → SmsReceipt → Db → Result ApiError (Bool × Db)
heartbeat_new pricing f h receipt db = do
  db' ← insert_heartbeat (f 3) (heartbeat_row h (contact_at h receipt.received_at)) db
  db'' ← record_heartbeat_receipt pricing f (heartbeat_key h) receipt db'
  ok (true, db'')

unfoldable pub heartbeat_body :
    SmsPricing → Faults → GatewayHeartbeat → SmsReceipt → Db → Result ApiError (Bool × Db)
heartbeat_body pricing f h receipt db = do
  found ← find_heartbeat (f 2) (heartbeat_key h) db
  elim found [
    | some r ↦ heartbeat_stored pricing f h receipt r db
    | none ↦ heartbeat_new pricing f h receipt db
  ]

-- `RunHeartbeatTx`.
unfoldable pub receive_heartbeat :
    SmsPricing → Faults → GatewayHeartbeat → SmsReceipt → Db → Db × Result ApiError Bool
receive_heartbeat pricing f h receipt db = in_tx db (do
  statement (f 0)
  statement (f 1)
  done ← heartbeat_body pricing f h receipt db
  statement (f 7)
  ok done)
