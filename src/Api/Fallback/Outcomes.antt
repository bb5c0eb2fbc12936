-- ===== src/Api/Fallback/Outcomes.antt =====
-- What a call of `ReceiveSMS` that succeeds has changed.
use ambagrid.Common.{
  ℕ, ◌≡◌, ◌⊎◌, refuse_if, >>=-eq-ok, in_tx-eq-ok, in_tx_atomic, ◌∙◌, Bool, true, false, not, Option,
  none, some, [], ◌∷◌, ◌++◌, arith, Text, text_eq, text_eq_iff, All, List, Bool-cases, inl, inr,
  refl, is_empty, ok, err, exists_where, find_where,
}
use ambagrid.Api.Sms.Parse.{CriticalFallbackEvent, SmsReceipt}
use ambagrid.Api.Database.{
  ApiError, conflict, statement, Faults, Db, Alert, FallbackRow, ReceiptRow,
}
use ambagrid.Api.Fallback.Details.{event_key, alert_details, row_matches}
use ambagrid.Api.Fallback.Queries.{
  find_fallback_event, event_at_key, from_source, open_for, new_alert, add_alert, add_outbox,
  add_event, receipt_at, receipt_row, alert_id_of, insert_fallback_event,
}
use ambagrid.Api.Fallback.Receive.{
  FallbackService, record_receipt, check_asset, ensure_alert, outbox_row, fallback_row, receive_new,
  receive_stored, receive_body, receive_sms,
}

abbrev pub keyed_by : Text → Option ReceiptRow → Bool
keyed_by key none = false
keyed_by key (some r) = text_eq r.row_key key

-- The receipt is in the table behind the others, or its message has no ID or was there before, with
-- this key.
abbrev pub Receipted : FallbackService → Text → SmsReceipt → Db → Db → Type 0
Receipted s key receipt db db' =
    ((db' ≡ db)
      × ((is_empty receipt.provider_message_id ≡ true)
          ⊎ (keyed_by key (find_where (receipt_at receipt.provider_message_id) db.fallback_receipts)
              ≡ true)))
    ⊎ ((exists_where (receipt_at receipt.provider_message_id) db.fallback_receipts ≡ false)
        × (db' ≡ record db {
          fallback_receipts =
              db.fallback_receipts
              ++ receipt_row (some receipt.gateway_id) key receipt s.pricing ∷ [];
        }))

pub record_receipt-Receipted :
    (s : FallbackService) (f : Faults) (key : Text) (receipt : SmsReceipt) (db : Db) {db' : Db}
    → record_receipt s f key receipt db ≡ ok db'
    → Receipted s key receipt db db'
unfolding record_receipt
record_receipt-Receipted s f key receipt db e = ground arith

-- An open alert of the site, the asset and the kind of an event.
abbrev pub OpenOfKind : CriticalFallbackEvent → Text → Alert → Type 0
OpenOfKind e kind a =
    (a.site_id ≡ e.site_id) × (a.asset_id ≡ e.asset_id) × (a.kind ≡ kind) × (a.is_open ≡ true)

-- The alert of an event: one that was there, its own or an open one of its kind, or a new one with
-- its row of the outbox.
abbrev pub Alerted :
    FallbackService → CriticalFallbackEvent → Text → Text → ℕ → Bool → Db → Db → Type 0
Alerted s e kind reason id created db db' =
    ((created ≡ false)
      × (db' ≡ db)
      × ((alert_id_of (find_where (from_source (event_key e)) db.alerts) ≡ some id)
          ⊎ ((a : Alert) × (find_where (open_for e.site_id e.asset_id kind) db.alerts ≡ some a)
              × (a.alert_id ≡ id)
              × OpenOfKind e kind a)))
    ⊎ ((created ≡ true)
        × (id ≡ db.next_alert)
        × (exists_where (from_source (event_key e)) db.alerts ≡ false)
        × All (λ a. ¬ OpenOfKind e kind a) db.alerts
        × (db'
            ≡ add_outbox (outbox_row s e reason id)
                (add_alert (new_alert e (event_key e) kind reason db) db)))

open_for-OpenOfKind :
    (e : CriticalFallbackEvent) (kind : Text) (a : Alert)
    → open_for e.site_id e.asset_id kind a ≡ true
    → OpenOfKind e kind a
open_for-OpenOfKind e kind a h = ground (
  arith,
  text_eq_iff a.site_id e.site_id,
  text_eq_iff a.asset_id e.asset_id,
  text_eq_iff a.kind kind,
)

OpenOfKind-open_for :
    (e : CriticalFallbackEvent) (kind : Text) (a : Alert)
    → open_for e.site_id e.asset_id kind a ≡ false
    → ¬ OpenOfKind e kind a
OpenOfKind-open_for e kind a h k = ground (
  arith,
  text_eq_iff a.site_id e.site_id,
  text_eq_iff a.asset_id e.asset_id,
  text_eq_iff a.kind kind,
)

none_open :
    (e : CriticalFallbackEvent) (kind : Text) (alerts : List Alert)
    → exists_where (open_for e.site_id e.asset_id kind) alerts ≡ false
    → All (λ a. ¬ OpenOfKind e kind a) alerts
unfolding exists_where
none_open e kind [] h = tt
none_open e kind (a ∷ alerts) h =
    (OpenOfKind-open_for e kind a (ground arith), none_open e kind alerts (ground arith))

found_open :
    (e : CriticalFallbackEvent) (kind : Text) (id : ℕ) (alerts : List Alert)
    → alert_id_of (find_where (open_for e.site_id e.asset_id kind) alerts) ≡ some id
    → (a : Alert) × (find_where (open_for e.site_id e.asset_id kind) alerts ≡ some a)
      × (a.alert_id ≡ id)
      × OpenOfKind e kind a
unfolding find_where
found_open e kind id [] h = absurd (ground arith)
found_open e kind id (a ∷ alerts) h = elim (Bool-cases (open_for e.site_id e.asset_id kind a)) [
  | inl hit ↦ (a, rw hit refl, ground (arith, rw hit at h), open_for-OpenOfKind e kind a hit)
  | inr miss ↦
      let (b, found, same, is_open) = found_open e kind id alerts (rw miss at h) in
      (b, rw miss found, same, is_open)
]

ensure_alert_cases :
    (s : FallbackService) (f : Faults) (e : CriticalFallbackEvent) (kind reason : Text) (db : Db)
    (id : ℕ) (created : Bool) (db' : Db)
    → ensure_alert s f e (kind, reason) db ≡ ok (id, created, db')
    → ((created ≡ false)
        × (db' ≡ db)
        × ((alert_id_of (find_where (from_source (event_key e)) db.alerts) ≡ some id)
            ⊎ (alert_id_of (find_where (open_for e.site_id e.asset_id kind) db.alerts) ≡ some id)))
      ⊎ ((created ≡ true)
          × (id ≡ db.next_alert)
          × (exists_where (from_source (event_key e)) db.alerts ≡ false)
          × (exists_where (open_for e.site_id e.asset_id kind) db.alerts ≡ false)
          × (db'
              ≡ add_outbox
                  (outbox_row s e reason id)
                  (add_alert (new_alert e (event_key e) kind reason db) db)))
unfolding ensure_alert
ensure_alert_cases s f e kind reason db id created db' h = ground arith

ensure_alert-Alerted :
    (s : FallbackService) (f : Faults) (e : CriticalFallbackEvent) (kind reason : Text) (db : Db)
    (id : ℕ) (created : Bool) (db' : Db)
    → ensure_alert s f e (kind, reason) db ≡ ok (id, created, db')
    → Alerted s e kind reason id created db db'
ensure_alert-Alerted s f e kind reason db id created db' h =
    elim (ensure_alert_cases s f e kind reason db id created db' h) [
      | inl (old, same, inl own) ↦ inl (old, same, inl own)
      | inl (old, same, inr other) ↦ inl (old, same, inr (found_open e kind id db.alerts other))
      | inr (new, fresh, unsourced, closed, after) ↦
          inr (new, fresh, unsourced, none_open e kind db.alerts closed, after)
    ]

-- What a successful call has done: the event was stored and says the same, or it is stored now,
-- after its asset was checked, with its alert. Either way its receipt is as `Receipted` says.
pub data Received (s : FallbackService) (f : Faults) (e : CriticalFallbackEvent)
    (receipt : SmsReceipt) (db : Db) : Bool → Db → Type 0 where
  repeated :
      (r : FallbackRow) {created : Bool} {db' : Db}
      → created ≡ false
      → find_where (event_at_key (event_key e)) db.fallback_events ≡ some r
      → row_matches r e ≡ true
      → Receipted s (event_key e) receipt db db'
      → Received s f e receipt db created db'
  stored :
      (kind reason : Text) (id : ℕ) (created : Bool) (with_alert : Db) {db' : Db}
      → find_where (event_at_key (event_key e)) db.fallback_events ≡ none
      → (check_asset f e db ≡ ok tt) × (alert_details e ≡ ok (kind, reason))
      → Alerted s e kind reason id created db with_alert
      → Receipted s (event_key e) receipt (add_event (fallback_row e id) with_alert) db'
      → Received s f e receipt db created db'

receive_stored-Received :
    (s : FallbackService) (f : Faults) (e : CriticalFallbackEvent) (receipt : SmsReceipt)
    (r : FallbackRow) (db : Db) (created : Bool) (db' : Db)
    → find_where (event_at_key (event_key e)) db.fallback_events ≡ some r
    → receive_stored s f e receipt r db ≡ ok (created, db')
    → Received s f e receipt db created db'
unfolding receive_stored
receive_stored-Received s f e receipt r db created db' found h =
    let (_, same, h') = >>=-eq-ok (refuse_if (not (row_matches r e)) conflict) _ h in
    let (mid, wrote, h'') = >>=-eq-ok (record_receipt s f (event_key e) receipt db) _ h' in
    let plain : created ≡ false = cc in
    let wrote' : record_receipt s f (event_key e) receipt db ≡ ok db' = cc in
    repeated r plain found (ground arith)
      (record_receipt-Receipted s f (event_key e) receipt db wrote')

insert_fallback_event-add_event :
    (fails : Bool) (r : FallbackRow) (db : Db) {db' : Db}
    → insert_fallback_event fails r db ≡ ok db'
    → db' ≡ add_event r db
unfolding insert_fallback_event
insert_fallback_event-add_event fails r db h = ground arith

receive_new-Received :
    (s : FallbackService) (f : Faults) (e : CriticalFallbackEvent) (receipt : SmsReceipt) (db : Db)
    (created : Bool) (db' : Db)
    → find_where (event_at_key (event_key e)) db.fallback_events ≡ none
    → receive_new s f e receipt db ≡ ok (created, db')
    → Received s f e receipt db created db'
unfolding receive_new
receive_new-Received s f e receipt db created db' missing h =
    let (_, checked, h1) = >>=-eq-ok (check_asset f e db) _ h in
    let ((kind, reason), details, h2) = >>=-eq-ok (alert_details e) _ h1 in
    let ((id, new, with_alert), alerted, h3) =
      >>=-eq-ok (ensure_alert s f e (kind, reason) db) _ h2 in
    let row = fallback_row e id in
    let (with_event, inserted, h4) = >>=-eq-ok (insert_fallback_event (f 8) row with_alert) _ h3 in
    let (last, wrote, h5) = >>=-eq-ok (record_receipt s f (event_key e) receipt with_event) _ h4 in
    let same : new ≡ created = cc in
    let wrote' : record_receipt s f (event_key e) receipt (add_event row with_alert) ≡ ok db' =
      cc (insert_fallback_event-add_event (f 8) row with_alert inserted) in
    stored kind reason id created with_alert missing (checked, details)
      (rw same at (ensure_alert-Alerted s f e kind reason db id new with_alert alerted))
      (record_receipt-Receipted s f (event_key e) receipt _ wrote')

find_fallback_event-found :
    (fails : Bool) (key : Text) (db : Db) (found : Option FallbackRow)
    → find_fallback_event fails key db ≡ ok found
    → find_where (event_at_key key) db.fallback_events ≡ found
unfolding find_fallback_event
find_fallback_event-found fails key db none h = ground arith
find_fallback_event-found fails key db (some r) h = ground arith

receive_found :
    (s : FallbackService) (f : Faults) (e : CriticalFallbackEvent) (receipt : SmsReceipt) (db : Db)
    (created : Bool) (db' : Db) (found : Option FallbackRow)
    → find_fallback_event (f 2) (event_key e) db ≡ ok found
    → receive_body s f e receipt db ≡ ok (created, db')
    → Received s f e receipt db created db'
unfolding receive_body
receive_found s f e receipt db created db' none q h =
    receive_new-Received s f e receipt db created db'
      (find_fallback_event-found (f 2) (event_key e) db none q) (rw q at h)
receive_found s f e receipt db created db' (some r) q h =
    receive_stored-Received s f e receipt r db created db'
      (find_fallback_event-found (f 2) (event_key e) db (some r) q) (rw q at h)

receive_body-Received :
    (s : FallbackService) (f : Faults) (e : CriticalFallbackEvent) (receipt : SmsReceipt) (db : Db)
    (created : Bool) (db' : Db)
    → receive_body s f e receipt db ≡ ok (created, db')
    → Received s f e receipt db created db'
unfolding receive_body
receive_body-Received s f e receipt db created db' h =
    let (found, q, _) = >>=-eq-ok (find_fallback_event (f 2) (event_key e) db) _ h in
    receive_found s f e receipt db created db' found q h

-- A call that succeeds has done one of two things: the event was stored before, with the same
-- site, asset, code and sequence, and nothing but the receipt is new; or it is stored behind the
-- others with an alert, its own or an open one of its kind or a new one with its outbox row, after
-- its asset was checked. The receipt is recorded, unless its message has no ID, or
-- was there before for this event.
pub receive_sms-Received :
    (s : FallbackService) (f : Faults) (e : CriticalFallbackEvent) (receipt : SmsReceipt) (db : Db)
    (created : Bool)
    → (receive_sms s f e receipt db).1 ≡ ok created
    → Received s f e receipt db created (receive_sms s f e receipt db).0
unfolding receive_sms
receive_sms-Received s f e receipt db created h =
    let committed = in_tx-eq-ok db _ h in
    let (_, _, h1) = >>=-eq-ok (statement (f 0)) _ committed in
    let (_, _, h2) = >>=-eq-ok (statement (f 1)) _ h1 in
    let (done, body, h3) = >>=-eq-ok (receive_body s f e receipt db) _ h2 in
    let (_, _, h4) = >>=-eq-ok (statement (f 12)) _ h3 in
    receive_body-Received s f e receipt db created _ (body ∙ h4)

-- A call that fails changes nothing.
pub receive_sms-refused :
    (s : FallbackService) (f : Faults) (e : CriticalFallbackEvent) (receipt : SmsReceipt) (db : Db)
    (x : ApiError)
    → (receive_sms s f e receipt db).1 ≡ err x
    → (receive_sms s f e receipt db).0 ≡ db
unfolding receive_sms
receive_sms-refused s f e receipt db x h = in_tx_atomic db _ h
