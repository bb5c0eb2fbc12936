-- ===== src/Api/Fallback/Repeats.antt =====
-- An SMS that comes again: the provider delivers a message twice, or the gateway sends it twice.
use ambagrid.Common.{
  ℕ, ◌≡◌, ◌⊎◌, inl, inr, refl, ap, ◌∙◌, Bool, true, false, none, some, List, [], ◌∷◌, ◌++◌, arith,
  Text, text_eq, text_eq_iff, text_eq_refl, ok, err, exists_where, find_where,
}
use ambagrid.Api.Sms.Parse.{CriticalFallbackEvent, SmsReceipt, critical_code_valid}
use ambagrid.Api.Database.{conflict, Faults, no_faults, Db, FallbackRow, ReceiptRow}
use ambagrid.Api.Fallback.Details.{event_key, row_matches}
use ambagrid.Api.Fallback.Queries.{
  event_at_key, add_event, add_alert, add_outbox, add_receipt, find_fallback_event, receipt_at,
  receipt_row,
}
use ambagrid.Api.Fallback.Receive.{
  FallbackService, fallback_row, record_receipt, receive_stored, receive_body, receive_sms,
}
use ambagrid.Api.Fallback.Outcomes.{
  Receipted, Alerted, Received, repeated, stored, receive_sms-Received, keyed_by,
}

-- The receipts of the message are those of this event: a message that was not there, or that was
-- recorded for it.
abbrev pub OwnMessage : Text → SmsReceipt → Db → Type 0
OwnMessage key receipt db =
    (exists_where (receipt_at receipt.provider_message_id) db.fallback_receipts ≡ false)
    ⊎ (keyed_by key (find_where (receipt_at receipt.provider_message_id) db.fallback_receipts)
        ≡ true)

-- The event is stored.
abbrev pub Stored : CriticalFallbackEvent → Db → Type 0
Stored e db =
    (r : FallbackRow) × (find_where (event_at_key (event_key e)) db.fallback_events ≡ some r)
    × (row_matches r e ≡ true)

find_where-append :
    (key : Text) (rows : List FallbackRow) (r : FallbackRow)
    → find_where (event_at_key key) rows ≡ none
    → text_eq r.event_key key ≡ true
    → find_where (event_at_key key) (rows ++ r ∷ []) ≡ some r
unfolding find_where
find_where-append key [] r h e = ground arith
find_where-append key (x ∷ rows) r h e = ground (arith, find_where-append key rows r)

fallback_row-matches :
    (e : CriticalFallbackEvent) (id : ℕ) → row_matches (fallback_row e id) e ≡ true
unfolding row_matches fallback_row
fallback_row-matches e id =
    rw (text_eq_refl e.site_id, text_eq_refl e.asset_id, text_eq_refl e.code) (ground arith)

Receipted-events :
    (s : FallbackService) (key : Text) (receipt : SmsReceipt) (db db' : Db)
    → Receipted s key receipt db db'
    → db'.fallback_events ≡ db.fallback_events
Receipted-events s key receipt db db' (inl (same, _)) = ap (λ d. d.fallback_events) same
Receipted-events s key receipt db db' (inr (_, more)) = ap (λ d. d.fallback_events) more

pub Alerted-events :
    (s : FallbackService) (e : CriticalFallbackEvent) (kind reason : Text) (id : ℕ) (created : Bool)
    (db db' : Db)
    → Alerted s e kind reason id created db db'
    → db'.fallback_events ≡ db.fallback_events
unfolding add_alert add_outbox
Alerted-events s e kind reason id created db db' (inl h) = ap (λ d. d.fallback_events) (h.1)
Alerted-events s e kind reason id created db db' (inr h) = ap (λ d. d.fallback_events) (h.4)

add_event-events :
    (r : FallbackRow) (db : Db) → (add_event r db).fallback_events ≡ db.fallback_events ++ r ∷ []
unfolding add_event
add_event-events r db = refl

fallback_row-key :
    (e : CriticalFallbackEvent) (id : ℕ)
    → text_eq (fallback_row e id).event_key (event_key e) ≡ true
unfolding fallback_row
fallback_row-key e id = text_eq_refl (event_key e)

row_matches-code :
    (r : FallbackRow) (e : CriticalFallbackEvent) → row_matches r e ≡ true → r.code ≡ e.code
unfolding row_matches
row_matches-code r e h = ground (arith, text_eq_iff r.code e.code)

pub keyed_by-exists :
    (key : Text) (p : ReceiptRow → Bool) (rows : List ReceiptRow)
    → keyed_by key (find_where p rows) ≡ true
    → exists_where p rows ≡ true
unfolding find_where exists_where
keyed_by-exists key p [] h = ground arith
keyed_by-exists key p (r ∷ rows) h = ground (arith, keyed_by-exists key p rows)

-- After a successful call the event is stored.
pub Received-Stored :
    (s : FallbackService) (f : Faults) (e : CriticalFallbackEvent) (receipt : SmsReceipt) (db : Db)
    (created : Bool) (db' : Db)
    → Received s f e receipt db created db'
    → Stored e db'
Received-Stored s f e receipt db created db' (repeated r plain found same noted) =
    (r, rw (Receipted-events s (event_key e) receipt db db' noted) found, same)
Received-Stored s f e receipt db created db'
      (stored kind reason id c mid missing checks alerted noted) =
    let events =
      Receipted-events s (event_key e) receipt (add_event (fallback_row e id) mid) db' noted
      ∙ add_event-events (fallback_row e id) mid in
    let before = Alerted-events s e kind reason id c db mid alerted in
    (
      fallback_row e id,
      rw (events, before)
          (find_where-append (event_key e) db.fallback_events (fallback_row e id) missing
            (fallback_row-key e id)),
      fallback_row-matches e id,
    )

pub record_receipt-own :
    (s : FallbackService) (key : Text) (receipt : SmsReceipt) (db : Db)
    → OwnMessage key receipt db
    → record_receipt s no_faults key receipt db
      ≡ ok (record db {
        fallback_receipts =
            (add_receipt
              (receipt_row (some receipt.gateway_id) key receipt s.pricing)
              db.fallback_receipts).1;
      })
unfolding record_receipt
record_receipt-own s key receipt db (inl fresh) = ground arith
record_receipt-own s key receipt db (inr own) =
    ground
      (arith, keyed_by-exists key (receipt_at receipt.provider_message_id) db.fallback_receipts own)

-- The event of an SMS that is stored already, told again without a failure.
receive_sms-Stored :
    (s : FallbackService) (e : CriticalFallbackEvent) (receipt : SmsReceipt) (db : Db)
    → critical_code_valid e.code ≡ true
    → Stored e db
    → OwnMessage (event_key e) receipt db
    → receive_sms s no_faults e receipt db ≡ (
      record db {
        fallback_receipts =
            (add_receipt
              (receipt_row (some receipt.gateway_id) (event_key e) receipt s.pricing)
              db.fallback_receipts).1;
      },
      ok false,
    )
unfolding receive_sms receive_body receive_stored find_fallback_event
receive_sms-Stored s e receipt db valid (r, found, same) own =
    let legal : critical_code_valid r.code ≡ true = rw (row_matches-code r e same) valid in
    rw (found, legal, same, record_receipt-own s (event_key e) receipt db own) refl

abbrev pub Unmoved : Db → Db → Type 0
Unmoved db db' =
    (db'.alerts ≡ db.alerts) × (db'.outbox ≡ db.outbox) × (db'.fallback_events ≡ db.fallback_events)

-- An SMS whose event a call has stored, told again: the answer says that nothing was created, and no
-- alert, outbox row or event is new, whatever the first call went through. The message of the second
-- is new or was recorded for this event, and no statement of the second call fails.
pub receive_sms-repeats :
    (s : FallbackService) (f : Faults) (e : CriticalFallbackEvent) (first again : SmsReceipt)
    (db : Db) (created : Bool)
    → critical_code_valid e.code ≡ true
    → (receive_sms s f e first db).1 ≡ ok created
    → let db' = (receive_sms s f e first db).0 in
      OwnMessage (event_key e) again db'
      → ((receive_sms s no_faults e again db').1 ≡ ok false)
        × Unmoved db' (receive_sms s no_faults e again db').0
receive_sms-repeats s f e first again db created valid done own =
    let db' = (receive_sms s f e first db).0 in
    let kept =
      Received-Stored s f e first db created db'
        (receive_sms-Received s f e first db created done) in
    rw (receive_sms-Stored s e again db' valid kept own) (refl, (refl, refl, refl))

-- An SMS with the key of a stored event that says something else is refused as a conflict, and
-- changes nothing, if no statement fails.
pub receive_sms-conflict :
    (s : FallbackService) (e : CriticalFallbackEvent) (receipt : SmsReceipt) (db : Db)
    (r : FallbackRow)
    → find_where (event_at_key (event_key e)) db.fallback_events ≡ some r
    → critical_code_valid r.code ≡ true
    → row_matches r e ≡ false
    → receive_sms s no_faults e receipt db ≡ (db, err conflict)
unfolding receive_sms receive_body receive_stored find_fallback_event
receive_sms-conflict s e receipt db r found valid differs = rw (found, valid, differs) refl
