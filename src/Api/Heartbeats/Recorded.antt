-- ===== src/Api/Heartbeats/Recorded.antt =====
-- What a heartbeat that is received has changed, and what it changes when it comes again.
use ambagrid.Common.{
  ℕ, ◌+◌, ◌*◌, ◌/◌, ◌%◌, ◌≤◌, ◌≡◌, ◌⊎◌, inl, inr, refl, ◌∙◌, Bool, true, false, not, Option, none,
  some, List, [], ◌∷◌, ◌++◌, arith, Text, text_eq, text_eq_refl, ok, err, >>=-eq-ok, in_tx-eq-ok,
  in_tx_atomic, refuse_if, second, exists_where, find_where,
}
use ambagrid.Api.Sms.Parse.{GatewayHeartbeat, SmsReceipt}
use ambagrid.Api.Database.{
  ApiError, conflict, Faults, no_faults, statement, Db, HeartbeatRow, ReceiptRow, SmsPricing,
}
use ambagrid.Api.Fallback.Details.{heartbeat_key, contact_at, expires_at}
use ambagrid.Api.Fallback.Queries.{receipt_at, receipt_row, add_receipt}
use ambagrid.Api.Fallback.Outcomes.{keyed_by}
use ambagrid.Api.Fallback.Repeats.{keyed_by-exists}
use ambagrid.Api.Heartbeats.Receive.{
  heartbeat_at, find_heartbeat, heartbeat_matches, heartbeat_row, insert_heartbeat, add_heartbeat,
  record_heartbeat_receipt, heartbeat_stored, heartbeat_new, heartbeat_body, receive_heartbeat,
}

-- Of the other tables, only the receipts of heartbeats may have changed.
abbrev pub OnlyReceipts : Db → Db → Type 0
OnlyReceipts db db' = (rows : List ReceiptRow) × (db' ≡ record db { heartbeat_receipts = rows })

-- The row of a heartbeat vouches for no time after its sending or its delivery, and for two and a
-- half intervals from then on.
pub record Vouches (h : GatewayHeartbeat) (received_at : ℕ) (r : HeartbeatRow) : Type 0 where
  pub sent : r.contact_at ≤ h.sent_at
  pub delivered : r.contact_at ≤ received_at
  pub earlier : (r.contact_at ≡ h.sent_at) ⊎ (r.contact_at ≡ received_at)
  pub lasts : r.expires_at ≡ r.contact_at + h.interval * 5 / 2
  pub comes_back : (h.interval % second ≡ 0) → heartbeat_matches r h ≡ true

pub data Recorded (h : GatewayHeartbeat) (receipt : SmsReceipt) (db : Db) : Bool → Db → Type 0 where
  known :
      (r : HeartbeatRow) {created : Bool} {db' : Db}
      → created ≡ false
      → find_where (heartbeat_at (heartbeat_key h)) db.heartbeats ≡ some r
      → heartbeat_matches r h ≡ true
      → OnlyReceipts db db'
      → Recorded h receipt db created db'
  fresh :
      (r : HeartbeatRow) {created : Bool} {db' : Db}
      → created ≡ true
      → find_where (heartbeat_at (heartbeat_key h)) db.heartbeats ≡ none
      → text_eq r.heartbeat_key (heartbeat_key h) ≡ true
      → Vouches h receipt.received_at r
      → OnlyReceipts (add_heartbeat r db) db'
      → Recorded h receipt db created db'

heartbeat_row-Vouches :
    (h : GatewayHeartbeat) (received_at : ℕ)
    → Vouches h received_at (heartbeat_row h (contact_at h received_at))
unfolding heartbeat_row contact_at expires_at heartbeat_matches
heartbeat_row-Vouches h received_at = record {
  sent = ground arith;
  delivered = ground arith;
  earlier = ground arith;
  lasts = refl;
  comes_back = λ whole. ground arith;
}

record_heartbeat_receipt-OnlyReceipts :
    (pricing : SmsPricing) (f : Faults) (key : Text) (receipt : SmsReceipt) (db : Db) {db' : Db}
    → record_heartbeat_receipt pricing f key receipt db ≡ ok db'
    → OnlyReceipts db db'
unfolding record_heartbeat_receipt
record_heartbeat_receipt-OnlyReceipts pricing f key receipt db {db'} e =
    (db'.heartbeat_receipts, ground arith)

insert_heartbeat-add_heartbeat :
    (fails : Bool) (r : HeartbeatRow) (db : Db) {db' : Db}
    → insert_heartbeat fails r db ≡ ok db'
    → db' ≡ add_heartbeat r db
unfolding insert_heartbeat
insert_heartbeat-add_heartbeat fails r db h = ground arith

module _ (pricing : SmsPricing) (f : Faults) (h : GatewayHeartbeat) (receipt : SmsReceipt)
    (db : Db) where
  heartbeat_stored-Recorded :
      (r : HeartbeatRow) (created : Bool) (db' : Db)
      → find_where (heartbeat_at (heartbeat_key h)) db.heartbeats ≡ some r
      → heartbeat_stored pricing f h receipt r db ≡ ok (created, db')
      → Recorded h receipt db created db'
  unfolding heartbeat_stored
  heartbeat_stored-Recorded r created db' found e =
      let (_, same, e1) = >>=-eq-ok (refuse_if (not (heartbeat_matches r h)) conflict) _ e in
      let (mid, wrote, e2) =
        >>=-eq-ok (record_heartbeat_receipt pricing f (heartbeat_key h) receipt db) _ e1 in
      let plain : created ≡ false = cc in
      let wrote' : record_heartbeat_receipt pricing f (heartbeat_key h) receipt db ≡ ok db' = cc in
      known r plain found (ground arith)
        (record_heartbeat_receipt-OnlyReceipts pricing f (heartbeat_key h) receipt db wrote')

  heartbeat_new-Recorded :
      (created : Bool) (db' : Db)
      → find_where (heartbeat_at (heartbeat_key h)) db.heartbeats ≡ none
      → heartbeat_new pricing f h receipt db ≡ ok (created, db')
      → Recorded h receipt db created db'
  unfolding heartbeat_new
  heartbeat_new-Recorded created db' missing e =
      let row = heartbeat_row h (contact_at h receipt.received_at) in
      let (mid, inserted, e1) = >>=-eq-ok (insert_heartbeat (f 3) row db) _ e in
      let (last, wrote, e2) =
        >>=-eq-ok (record_heartbeat_receipt pricing f (heartbeat_key h) receipt mid) _ e1 in
      let new : created ≡ true = cc in
      let wrote' : record_heartbeat_receipt pricing f (heartbeat_key h) receipt
            (add_heartbeat row db)
          ≡ ok db' =
        cc (insert_heartbeat-add_heartbeat (f 3) row db inserted) in
      fresh row new missing (unfold heartbeat_row in text_eq_refl (heartbeat_key h))
        (heartbeat_row-Vouches h receipt.received_at)
        (record_heartbeat_receipt-OnlyReceipts pricing f (heartbeat_key h) receipt _ wrote')

  find_heartbeat-found :
      (found : Option HeartbeatRow)
      → find_heartbeat (f 2) (heartbeat_key h) db ≡ ok found
      → find_where (heartbeat_at (heartbeat_key h)) db.heartbeats ≡ found
  unfolding find_heartbeat
  find_heartbeat-found found e = ground arith

  heartbeat_found :
      (created : Bool) (db' : Db) (found : Option HeartbeatRow)
      → find_heartbeat (f 2) (heartbeat_key h) db ≡ ok found
      → heartbeat_body pricing f h receipt db ≡ ok (created, db')
      → Recorded h receipt db created db'
  unfolding heartbeat_body
  heartbeat_found created db' none q e =
      heartbeat_new-Recorded created db' (find_heartbeat-found none q) (rw q at e)
  heartbeat_found created db' (some r) q e =
      heartbeat_stored-Recorded r created db' (find_heartbeat-found (some r) q) (rw q at e)

  heartbeat_body-Recorded :
      (created : Bool) (db' : Db)
      → heartbeat_body pricing f h receipt db ≡ ok (created, db')
      → Recorded h receipt db created db'
  unfolding heartbeat_body
  heartbeat_body-Recorded created db' e =
      let (found, q, _) = >>=-eq-ok (find_heartbeat (f 2) (heartbeat_key h) db) _ e in
      heartbeat_found created db' found q e

  -- A heartbeat that is received is one that was stored before with the same time and interval, or
  -- it is stored now: its row vouches for the gateway from the earlier of its sending and its
  -- delivery, for two and a half intervals. Besides, only the receipts of heartbeats may change.
  pub receive_heartbeat-Recorded :
      (created : Bool)
      → (receive_heartbeat pricing f h receipt db).1 ≡ ok created
      → Recorded h receipt db created (receive_heartbeat pricing f h receipt db).0
  unfolding receive_heartbeat
  receive_heartbeat-Recorded created e =
      let committed = in_tx-eq-ok db _ e in
      let (_, _, e1) = >>=-eq-ok (statement (f 0)) _ committed in
      let (_, _, e2) = >>=-eq-ok (statement (f 1)) _ e1 in
      let (done, body, e3) = >>=-eq-ok (heartbeat_body pricing f h receipt db) _ e2 in
      let (_, _, e4) = >>=-eq-ok (statement (f 7)) _ e3 in
      heartbeat_body-Recorded created _ (body ∙ e4)

find_heartbeat-append :
    (key : Text) (rows : List HeartbeatRow) (r : HeartbeatRow)
    → find_where (heartbeat_at key) rows ≡ none
    → text_eq r.heartbeat_key key ≡ true
    → find_where (heartbeat_at key) (rows ++ r ∷ []) ≡ some r
unfolding find_where
find_heartbeat-append key [] r h e = ground arith
find_heartbeat-append key (x ∷ rows) r h e = ground (arith, find_heartbeat-append key rows r)

abbrev HeartbeatKept : GatewayHeartbeat → Db → Type 0
HeartbeatKept h db =
    (r : HeartbeatRow) × (find_where (heartbeat_at (heartbeat_key h)) db.heartbeats ≡ some r)
    × (heartbeat_matches r h ≡ true)

Recorded-HeartbeatKept :
    (h : GatewayHeartbeat) (receipt : SmsReceipt) (db : Db) (created : Bool) (db' : Db)
    → h.interval % second ≡ 0
    → Recorded h receipt db created db'
    → HeartbeatKept h db'
unfolding add_heartbeat
Recorded-HeartbeatKept h receipt db created db' whole (known r _ found same (rows, only)) =
    (r, rw only found, same)
Recorded-HeartbeatKept h receipt db created db' whole (fresh r _ missing key v (rows, only)) = (
  r,
  rw only (find_heartbeat-append (heartbeat_key h) db.heartbeats r missing key),
  v.comes_back whole,
)

-- The message is new among the heartbeats' receipts, or recorded for this heartbeat.
abbrev pub OwnMessage : Text → SmsReceipt → Db → Type 0
OwnMessage key receipt db =
    (exists_where (receipt_at receipt.provider_message_id) db.heartbeat_receipts ≡ false)
    ⊎ (keyed_by key (find_where (receipt_at receipt.provider_message_id) db.heartbeat_receipts)
        ≡ true)

record_heartbeat_receipt-own :
    (pricing : SmsPricing) (key : Text) (receipt : SmsReceipt) (db : Db)
    → OwnMessage key receipt db
    → record_heartbeat_receipt pricing no_faults key receipt db
      ≡ ok (record db {
        heartbeat_receipts =
            (add_receipt (receipt_row none key receipt pricing) db.heartbeat_receipts).1;
      })
unfolding record_heartbeat_receipt
record_heartbeat_receipt-own pricing key receipt db (inl new) = ground arith
record_heartbeat_receipt-own pricing key receipt db (inr own) =
    ground (
      arith,
      keyed_by-exists key (receipt_at receipt.provider_message_id) db.heartbeat_receipts own,
    )

receive_heartbeat-kept :
    (pricing : SmsPricing) (h : GatewayHeartbeat) (receipt : SmsReceipt) (db : Db)
    → HeartbeatKept h db
    → OwnMessage (heartbeat_key h) receipt db
    → receive_heartbeat pricing no_faults h receipt db ≡ (
      record db {
        heartbeat_receipts =
            (add_receipt
              (receipt_row none (heartbeat_key h) receipt pricing)
              db.heartbeat_receipts).1;
      },
      ok false,
    )
unfolding receive_heartbeat heartbeat_body heartbeat_stored find_heartbeat
receive_heartbeat-kept pricing h receipt db (r, found, same) own =
    rw (found, same, record_heartbeat_receipt-own pricing (heartbeat_key h) receipt db own) refl

-- A heartbeat of whole seconds that a call has received, received again: the answer says that
-- nothing was created, and no heartbeat is new, whatever the first call went through. The message
-- of the second is new or was recorded for this heartbeat, and no statement of it fails.
pub receive_heartbeat-repeats :
    (pricing : SmsPricing) (f : Faults) (h : GatewayHeartbeat) (first again : SmsReceipt) (db : Db)
    (created : Bool)
    → h.interval % second ≡ 0
    → (receive_heartbeat pricing f h first db).1 ≡ ok created
    → let db' = (receive_heartbeat pricing f h first db).0 in
      OwnMessage (heartbeat_key h) again db'
      → ((receive_heartbeat pricing no_faults h again db').1 ≡ ok false)
        × ((receive_heartbeat pricing no_faults h again db').0.heartbeats ≡ db'.heartbeats)
receive_heartbeat-repeats pricing f h first again db created whole done own =
    let db' = (receive_heartbeat pricing f h first db).0 in
    let kept =
      Recorded-HeartbeatKept h first db created db' whole
        (receive_heartbeat-Recorded pricing f h first db created done) in
    rw (receive_heartbeat-kept pricing h again db' kept own) (refl, refl)

-- A call that fails changes nothing.
pub receive_heartbeat-refused :
    (pricing : SmsPricing) (f : Faults) (h : GatewayHeartbeat) (receipt : SmsReceipt) (db : Db)
    (x : ApiError)
    → (receive_heartbeat pricing f h receipt db).1 ≡ err x
    → (receive_heartbeat pricing f h receipt db).0 ≡ db
unfolding receive_heartbeat
receive_heartbeat-refused pricing f h receipt db x e = in_tx_atomic db _ e
