-- ===== src/Api/Fallback/Integrity.antt =====
-- The references between the tables hold after every SMS: the foreign keys of alerts and receipts.
use ambagrid.Common.{
  ap, exists-append, exists_last, find-exists, find_none-exists, ℕ, ◌+◌, ◌<◌, ◌≡◌, inl, inr, refl,
  Bool, true, false, some, List, [], ◌∷◌, ◌++◌, arith, Text, ◌==◌, text_eq, text_eq_iff,
  text_eq_refl, All, All-append, All-map, Result, ok, err, exists_where, find_where,
}
use ambagrid.Api.Sms.Parse.{CriticalFallbackEvent, SmsReceipt}
use ambagrid.Api.Database.{ApiError, Faults, Db, Alert, FallbackRow, ReceiptRow}
use ambagrid.Api.Fallback.Details.{event_key, new_event_key}
use ambagrid.Api.Fallback.Queries.{
  event_at_key, from_source, open_for, new_alert, add_alert, add_outbox, add_event, receipt_row,
  alert_id_of,
}
use ambagrid.Api.Fallback.Receive.{FallbackService, fallback_row, receive_sms}
use ambagrid.Api.Fallback.Repeats.{Alerted-events}
use ambagrid.Api.Fallback.Outcomes.{
  receive_sms-refused, Receipted, Alerted, Received, repeated, stored, receive_sms-Received,
}

abbrev pub has_id : ℕ → Alert → Bool
has_id id a = a.alert_id == id

abbrev pub HasAlert : List Alert → FallbackRow → Type 0
HasAlert alerts r = exists_where (has_id r.alert_id) alerts ≡ true

abbrev pub HasEvent : List FallbackRow → ReceiptRow → Type 0
HasEvent events r = exists_where (event_at_key r.row_key) events ≡ true

-- No key comes twice.
abbrev pub DistinctKeys : List FallbackRow → Type 0
DistinctKeys [] = Unit
DistinctKeys (r ∷ rs) = (exists_where (event_at_key r.event_key) rs ≡ false) × DistinctKeys rs

-- The key of a row is that of its site and sequence.
abbrev pub Keyed : FallbackRow → Type 0
Keyed r = r.event_key ≡ new_event_key r.site_id r.sequence

pub record Linked (db : Db) : Type 0 where
  pub numbered : All (λ a. a.alert_id < db.next_alert) db.alerts
  pub alerted : All (HasAlert db.alerts) db.fallback_events
  pub noted : All (HasEvent db.fallback_events) db.fallback_receipts
  pub distinct : DistinctKeys db.fallback_events
  pub keyed : All Keyed db.fallback_events

-- The alert that a query finds is in the table.
find-has_id :
    (p : Alert → Bool) (alerts : List Alert) (id : ℕ)
    → alert_id_of (find_where p alerts) ≡ some id
    → exists_where (has_id id) alerts ≡ true
unfolding find_where exists_where
find-has_id p [] id h = absurd (ground arith)
find-has_id p (a ∷ alerts) id h = ground (arith, find-has_id p alerts id)

exists_other :
    (x r : FallbackRow) (rs : List FallbackRow)
    → exists_where (event_at_key x.event_key) rs ≡ false
    → text_eq x.event_key r.event_key ≡ false
    → exists_where (event_at_key x.event_key) (rs ++ r ∷ []) ≡ false
unfolding exists_where
exists_other x r [] h differ =
    ground (arith, text_eq_iff x.event_key r.event_key, text_eq_iff r.event_key x.event_key)
exists_other x r (y ∷ rs) h differ = ground (arith, exists_other x r rs)

DistinctKeys-append :
    (rs : List FallbackRow) (r : FallbackRow)
    → DistinctKeys rs
    → exists_where (event_at_key r.event_key) rs ≡ false
    → DistinctKeys (rs ++ r ∷ [])
unfolding exists_where
DistinctKeys-append [] r d h = (refl, tt)
DistinctKeys-append (x ∷ rs) r d h =
    (exists_other x r rs d.0 (ground arith), DistinctKeys-append rs r d.1 (ground arith))

-- A new alert: the references of the events stay.
add_alert-Linked :
    (a : Alert) (db : Db) → a.alert_id ≡ db.next_alert → Linked db → Linked (add_alert a db)
unfolding add_alert
add_alert-Linked a db e v = record {
  numbered =
      All-append (λ x. x.alert_id < db.next_alert + 1) db.alerts (a ∷ [])
        (All-map _ _ db.alerts (λ x h. omega arith) v.numbered) (omega arith, tt);
  alerted =
      All-map (HasAlert db.alerts) (HasAlert (db.alerts ++ a ∷ [])) db.fallback_events
        (λ r h. exists-append (has_id r.alert_id) db.alerts (a ∷ []) h) v.alerted;
  noted = v.noted;
  distinct = v.distinct;
  keyed = v.keyed;
}

Alerted-Linked :
    (s : FallbackService) (e : CriticalFallbackEvent) (kind reason : Text) (id : ℕ) (created : Bool)
    (db db' : Db)
    → Alerted s e kind reason id created db db'
    → Linked db
    → Linked db' × (exists_where (has_id id) db'.alerts ≡ true)
unfolding new_alert add_outbox add_alert
Alerted-Linked s e kind reason id created db db' (inl (_, same, inl own)) v =
    rw same (v, find-has_id (from_source (event_key e)) db.alerts id own)
Alerted-Linked s e kind reason id created db db' (inl (_, same, inr other)) v = rw same (
  v,
  find-has_id (open_for e.site_id e.asset_id kind) db.alerts id (rw (other.1) (ap some (other.2))),
)
Alerted-Linked s e kind reason id created db db' (inr (_, fresh, _, _, after)) v =
    let w = add_alert-Linked (new_alert e (event_key e) kind reason db) db refl v in
    rw after (
      record {
        numbered = w.numbered;
        alerted = w.alerted;
        noted = w.noted;
        distinct = w.distinct;
        keyed = w.keyed;
      },
      rw fresh (exists_last (has_id db.next_alert) db.alerts _ (ground arith)),
    )

add_event-Linked :
    (r : FallbackRow) (db : Db)
    → exists_where (has_id r.alert_id) db.alerts ≡ true
    → exists_where (event_at_key r.event_key) db.fallback_events ≡ false
    → Keyed r
    → Linked db
    → Linked (add_event r db)
unfolding add_event
add_event-Linked r db has fresh named v = record {
  numbered = v.numbered;
  alerted = All-append (HasAlert db.alerts) db.fallback_events (r ∷ []) v.alerted (has, tt);
  noted =
      All-map (HasEvent db.fallback_events) (HasEvent (db.fallback_events ++ r ∷ []))
        db.fallback_receipts
        (λ x h. exists-append (event_at_key x.row_key) db.fallback_events (r ∷ []) h) v.noted;
  distinct = DistinctKeys-append db.fallback_events r v.distinct fresh;
  keyed = All-append Keyed db.fallback_events (r ∷ []) v.keyed (named, tt);
}

Receipted-Linked :
    (s : FallbackService) (key : Text) (receipt : SmsReceipt) (db db' : Db)
    → exists_where (event_at_key key) db.fallback_events ≡ true
    → Receipted s key receipt db db'
    → Linked db
    → Linked db'
unfolding receipt_row
Receipted-Linked s key receipt db db' has (inl (same, _)) v = rw same v
Receipted-Linked s key receipt db db' has (inr (_, more)) v = rw more (record {
  numbered = v.numbered;
  alerted = v.alerted;
  noted = All-append (HasEvent db.fallback_events) db.fallback_receipts _ v.noted (has, tt);
  distinct = v.distinct;
  keyed = v.keyed;
})

Received-Linked :
    (s : FallbackService) (f : Faults) (e : CriticalFallbackEvent) (receipt : SmsReceipt) (db : Db)
    (created : Bool) (db' : Db)
    → Received s f e receipt db created db'
    → Linked db
    → Linked db'
unfolding add_event fallback_row event_key
Received-Linked s f e receipt db created db' (repeated r plain found same noted) v =
    Receipted-Linked s (event_key e) receipt db db'
      (find-exists (event_at_key (event_key e)) db.fallback_events r found) noted v
Received-Linked s f e receipt db created db'
      (stored kind reason id c mid missing checks alerted noted) v =
    let row = fallback_row e id in
    let (w, has) = Alerted-Linked s e kind reason id c db mid alerted v in
    let absent = find_none-exists (event_at_key (event_key e)) db.fallback_events missing in
    let fresh : exists_where (event_at_key (event_key e)) mid.fallback_events ≡ false =
      rw (Alerted-events s e kind reason id c db mid alerted) absent in
    Receipted-Linked s (event_key e) receipt (add_event row mid) db'
      (exists_last (event_at_key (event_key e)) mid.fallback_events row
        (text_eq_refl (event_key e)))
      noted (add_event-Linked row mid has fresh refl w)

-- After every SMS, whichever of its statements fail, each stored event has its alert, each receipt
-- its event, no key is stored twice, each key is that of its site and sequence, and the next alert ID is
-- a new one.
pub receive_sms-Linked :
    (s : FallbackService) (f : Faults) (e : CriticalFallbackEvent) (receipt : SmsReceipt) (db : Db)
    → Linked db
    → Linked (receive_sms s f e receipt db).0
receive_sms-Linked s f e receipt db v = settled (receive_sms s f e receipt db).1 refl
  where
    settled :
        (r : Result ApiError Bool)
        → (receive_sms s f e receipt db).1 ≡ r
        → Linked (receive_sms s f e receipt db).0
    settled (ok created) q =
        Received-Linked s f e receipt db created _ (receive_sms-Received s f e receipt db created q)
          v
    settled (err x) q = rw (receive_sms-refused s f e receipt db x q) v
