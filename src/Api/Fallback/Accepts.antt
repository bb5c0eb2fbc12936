-- ===== src/Api/Fallback/Accepts.antt =====
-- An SMS that is in order is taken: with an answer to every statement, nothing refuses it.
use ambagrid.Common.{
  find-exists, find_none-exists, ℕ, ◌≡◌, ◌⊎◌, inl, inr, refl, sym, ◌∙◌, Float, All, Bool, true,
  false, ◌&&◌, not, Option, none, some, List, [], ◌∷◌, arith, Text, codes, ◌==◌, ltb, text_eq,
  text_eq_iff, text_eq_refl, ok, exists_where, find_where, max_int64, Bool-cases,
}
use ambagrid.Edge.Fallback.Message.{
  battery_overheat, inverter_failure, tamper_detected, site_outage, site_asset, has_value, bool_ne,
}
use ambagrid.Api.Sms.CriticalTrip.{bool_ne_self}
use mathlib.Core.Path.{subst}
use ambagrid.Api.Sms.Parse.{CriticalFallbackEvent, SmsReceipt, critical_code_valid}
use ambagrid.Api.Database.{no_faults, Db, Asset, Alert, FallbackRow}
use ambagrid.Api.Fallback.Details.{
  event_key, new_event_key, alert_details, matches_asset, overheat_reason,
}
use ambagrid.Api.Fallback.Queries.{
  event_at_key, find_fallback_event, from_source, open_for, same_number, receipt_at, asset_at,
  alert_refused, alert_clashes, insert_fallback_event, event_refused, add_event, add_alert,
  add_outbox, new_alert,
}
use ambagrid.Api.Fallback.Receive.{
  FallbackService, outbox_row, fallback_row, receive_new, receive_body, receive_sms, check_asset,
  ensure_alert,
}
use ambagrid.Api.Fallback.Integrity.{Linked, Keyed}
use ambagrid.Api.Fallback.Repeats.{record_receipt-own}

-- What `Parse` promises of an event.
pub record Parsed (e : CriticalFallbackEvent) : Type 0 where
  pub known_code : critical_code_valid e.code ≡ true
  pub heated : has_value e.temperature_c ≡ text_eq e.code battery_overheat
  pub outage : text_eq e.code site_outage ≡ text_eq e.asset_id site_asset

-- The asset of the event stands at its site with a type that the code is about.
abbrev pub AssetFits : CriticalFallbackEvent → Db → Type 0
AssetFits e db =
    (text_eq e.asset_id site_asset ≡ true)
    ⊎ ((a : Asset) × (find_where (asset_at e.asset_id e.site_id) db.assets ≡ some a)
        × (matches_asset e.code a.asset_type ≡ true))

-- The kind of the alert of a code.
abbrev pub OutageKind : CriticalFallbackEvent → Text → Type 0
OutageKind e kind = text_eq kind (codes "site_outage") ≡ text_eq e.code site_outage

abbrev Detailed : CriticalFallbackEvent → Type 0
Detailed e =
    (kind : Text) × (reason : Text) × (alert_details e ≡ ok (kind, reason)) × OutageKind e kind

hot_details :
    (e : CriticalFallbackEvent) (t : Option Float)
    → e.temperature_c ≡ t
    → has_value t ≡ true
    → text_eq e.code battery_overheat ≡ true
    → Detailed e
unfolding alert_details text_eq
hot_details e none q given hot = absurd (ground arith)
hot_details e (some x) q given hot =
    let cold : text_eq e.code site_outage ≡ false =
      subst (λ c. text_eq c site_outage ≡ false) (sym ((text_eq_iff e.code battery_overheat).0 hot))
        refl in
    (codes "battery_overheat", overheat_reason x, rw (hot, q) refl, sym cold)

alert_details_given : (e : CriticalFallbackEvent) → Parsed e → Detailed e
unfolding alert_details critical_code_valid text_eq
alert_details_given e v = elim (Bool-cases (text_eq e.code battery_overheat)) [
  | inl hot ↦ hot_details e e.temperature_c refl (v.heated ∙ hot) hot
  | inr no_heat ↦ elim (Bool-cases (text_eq e.code inverter_failure)) [
    | inl failed ↦
        let other : text_eq e.code site_outage ≡ false =
          (subst (λ c. text_eq c site_outage ≡ false)
            (sym ((text_eq_iff e.code inverter_failure).0 failed)) refl) in
        (
          codes "inverter_failure",
          codes "Inverter reported a critical failure",
          rw (no_heat, failed) refl,
          sym other,
        )
    | inr runs ↦ elim (Bool-cases (text_eq e.code tamper_detected)) [
      | inl opened ↦
          let other : text_eq e.code site_outage ≡ false =
            (subst (λ c. text_eq c site_outage ≡ false)
              (sym ((text_eq_iff e.code tamper_detected).0 opened)) refl) in
          (
            codes "tamper_detected",
            codes "Asset tamper alarm triggered",
            rw (no_heat, runs, opened) refl,
            sym other,
          )
      | inr shut ↦
          let out : text_eq e.code site_outage ≡ true = ground (arith, v.known_code) in
          (
            codes "site_outage",
            codes "Full-site outage detected",
            rw (no_heat, runs, shut, out) refl,
            sym out,
          )
    ]
  ]
]

check_asset_passes :
    (e : CriticalFallbackEvent) (db : Db) → AssetFits e db → check_asset no_faults e db ≡ ok tt
unfolding check_asset
check_asset_passes e db (inl site) = rw site refl
check_asset_passes e db (inr (a, found, fits)) = elim (Bool-cases (text_eq e.asset_id site_asset)) [
  | inl site ↦ rw site refl
  | inr other ↦ rw (other, found, fits) refl
]

-- No alert is there for the event: neither its own nor an open one of its kind.
abbrev pub is_new : CriticalFallbackEvent → Text → Db → Bool
is_new e kind db =
    not (exists_where (from_source (event_key e)) db.alerts)
    && not (exists_where (open_for e.site_id e.asset_id kind) db.alerts)

-- The tables that an alert leaves alone.
abbrev SameEvents : Db → Db → Type 0
SameEvents db db' =
    (db'.fallback_events ≡ db.fallback_events)
    × (db'.sites ≡ db.sites)
    × (db'.fallback_receipts ≡ db.fallback_receipts)

abbrev Ensured : FallbackService → CriticalFallbackEvent → Text → Text → Db → Type 0
Ensured s e kind reason db =
    (id : ℕ) × (mid : Db) × (ensure_alert s no_faults e (kind, reason) db
      ≡ ok (id, is_new e kind db, mid))
    × SameEvents db mid

module _ (s : FallbackService) (e : CriticalFallbackEvent) (kind reason : Text) (db : Db)
    (legal : alert_refused (new_alert e (event_key e) kind reason db) db ≡ false) where
  ensure_alert_succeeds :
      (own other : Option Alert)
      → find_where (from_source (event_key e)) db.alerts ≡ own
      → find_where (open_for e.site_id e.asset_id kind) db.alerts ≡ other
      → Ensured s e kind reason db
  unfolding ensure_alert alert_clashes new_alert add_alert add_outbox
  ensure_alert_succeeds (some a) other q k =
      let there = find-exists (from_source (event_key e)) db.alerts a q in
      (a.alert_id, db, rw (q, there) refl, (refl, refl, refl))
  ensure_alert_succeeds none (some a) q k =
      let absent = find_none-exists (from_source (event_key e)) db.alerts q in
      let there = find-exists (open_for e.site_id e.asset_id kind) db.alerts a k in
      (a.alert_id, db, rw (q, k, absent, there) refl, (refl, refl, refl))
  ensure_alert_succeeds none none q k =
      let absent = find_none-exists (from_source (event_key e)) db.alerts q in
      let missing = find_none-exists (open_for e.site_id e.asset_id kind) db.alerts k in
      (
        db.next_alert,
        add_outbox (outbox_row s e reason db.next_alert)
            (add_alert (new_alert e (event_key e) kind reason db) db),
        rw (q, k, absent, missing, legal) refl,
        (refl, refl, refl),
      )

key_differs :
    (e : CriticalFallbackEvent) (r : FallbackRow)
    → Keyed r
    → text_eq r.event_key (event_key e) ≡ false
    → (text_eq e.site_id r.site_id && e.sequence == r.sequence) ≡ false
unfolding event_key
key_differs e r k h =
    ground
      (arith, text_eq_iff e.site_id r.site_id, text_eq_refl (new_event_key e.site_id e.sequence), k)

no_same_number :
    (e : CriticalFallbackEvent) (id : ℕ) (rows : List FallbackRow)
    → All Keyed rows
    → exists_where (event_at_key (event_key e)) rows ≡ false
    → exists_where (same_number (fallback_row e id)) rows ≡ false
unfolding exists_where fallback_row event_key
no_same_number e id [] k h = refl
no_same_number e id (r ∷ rows) k h =
    let other : text_eq r.event_key (event_key e) ≡ false = ground arith in
    ground (arith, no_same_number e id rows k.1, key_differs e r k.0 other)

-- The tables of the event are ready for it: its site is there, and its key is not.
pub record Ready (e : CriticalFallbackEvent) (db : Db) : Type 0 where
  pub parsed : Parsed e
  pub numbered : (e.sequence == 0) ≡ false
  pub fits : ltb max_int64 e.sequence ≡ false
  pub site_known : exists_where (λ s. text_eq s e.site_id) db.sites ≡ true
  pub asset_fits : AssetFits e db
  pub unknown : find_where (event_at_key (event_key e)) db.fallback_events ≡ none

event_accepted :
    (e : CriticalFallbackEvent) (id : ℕ) (db mid : Db)
    → Ready e db
    → Linked db
    → SameEvents db mid
    → event_refused (fallback_row e id) mid ≡ false
unfolding event_refused fallback_row
event_accepted e id db mid v linked (events, sites, _) =
    let absent = find_none-exists (event_at_key (event_key e)) db.fallback_events v.unknown in
    let number : exists_where (same_number (fallback_row e id)) db.fallback_events ≡ false =
      no_same_number e id db.fallback_events linked.keyed absent in
    rw (events, sites, absent, number, v.site_known, v.parsed.known_code, v.numbered, v.fits) refl

insert_fallback_event_passes :
    (r : FallbackRow) (db : Db)
    → event_refused r db ≡ false
    → insert_fallback_event false r db ≡ ok (add_event r db)
unfolding insert_fallback_event
insert_fallback_event_passes r db h = rw h refl

asset_stands :
    (asset site : Text) (assets : List Asset) (a : Asset)
    → find_where (asset_at asset site) assets ≡ some a
    → exists_where (λ x. text_eq x.asset_id asset) assets ≡ true
unfolding find_where exists_where
asset_stands asset site [] a h = absurd (ground arith)
asset_stands asset site (x ∷ xs) a h = ground (arith, asset_stands asset site xs a)

alert_legal :
    (e : CriticalFallbackEvent) (kind reason : Text) (db : Db)
    → Ready e db
    → OutageKind e kind
    → alert_refused (new_alert e (event_key e) kind reason db) db ≡ false
unfolding alert_refused new_alert
alert_legal e kind reason db v outage = asset_legal v.asset_fits
  where
    scope : bool_ne (text_eq kind (codes "site_outage")) (text_eq e.asset_id site_asset) ≡ false
    scope = rw (outage, v.parsed.outage, bool_ne_self) refl

    asset_legal :
        AssetFits e db → alert_refused (new_alert e (event_key e) kind reason db) db ≡ false
    asset_legal (inl site) = rw (v.site_known, scope, site) refl
    asset_legal (inr (a, found, fits)) =
        rw (v.site_known, scope, asset_stands e.asset_id e.site_id db.assets a found) (ground arith)

-- An SMS of a new event whose site, asset and code fit the tables is taken, if no statement fails:
-- the answer tells whether its alert is new, which it is if the event has none of its own and no
-- open one of its kind stands. The tables are linked as every SMS leaves them, and the message is
-- new.
pub receive_sms_accepts :
    (s : FallbackService) (e : CriticalFallbackEvent) (receipt : SmsReceipt) (db : Db)
    → Ready e db
    → Linked db
    → exists_where (receipt_at receipt.provider_message_id) db.fallback_receipts ≡ false
    → (kind : Text) × (reason : Text) × (alert_details e ≡ ok (kind, reason))
      × ((receive_sms s no_faults e receipt db).1 ≡ ok (is_new e kind db))
unfolding receive_sms receive_body receive_new find_fallback_event
receive_sms_accepts s e receipt db v linked fresh =
    let (kind, reason, details, outage) = alert_details_given e v.parsed in
    let legal = alert_legal e kind reason db v outage in
    let (id, mid, alerted, same) = ensure_alert_succeeds s e kind reason db legal _ _ refl refl in
    let inserted =
      insert_fallback_event_passes (fallback_row e id) mid
        (event_accepted e id db mid v linked same) in
    let own : exists_where (receipt_at receipt.provider_message_id)
          (add_event (fallback_row e id) mid).fallback_receipts
        ≡ false =
      unfold add_event in rw (same.2) fresh in
    (
      kind,
      reason,
      details,
      rw
          (
            v.unknown,
            check_asset_passes e db v.asset_fits,
            details,
            alerted,
            inserted,
            record_receipt-own s (event_key e) receipt (add_event (fallback_row e id) mid)
                (inl own),
          )
          refl,
    )
