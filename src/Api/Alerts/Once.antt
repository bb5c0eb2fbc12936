-- ===== src/Api/Alerts/Once.antt =====
-- An alert is resolved once.
use ambagrid.Common.{
  ℕ, suc, ◌≡◌, refl, inl, inr, Bool, true, false, Option, none, some, List, [], ◌∷◌, ◌++◌, arith,
  Text, codes, ◌==◌, Result, ok, err, ◌>>◌, in_tx-eq-ok, find_where, exists_where, update_where,
  Bool-cases, subst, sym, ok-injective, second, ◌/◌,
}
use ambagrid.Api.Database.{ApiError, conflict, Faults, no_faults, statement}
use ambagrid.Api.Alerts.Listing
use ambagrid.Api.Alerts.Resolve

module _ (id now : ℕ) (c : Resolve.ResolveAlertCommand) where
  -- Once its rows are updated, no row of the alert is open.
  update_where-closed :
      (xs : List Listing.Alert)
      → find_where
          (Resolve.open_with_id id)
          (update_where (Resolve.open_with_id id) (Resolve.resolved_row now c) xs)
        ≡ none
  unfolding find_where update_where
  update_where-closed [] = refl
  update_where-closed (x ∷ xs) = elim (Bool-cases (Resolve.open_with_id id x)) [
    | inl is_open ↦ rw is_open (elim (Bool-cases (x.alert_id == id)) [
      | inl same ↦ rw same (update_where-closed xs)
      | inr other ↦ rw other (update_where-closed xs)
    ])
    | inr closed ↦ rw (closed, closed) (update_where-closed xs)
  ]

  -- The alert that was found stands in the table still.
  update_where-exists :
      (xs : List Listing.Alert) {a : Listing.Alert}
      → find_where (Resolve.open_with_id id) xs ≡ some a
      → exists_where
          (Resolve.has_id id)
          (update_where (Resolve.open_with_id id) (Resolve.resolved_row now c) xs)
        ≡ true
  unfolding find_where update_where exists_where
  update_where-exists [] h = absurd (ground arith)
  update_where-exists (x ∷ xs) h = elim (Bool-cases (Resolve.open_with_id id x)) [
    | inl is_open ↦ let same : (x.alert_id == id) ≡ true = ground arith in rw (is_open, same) refl
    | inr closed ↦
        let rest = update_where-exists xs (rw closed at h) in rw (closed, rest) (ground arith)
  ]

-- A resolution that succeeds: the alert was open, the answer is its row with the trimmed note and actor,
-- one row of the history and one event tell it, and no row of the alert is open any longer.
pub record Resolved (topic : Text) (now id : ℕ) (c : Resolve.ResolveAlertCommand)
    (db : Resolve.AlertDb) (a : Listing.Alert) (db' : Resolve.AlertDb) : Type 0 where
  pub before : Listing.Alert
  pub was_open : find_where (Resolve.open_with_id id) db.alerts ≡ some before
  pub answer : a ≡ Resolve.resolved_row now c before
  pub entry : Resolve.AlertResolution
  pub entry_alert : entry.alert_id ≡ id
  pub entry_time : some entry.resolved_at ≡ a.resolved_at
  pub entry_note : some entry.resolution_note ≡ a.resolution_note
  pub entry_actor : some entry.resolved_by ≡ a.resolved_by
  pub history : db'.history ≡ db.history ++ entry ∷ []
  pub event : Resolve.ResolvedEvent
  pub told : Resolve.resolved_event topic a ≡ ok event
  pub outbox : db'.outbox ≡ db.outbox ++ event ∷ []
  pub closed : find_where (Resolve.open_with_id id) db'.alerts ≡ none
  pub kept : exists_where (Resolve.has_id id) db'.alerts ≡ true

statement_passed {ℓ} :
    {A : Type ℓ} (fails : Bool) (m : Result ApiError A) {x : A}
    → (statement fails >> m) ≡ ok x
    → m ≡ ok x
statement_passed true m h = absurd (ground arith)
statement_passed false m h = h

module _ (topic : Text) (f : Faults) (now : ℕ) (c : Resolve.ResolveAlertCommand) where
  abbrev entry_of : Resolve.AlertDb → Resolve.AlertResolution
  entry_of db = record {
    resolution_id = db.next_resolution;
    alert_id = c.alert_id;
    resolved_at = now;
    resolution_note = c.resolution_note;
    resolved_by = c.resolved_by;
  }

  abbrev event_of : Listing.Alert → Resolve.ResolvedEvent
  event_of a = record {
    topic = topic;
    event_type = codes "alert.resolved";
    aggregate_type = codes "alert";
    aggregate_id = a.alert_id;
    asset_id = a.asset_id;
    site_id = a.site_id;
    severity = Resolve.proto_severity a.severity;
    reason = a.reason;
    opened_at_utc = a.opened_at / second;
    resolved_at_utc = now / second;
    resolution_note = c.resolution_note;
    resolved_by = c.resolved_by;
  }

  abbrev db_after : Resolve.AlertDb → Listing.Alert → Resolve.AlertDb
  db_after db before = record {
    alerts = update_where (Resolve.open_with_id c.alert_id) (Resolve.resolved_row now c) db.alerts;
    history = db.history ++ entry_of db ∷ [];
    next_resolution = suc db.next_resolution;
    outbox = db.outbox ++ event_of before ∷ [];
  }

  resolve_found-db_after :
      (db : Resolve.AlertDb) (before : Listing.Alert) {a : Listing.Alert} {db' : Resolve.AlertDb}
      → Resolve.resolve_found topic f now c (some before) db ≡ ok (a, db')
      → ◌≡◌ {A = Listing.Alert × Resolve.AlertDb}
          (Resolve.resolved_row now c before, db_after db before)
          (a, db')
  unfolding Resolve.resolve_found Resolve.record_resolution Resolve.insert_alert_resolution
      Resolve.insert_resolved_event Resolve.resolved_event
  resolve_found-db_after db before h = elim (Bool-cases (f 2)) [
    | inl failed ↦ absurd (ground (arith, rw failed at h))
    | inr stored ↦ elim (Bool-cases (f 3)) [
      | inl failed ↦ absurd (ground (arith, rw (stored, failed) at h))
      | inr published ↦ elim (Bool-cases (f 4)) [
        | inl failed ↦ absurd (ground (arith, rw (stored, published, failed) at h))
        | inr committed ↦ ok-injective (rw (stored, published, committed) at h)
      ]
    ]
  ]

  resolve_found-Resolved :
      (db : Resolve.AlertDb) (found : Option Listing.Alert) {a : Listing.Alert}
      {db' : Resolve.AlertDb}
      → find_where (Resolve.open_with_id c.alert_id) db.alerts ≡ found
      → Resolve.resolve_found topic f now c found db ≡ ok (a, db')
      → Resolved topic now c.alert_id c db a db'
  unfolding Resolve.resolve_found Resolve.not_resolved Resolve.resolved_event
  resolve_found-Resolved db none looked h = absurd (ground arith)
  resolve_found-Resolved db (some before) looked h =
      subst (λ p. Resolved topic now c.alert_id c db p.0 p.1) (resolve_found-db_after db before h)
        (record {
          before = before;
          was_open = looked;
          answer = refl;
          entry = entry_of db;
          entry_alert = refl;
          entry_time = refl;
          entry_note = refl;
          entry_actor = refl;
          history = refl;
          event = event_of before;
          told = refl;
          outbox = refl;
          closed = update_where-closed c.alert_id now c db.alerts;
          kept = update_where-exists c.alert_id now c db.alerts looked;
        })

  resolve_alert-Resolved :
      (db : Resolve.AlertDb) {a : Listing.Alert}
      → (Resolve.resolve_alert topic f now c db).1 ≡ ok a
      → Resolved topic now c.alert_id c db a (Resolve.resolve_alert topic f now c db).0
  unfolding Resolve.resolve_alert
  resolve_alert-Resolved db h =
      let whole = in_tx-eq-ok db _ h in
      resolve_found-Resolved db _ refl (statement_passed (f 1) _ (statement_passed (f 0) _ whole))

  resolve_alert-conflict :
      (db : Resolve.AlertDb)
      → find_where (Resolve.open_with_id c.alert_id) db.alerts ≡ none
      → exists_where (Resolve.has_id c.alert_id) db.alerts ≡ true
      → Resolve.resolve_alert topic no_faults now c db ≡ (db, err conflict)
  unfolding Resolve.resolve_alert Resolve.resolve_found Resolve.not_resolved
  resolve_alert-conflict db closed kept = rw (closed, kept) refl

resolve_command_id :
    (id : ℕ) (request : Resolve.ResolveAlertRequest) {c : Resolve.ResolveAlertCommand}
    → Resolve.resolve_command (some id) request ≡ ok c
    → c.alert_id ≡ id
unfolding Resolve.resolve_command
resolve_command_id id request h = ground arith

module _ (topic : Text) (f : Faults) (now id : ℕ) (request : Resolve.ResolveAlertRequest)
    (db : Resolve.AlertDb) where
  abbrev once : Resolve.AlertDb × Result ApiError Listing.Alert
  once = Resolve.resolve topic f now (some id) request db

  resolve-Resolved :
      (checked : Result ApiError Resolve.ResolveAlertCommand) {a : Listing.Alert}
      → Resolve.resolve_command (some id) request ≡ checked
      → once.1 ≡ ok a
      → (c : Resolve.ResolveAlertCommand) × (checked ≡ ok c) × Resolved topic now id c db a once.0
  unfolding Resolve.resolve
  resolve-Resolved (err e) read h = absurd (ground (arith, rw read at h))
  resolve-Resolved (ok c) {a} read h =
      let same = resolve_command_id id request read in
      (
        c,
        refl,
        rw read (
            subst (λ n. Resolved topic now n c db a (Resolve.resolve_alert topic f now c db).0) same
              (resolve_alert-Resolved topic f now c db (rw read at h))),
      )

  -- A resolution that succeeds has found the alert open, answers with its row and the trimmed note and
  -- actor, and adds one row of the history and one event that tell it. A second resolution of the alert
  -- is a conflict and changes nothing, if its request passes the checks and no statement fails.
  pub resolve-once :
      (later : ℕ) (again : Resolve.ResolveAlertRequest) {a : Listing.Alert}
      {c' : Resolve.ResolveAlertCommand}
      → once.1 ≡ ok a
      → Resolve.resolve_command (some id) again ≡ ok c'
      → ((c : Resolve.ResolveAlertCommand) × (Resolve.resolve_command (some id) request ≡ ok c)
          × Resolved topic now id c db a once.0)
        × (Resolve.resolve topic no_faults later (some id) again once.0 ≡ (once.0, err conflict))
  unfolding Resolve.resolve
  resolve-once later again {a} {c'} h read =
      let (c, read_first, r) = resolve-Resolved _ refl h in
      let same = sym (resolve_command_id id again read) in
      let second_time =
        resolve_alert-conflict topic no_faults later c' once.0
          (subst (λ n. find_where (Resolve.open_with_id n) once.0.alerts ≡ none) same r.closed)
          (subst (λ n. exists_where (Resolve.has_id n) once.0.alerts ≡ true) same r.kept) in
      ((c, read_first, r), rw read second_time)
