-- ===== src/Api/Alerts/Resolve.antt =====
-- `AlertService.Resolve` of services/alerts.go and `ResolveAlert` of repository/postgres/alerts.go.
use ambagrid.Common.{
  ℕ, suc, ◌/◌, Bool, ◌&&◌, ◌||◌, Option, none, some, List, [], ◌∷◌, ◌++◌, Text, codes, ◌==◌,
  if◌then◌else◌, text_eq, is_empty, trim_space, Result, ok, err, ◌>>=◌, ◌>>◌, refuse_if, in_tx,
  second, find_where, exists_where, update_where,
}
use ambagrid.Api.Database.{
  ApiError, conflict, invalid_id, invalid_data, invalid_request, not_found, Faults, statement,
}
use ambagrid.Api.Alerts.Listing

-- A row of alert_resolution_history; the database draws its ID.
pub record AlertResolution : Type 0 where
  pub resolution_id : ℕ
  pub alert_id : ℕ
  pub resolved_at : ℕ
  pub resolution_note : Text
  pub resolved_by : Text

-- A row of command_event_outbox: the fields of its JSON payload behind its columns. The times are Unix
-- seconds.
pub record ResolvedEvent : Type 0 where
  pub topic : Text
  pub event_type : Text
  pub aggregate_type : Text
  pub aggregate_id : ℕ
  pub asset_id : Text
  pub site_id : Text
  pub severity : Text
  pub reason : Text
  pub opened_at_utc : ℕ
  pub resolved_at_utc : ℕ
  pub resolution_note : Text
  pub resolved_by : Text

-- `next_resolution` is an ID that no row has yet.
pub record AlertDb : Type 0 where
  pub alerts : List Listing.Alert
  pub history : List AlertResolution
  pub next_resolution : ℕ
  pub outbox : List ResolvedEvent

pub record ResolveAlertCommand : Type 0 where
  pub alert_id : ℕ
  pub resolution_note : Text
  pub resolved_by : Text

pub record ResolveAlertRequest : Type 0 where
  pub resolution_note : Text
  pub resolved_by : Text

-- `ValidateActorID`.
unfoldable pub validate_actor_id : Text → Result ApiError Text
validate_actor_id value =
    let trimmed = trim_space value in
    if is_empty trimmed || text_eq trimmed (codes "system") then err invalid_id else ok trimmed

abbrev pub has_id : ℕ → Listing.Alert → Bool
has_id id a = a.alert_id == id

-- The condition of `resolveAlertSQL`.
abbrev pub open_with_id : ℕ → Listing.Alert → Bool
open_with_id id a = has_id id a && Listing.is_open a.status

abbrev pub resolved_row : ℕ → ResolveAlertCommand → Listing.Alert → Listing.Alert
resolved_row now c a = record a {
  status = Listing.alert_resolved;
  resolved_at = some now;
  resolution_note = some c.resolution_note;
  resolved_by = some c.resolved_by;
}

abbrev pub proto_severity : Listing.Severity → Text
proto_severity Listing.info = codes "SEVERITY_INFO"
proto_severity Listing.warning = codes "SEVERITY_WARNING"
proto_severity Listing.critical = codes "SEVERITY_CRITICAL"

abbrev pub present {ℓ} : {A : Type ℓ} → Option A → Result ApiError A
present none = err invalid_data
present (some x) = ok x

-- `alertResolvedPayload` in the row of `insertAlertResolvedEvent`.
unfoldable pub resolved_event : Text → Listing.Alert → Result ApiError ResolvedEvent
resolved_event topic a = do
  resolved_at ← present a.resolved_at
  note ← present a.resolution_note
  actor ← present a.resolved_by
  ok (record {
    topic = topic;
    event_type = codes "alert.resolved";
    aggregate_type = codes "alert";
    aggregate_id = a.alert_id;
    asset_id = a.asset_id;
    site_id = a.site_id;
    severity = proto_severity a.severity;
    reason = a.reason;
    opened_at_utc = a.opened_at / second;
    resolved_at_utc = resolved_at / second;
    resolution_note = note;
    resolved_by = actor;
  })

unfoldable pub insert_alert_resolution :
    Bool → ℕ → ResolveAlertCommand → AlertDb → Result ApiError AlertDb
insert_alert_resolution fails now c db = do
  statement fails
  ok (record db {
    history =
        db.history
        ++ record {
          resolution_id = db.next_resolution;
          alert_id = c.alert_id;
          resolved_at = now;
          resolution_note = c.resolution_note;
          resolved_by = c.resolved_by;
        }
          ∷ [];
    next_resolution = suc db.next_resolution;
  })

unfoldable pub insert_resolved_event :
    Bool → Text → Listing.Alert → AlertDb → Result ApiError AlertDb
unfolding resolved_event
insert_resolved_event fails topic a db = do
  e ← resolved_event topic a
  statement fails
  ok (record db { outbox = db.outbox ++ e ∷ [] })

-- No row was updated: either there is none, or it is not open.
unfoldable pub not_resolved : Bool → ℕ → AlertDb → Result ApiError (Listing.Alert × AlertDb)
not_resolved fails id db = do
  statement fails
  if exists_where (has_id id) db.alerts then err conflict else err not_found

unfoldable pub record_resolution :
    Text
    → Faults
    → ℕ
    → ResolveAlertCommand
    → Listing.Alert
    → AlertDb
    → Result ApiError (Listing.Alert × AlertDb)
unfolding insert_alert_resolution insert_resolved_event
record_resolution topic f now c a db = do
  db' ← insert_alert_resolution (f 2) now c db
  db'' ← insert_resolved_event (f 3) topic a db'
  statement (f 4)
  ok (a, db'')

-- `UPDATE … RETURNING`, and what follows it.
unfoldable pub resolve_found :
    Text
    → Faults
    → ℕ
    → ResolveAlertCommand
    → Option Listing.Alert
    → AlertDb
    → Result ApiError (Listing.Alert × AlertDb)
unfolding not_resolved record_resolution
resolve_found topic f now c none db = not_resolved (f 2) c.alert_id db
resolve_found topic f now c (some a) db =
    record_resolution topic f now c (resolved_row now c a)
      (record db { alerts = update_where (open_with_id c.alert_id) (resolved_row now c) db.alerts })

-- `Store.ResolveAlert` at the time `now`.
unfoldable pub resolve_alert :
    Text → Faults → ℕ → ResolveAlertCommand → AlertDb → AlertDb × Result ApiError Listing.Alert
unfolding resolve_found
resolve_alert topic f now c db = in_tx db (do
  statement (f 0)
  statement (f 1)
  resolve_found topic f now c (find_where (open_with_id c.alert_id) db.alerts) db)

-- The checks of `AlertService.Resolve`, of an ID that is the text of a UUID or not.
unfoldable pub resolve_command :
    Option ℕ → ResolveAlertRequest → Result ApiError ResolveAlertCommand
unfolding validate_actor_id
resolve_command none request = err invalid_id
resolve_command (some id) request = do
  refuse_if (is_empty (trim_space request.resolution_note)) invalid_request
  actor ← validate_actor_id request.resolved_by
  ok (record {
    alert_id = id;
    resolution_note = trim_space request.resolution_note;
    resolved_by = actor;
  })

abbrev resolve_checked :
    Text
    → Faults
    → ℕ
    → Result ApiError ResolveAlertCommand
    → AlertDb
    → AlertDb × Result ApiError Listing.Alert
resolve_checked topic f now (err e) db = (db, err e)
resolve_checked topic f now (ok c) db = resolve_alert topic f now c db

-- `AlertService.Resolve`.
unfoldable pub resolve :
    Text
    → Faults
    → ℕ
    → Option ℕ
    → ResolveAlertRequest
    → AlertDb
    → AlertDb × Result ApiError Listing.Alert
unfolding resolve_command resolve_alert
resolve topic f now id request db = resolve_checked topic f now (resolve_command id request) db
