-- ===== src/Edge/Store/Incidents.antt =====
-- repository/sqlite/fallback.go: critical incidents, SMS attempts and debounce conditions.
use ambagrid.Common.{
  ℕ, map, ◌*◌, ◌+◌, ◌-◌, Bool, true, false, ◌&&◌, ◌||◌, not, Option, none, some, List, [], ◌∷◌,
  ◌++◌, Text, Float, ltb, leb, ◌==◌, if◌then◌else◌, text_eq, Result, ok, ◌>>=◌, ◌>>◌, in_tx, to_ms,
  from_ms, hour, update_where, select_where, count_where, exists_where,
}
use mathlib.Core.Option
use ambagrid.Edge.Errors.{Error, Faults, answer}
use ambagrid.Edge.Store.Schema.{Db, Incident, Attempt, event_key}
use ambagrid.Edge.Store.Completion.{contact_success, contact_failure}
use ambagrid.Edge.Fallback.Message.{FallbackEvent, Candidate, format}

abbrev pub is_null {ℓ} : {A : Type ℓ} → Option A → Bool
is_null none = true
is_null (some a) = false

-- Two incidents that no table of the schema holds at once: the same key, the same sequence, or
-- both unresolved for one asset and code.
unfoldable pub clashes : Incident → Incident → Bool
clashes a b =
    text_eq a.event_key b.event_key
    || (a.sequence == b.sequence
        || (is_null a.resolved_at_ms
            && (is_null b.resolved_at_ms
                && (text_eq a.asset_id b.asset_id && text_eq a.code b.code))))

-- INSERT OR IGNORE INTO fallback_incidents.
unfoldable pub insert_incident : Incident → List Incident → List Incident
unfolding clashes
insert_incident i rows = if exists_where (clashes i) rows then rows else rows ++ i ∷ []

-- The row of a new incident: the columns with defaults are unset.
unfoldable pub new_incident : Text → ℕ → Text → Text → Text → Option Float → ℕ → ℕ → Incident
new_incident key sequence site asset code temperature event_ms opened_ms = record {
  event_key = key;
  sequence = sequence;
  site_id = site;
  asset_id = asset;
  code = code;
  temperature_c = temperature;
  event_at_ms = event_ms;
  opened_at_ms = opened_ms;
  resolved_at_ms = none;
  normal_delivered_at_ms = none;
  sms_sent_at_ms = none;
  upload_failures = 0;
  sms_attempt_count = 0;
  next_sms_attempt_at_ms = none;
  last_error = none;
}

unfoldable pub open_incident_row : FallbackEvent → ℕ → Incident
unfolding new_incident
open_incident_row e opened_at =
    new_incident (event_key e.site_id e.sequence) e.sequence e.site_id e.asset_id e.code
      e.temperature_c (to_ms e.occurred_at) (to_ms opened_at)

-- The incident opens only if no row of the table clashes; the answer tells which.
unfoldable pub open_fallback_incident : Faults → FallbackEvent → ℕ → Db → Db × Result Error Bool
open_fallback_incident f e opened_at db = in_tx db (do
  text ← format e
  answer (f 0)
  let i = open_incident_row e opened_at
  ok (
    not (exists_where (clashes i) db.incidents),
    record db { incidents = insert_incident i db.incidents },
  ))

unfoldable pub open_for : Text → Text → Incident → Bool
open_for asset code i =
    text_eq i.asset_id asset && (text_eq i.code code && is_null i.resolved_at_ms)

unfoldable pub resolve_fallback_incident :
    Faults → Text → Text → ℕ → Db → Db × Result Error (Unit {0})
unfolding open_for
resolve_fallback_incident f asset code at db = in_tx db (do
  answer (f 0)
  ok (
    tt,
    record db {
      incidents =
          update_where (open_for asset code) (λ i. record i { resolved_at_ms = some (to_ms at) })
            db.incidents;
    },
  ))

unfoldable pub record_fallback_upload_failure : Faults → ℕ → Db → Db × Result Error (Unit {0})
record_fallback_upload_failure f n db = in_tx db (do
  answer (f 0)
  ok (
    tt,
    record db {
      incidents =
          update_where
            (λ i. i.sequence == n && (is_null i.resolved_at_ms && is_null i.normal_delivered_at_ms))
            (λ i. record i { upload_failures = i.upload_failures + 1 }) db.incidents;
    },
  ))

unfoldable pub record_upload_contact_failure : Faults → Text → Db → Db × Result Error (Unit {0})
record_upload_contact_failure f cause db =
    in_tx db (do answer (f 0); ok (tt, contact_failure cause db))

unfoldable pub record_upload_contact_success : Faults → ℕ → Db → Db × Result Error (Unit {0})
record_upload_contact_success f at db = in_tx db (do answer (f 0); ok (tt, contact_success at db))

-- Unresolved, not delivered by upload and not yet sent by SMS.
unfoldable pub undelivered : Incident → Bool
undelivered i =
    is_null i.resolved_at_ms && (is_null i.normal_delivered_at_ms && is_null i.sms_sent_at_ms)

-- SELECT COUNT(*) FROM fallback_attempts WHERE attempted_at_ms >= ?.
unfoldable pub attempts_since : ℕ → List Attempt → ℕ
attempts_since from_ms attempts = count_where (λ a. leb from_ms a.attempted_at_ms) attempts

unfoldable pub attempts_of : Text → List Attempt → ℕ
attempts_of key attempts = count_where (λ a. text_eq a.event_key key) attempts

-- ORDER BY opened_at_ms, sequence.
unfoldable pub opened_before : Incident → Incident → Bool
opened_before a b =
    ltb a.opened_at_ms b.opened_at_ms
    || (a.opened_at_ms == b.opened_at_ms && leb a.sequence b.sequence)

unfoldable pub insert_ordered : Incident → List Incident → List Incident
unfolding opened_before
insert_ordered i [] = i ∷ []
insert_ordered i (j ∷ js) = if opened_before i j then i ∷ j ∷ js else j ∷ insert_ordered i js

unfoldable pub in_order : List Incident → List Incident
unfolding insert_ordered
in_order [] = []
in_order (i ∷ is) = insert_ordered i (in_order is)

unfoldable pub to_candidate : ℕ → Db → Incident → Candidate
unfolding attempts_since attempts_of
to_candidate now db i = record {
  event = record {
    site_id = i.site_id;
    asset_id = i.asset_id;
    sequence = i.sequence;
    code = i.code;
    temperature_c = i.temperature_c;
    occurred_at = from_ms i.event_at_ms;
  };
  opened_at = from_ms i.opened_at_ms;
  upload_failures = i.upload_failures;
  last_upload_success = Option.map from_ms db.sync.last_upload_success_at_ms;
  attempts = attempts_of i.event_key db.attempts;
  attempts_last_hour = attempts_since (to_ms (now - hour)) db.attempts;
  attempts_last_day = attempts_since (to_ms (now - 24 * hour)) db.attempts;
  next_attempt_at = Option.map from_ms i.next_sms_attempt_at_ms;
}

unfoldable pub fallback_candidates : Faults → ℕ → Db → Result Error (List Candidate)
unfolding undelivered in_order to_candidate
fallback_candidates f now db = do
  answer (f 0)
  ok (map (to_candidate now db) (in_order (select_where undelivered db.incidents)))
