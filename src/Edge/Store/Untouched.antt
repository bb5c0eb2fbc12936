-- ===== src/Edge/Store/Untouched.antt =====
-- The calls that leave the queue table alone.
use ambagrid.Common.{ℕ, ◌≡◌, true, Text, arith}
use ambagrid.Edge.Errors.{Faults}
use ambagrid.Edge.Store.Schema.{Db, replay_pending}
use ambagrid.Edge.Store.Incidents.{
  open_fallback_incident, resolve_fallback_incident, record_fallback_upload_failure,
  record_upload_contact_failure, record_upload_contact_success,
}
use ambagrid.Edge.Store.SmsAttempts.{reserve_fallback_attempt, record_fallback_attempt}
use ambagrid.Edge.Store.Debounces.{save_debounce_condition, delete_debounce_condition}
use ambagrid.Edge.Store.Heartbeats.{reserve_heartbeat, record_heartbeat}
use ambagrid.Edge.Fallback.Message.{FallbackEvent, AttemptResult}
use ambagrid.Edge.Store.Completion.{contact_success, contact_failure}

-- The queue is as it was, and replay mode is not lifted while a row waits to be replayed.
pub record Untouched (db db' : Db) : Type 0 where
  pub same_events : db'.events ≡ db.events
  pub same_last : db'.last_sequence ≡ db.last_sequence
  pub replay_stays :
      replay_pending db.events ≡ true
      → db.sync.replay_mode_active ≡ true
      → db'.sync.replay_mode_active ≡ true

module _ (f : Faults) (db : Db) where
  pub open_fallback_incident-Untouched :
      (e : FallbackEvent) (at : ℕ) → Untouched db (open_fallback_incident f e at db).0
  unfolding open_fallback_incident
  open_fallback_incident-Untouched e at = ground arith

  pub resolve_fallback_incident-Untouched :
      (asset code : Text) (at : ℕ) → Untouched db (resolve_fallback_incident f asset code at db).0
  unfolding resolve_fallback_incident
  resolve_fallback_incident-Untouched asset code at = ground arith

  pub record_fallback_upload_failure-Untouched :
      (n : ℕ) → Untouched db (record_fallback_upload_failure f n db).0
  unfolding record_fallback_upload_failure
  record_fallback_upload_failure-Untouched n = ground arith

  pub record_upload_contact_failure-Untouched :
      (cause : Text) → Untouched db (record_upload_contact_failure f cause db).0
  unfolding record_upload_contact_failure contact_failure
  record_upload_contact_failure-Untouched cause = ground arith

  pub record_upload_contact_success-Untouched :
      (at : ℕ) → Untouched db (record_upload_contact_success f at db).0
  unfolding record_upload_contact_success contact_success
  record_upload_contact_success-Untouched at = ground arith

  pub reserve_fallback_attempt-Untouched :
      (key : Text) (at wait : ℕ) → Untouched db (reserve_fallback_attempt f key at wait db).0
  unfolding reserve_fallback_attempt
  reserve_fallback_attempt-Untouched key at wait = ground arith

  pub record_fallback_attempt-Untouched :
      (r : AttemptResult) → Untouched db (record_fallback_attempt f r db).0
  unfolding record_fallback_attempt
  record_fallback_attempt-Untouched r = ground arith

  pub save_debounce_condition-Untouched :
      (asset code : Text) (since : ℕ)
      → Untouched db (save_debounce_condition f asset code since db).0
  unfolding save_debounce_condition
  save_debounce_condition-Untouched asset code since = ground arith

  pub delete_debounce_condition-Untouched :
      (asset code : Text) → Untouched db (delete_debounce_condition f asset code db).0
  unfolding delete_debounce_condition
  delete_debounce_condition-Untouched asset code = ground arith

  pub reserve_heartbeat-Untouched : (at : ℕ) → Untouched db (reserve_heartbeat f at db).0
  unfolding reserve_heartbeat
  reserve_heartbeat-Untouched at = ground arith

  pub record_heartbeat-Untouched :
      (n : ℕ) (reason : Text) → Untouched db (record_heartbeat f n reason db).0
  unfolding record_heartbeat
  record_heartbeat-Untouched n reason = ground arith
