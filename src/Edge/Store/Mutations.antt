-- ===== src/Edge/Store/Mutations.antt =====
-- mutations.go: how events enter the queue and move through it. A method takes the answers of
-- SQLite to its statements (`Faults`) and returns the database with its result.
use ambagrid.Common.{
  ℕ, ◌+◌, Bool, not, ◌&&◌, ◌||◌, Option, none, some, List, [], ◌∷◌, ◌++◌, Text, length, ltb, ◌==◌,
  if◌then◌else◌, is_empty, Result, ok, err, ◌>>◌, refuse_if, in_tx, to_ms, is_zero_time,
  update_where, count_where, find_where,
}
use ambagrid.Edge.Errors.{
  Error, Faults, answer, insert_answer, storage_capacity, critical_reserve, event_too_large,
  event_not_found, invalid_transition, fields_required, asset_type_invalid, timestamps_required,
  metadata_too_large, priority_invalid,
}
use ambagrid.Edge.Domain.{
  Event, EventStatus, persisted, pending_upload, uploaded, acknowledged, expired, status_eq,
  asset_valid, priority_valid, is_normal,
}
use ambagrid.Edge.Store.Schema.{Db, Row, queued_bytes}
use ambagrid.Edge.Store.Capacity.{
  Store, FileSystem, payload_capacity, normal_admission_limit, check_admission,
}

abbrev pub max_device_id_bytes : ℕ
max_device_id_bytes = 256

abbrev pub max_mqtt_topic_bytes : ℕ
max_mqtt_topic_bytes = 1024

abbrev pub max_failure_cause_bytes : ℕ
max_failure_cause_bytes = 2048

unfoldable pub null_string : Text → Option Text
null_string v = if is_empty v then none else some v

-- The tests of `insert` on the event alone.
unfoldable pub validate_event : Store → Event → Result Error (Unit {0})
validate_event s e = do
  refuse_if (is_empty e.device_id || (is_empty e.mqtt_topic || is_empty e.payload)) fields_required
  refuse_if (not (asset_valid e.asset_type)) asset_type_invalid
  refuse_if (is_zero_time e.event_timestamp || is_zero_time e.edge_received_at) timestamps_required
  refuse_if
      (ltb max_device_id_bytes (length e.device_id)
        || ltb max_mqtt_topic_bytes (length e.mqtt_topic))
      metadata_too_large
  refuse_if (not (priority_valid e.priority)) priority_invalid
  refuse_if (ltb s.cfg.max_event_bytes (length e.payload)) event_too_large

-- The row that an INSERT of an event makes.
unfoldable pub new_row : Store → ℕ → Event → EventStatus → Db → Row
unfolding null_string
new_row s now e status db = record {
  sequence = db.last_sequence + 1;
  site_id = s.cfg.site_id;
  gateway_id = s.cfg.gateway_id;
  device_id = e.device_id;
  asset_type = e.asset_type;
  mqtt_topic = e.mqtt_topic;
  payload = e.payload;
  payload_bytes = length e.payload;
  priority = e.priority;
  event_at_ms = to_ms e.event_timestamp;
  received_at_ms = to_ms e.edge_received_at;
  persisted_at_ms = to_ms now;
  uploaded_at_ms = none;
  status = status;
  attempt_count = 0;
  rejection_count = 0;
  replay_required = db.sync.replay_mode_active;
  next_attempt_at_ms = none;
  last_error = none;
  critical_code = null_string e.critical_code;
  critical_value = e.critical_value;
}

unfoldable pub add_row : Row → Db → Db
add_row r db = record db { events = db.events ++ r ∷ []; last_sequence = r.sequence }

-- `insert`. In int64 the free room `capacity - queued` may fall below 0; here the queued bytes
-- stand on the other side. The checks before BEGIN change nothing, so they share the transaction.
unfoldable pub insert :
    Store → FileSystem → Faults → ℕ → Event → EventStatus → Db → Db × Result Error ℕ
unfolding validate_event
insert s fs f now e status db = in_tx db (do
  validate_event s e
  check_admission s fs e
  answer (f 0)
  answer (f 1)
  let total = queued_bytes db.events + length e.payload
  refuse_if (ltb (payload_capacity s.cfg) total) storage_capacity
  refuse_if (is_normal e.priority && ltb (normal_admission_limit s.cfg) total) critical_reserve
  insert_answer (f 2)
  answer (f 3)
  let r = new_row s now e status db
  ok (r.sequence, add_row r db))

unfoldable pub enqueue : Store → FileSystem → Faults → ℕ → Event → Db → Db × Result Error ℕ
unfolding insert
enqueue s fs f now e db = insert s fs f now e pending_upload db

unfoldable pub persist : Store → FileSystem → Faults → ℕ → Event → Db → Db × Result Error ℕ
unfolding insert
persist s fs f now e db = insert s fs f now e persisted db

-- The condition `sequence = ? AND status = ?`.
unfoldable pub row_at : ℕ → EventStatus → Row → Bool
row_at n st r = r.sequence == n && status_eq r.status st

-- SELECT status FROM queue_events WHERE sequence = ?, after an UPDATE that hit no row: a row that
-- is already in the target state is a repeated call, and no error.
unfoldable pub already : ℕ → EventStatus → Db → Result Error (Unit {0})
already n to db = elim (find_where (λ r. r.sequence == n) db.events) [
  | none ↦ err event_not_found
  | some r ↦ refuse_if (not (status_eq r.status to)) invalid_transition
]

unfoldable pub set_events : List Row → Db → Db
set_events rows db = record db { events = rows }

-- The UPDATE of `transition` on one row.
unfoldable pub to_status : EventStatus → Row → Row
to_status to r = record r { status = to; next_attempt_at_ms = none; last_error = none }

unfoldable pub transition :
    Faults → ℕ → EventStatus → EventStatus → Db → Db × Result Error (Unit {0})
unfolding row_at already set_events to_status
transition f n from to db = elim (answer (f 0)) [
  | err e ↦ (db, err e)
  | ok _ ↦
      if ltb 0 (count_where (row_at n from) db.events)
      then (
        set_events
            (update_where (row_at n from)
              (λ r. record r { status = to; next_attempt_at_ms = none; last_error = none })
              db.events)
            db,
        ok tt,
      )
      else (db, do answer (f 1); already n to db)
]

unfoldable pub mark_pending_upload : Faults → ℕ → Db → Db × Result Error (Unit {0})
unfolding transition
mark_pending_upload f n db = transition f n persisted pending_upload db

unfoldable pub ack : Faults → ℕ → Db → Db × Result Error (Unit {0})
unfolding transition
ack f n db = transition f n uploaded acknowledged db

unfoldable pub expire : Faults → ℕ → Db → Db × Result Error (Unit {0})
unfolding transition
expire f n db = transition f n acknowledged expired db

-- The UPDATE of `MarkUploaded` on one row.
unfoldable pub upload_row : ℕ → Row → Row
upload_row at r = record r {
  status = uploaded;
  uploaded_at_ms = some (to_ms at);
  next_attempt_at_ms = none;
  last_error = none;
}

unfoldable pub mark_uploaded : Faults → ℕ → ℕ → Db → Db × Result Error (Unit {0})
unfolding row_at already set_events upload_row
mark_uploaded f n at db = elim (answer (f 0)) [
  | err e ↦ (db, err e)
  | ok _ ↦
      if ltb 0 (count_where (row_at n pending_upload) db.events)
      then (set_events (update_where (row_at n pending_upload) (upload_row at) db.events) db, ok tt)
      else (db, do answer (f 1); already n uploaded db)
]
