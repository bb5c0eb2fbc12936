-- ===== src/Edge/Store/Queries.antt =====
-- queries.go: what the uploader may send now, single records and the statistics.
use ambagrid.Common.{
  ℕ, ◌+◌, ◌-◌, ◌*◌, Bool, true, false, ◌&&◌, ◌||◌, not, Option, none, some, List, [], ◌∷◌, Text,
  length, ltb, leb, ◌==◌, if◌then◌else◌, text_eq, Result, ok, err, ◌>>=◌, ◌>>◌, refuse_if, to_ms,
  from_ms, select_where, exists_where, count_where, find_where, take,
}
use mathlib.Core.Option
use ambagrid.Edge.Errors.{Error, Faults, answer, ready_limits, event_not_found}
use ambagrid.Edge.Domain.{
  Record, QueueState, QueueStats, pending_upload, status_eq, is_active, healthy, warning,
  normal_suspended, queue_full, filesystem_low,
}
use ambagrid.Edge.Store.Schema.{Db, Row, row_active, queued_bytes}
use ambagrid.Edge.Store.Capacity.{
  Config, Store, FileSystem, payload_capacity, normal_admission_limit, filesystem_free_bytes,
  queue_disk_bytes,
}

-- `next_attempt_at_ms IS NULL OR next_attempt_at_ms <= ?`.
unfoldable pub is_due : ℕ → Option ℕ → Bool
is_due now_ms none = true
is_due now_ms (some t) = leb t now_ms

-- The anti-join: `e` is an earlier unfinished row of the device of `r`.
unfoldable pub blocks : Row → Row → Bool
blocks r e = text_eq e.device_id r.device_id && (ltb e.sequence r.sequence && is_active e.status)

unfoldable pub eligible : List Row → ℕ → Row → Bool
unfolding is_due blocks
eligible rows now_ms r =
    status_eq r.status pending_upload
    && (is_due now_ms r.next_attempt_at_ms && not (exists_where (blocks r) rows))

-- COALESCE(t, '').
abbrev pub text_or_empty : Option Text → Text
text_or_empty none = []
text_or_empty (some t) = t

unfoldable pub to_record : Row → Record
to_record r = record {
  sequence = r.sequence;
  site_id = r.site_id;
  gateway_id = r.gateway_id;
  device_id = r.device_id;
  asset_type = r.asset_type;
  mqtt_topic = r.mqtt_topic;
  payload = r.payload;
  priority = r.priority;
  status = r.status;
  event_timestamp = from_ms r.event_at_ms;
  edge_received_at = from_ms r.received_at_ms;
  persisted_at = from_ms r.persisted_at_ms;
  uploaded_at = Option.map from_ms r.uploaded_at_ms;
  attempt_count = r.attempt_count;
  rejection_count = r.rejection_count;
  replay_required = r.replay_required;
  next_attempt_at = Option.map from_ms r.next_attempt_at_ms;
  last_error = text_or_empty r.last_error;
  critical_code = text_or_empty r.critical_code;
  critical_value = r.critical_value;
}

-- The loop over the rows: the first is always taken, and then as many as the byte limit allows.
-- `started` is `len(records) > 0`.
unfoldable pub fill_batch : ℕ → Bool → ℕ → List Row → List Row
fill_batch max_bytes started total [] = []
fill_batch max_bytes started total (r ∷ rs) =
    let total' = total + length r.payload in
    let rest = fill_batch max_bytes true total' rs in
    if started && ltb max_bytes total' then [] else r ∷ rest

-- The rows that `Ready` returns. The table is in the order of its key, as ORDER BY asks.
unfoldable pub ready_rows : ℕ → ℕ → ℕ → Db → List Row
unfolding fill_batch eligible
ready_rows now limit max_bytes db =
    fill_batch max_bytes false 0
      (take limit (select_where (eligible db.events (to_ms now)) db.events))

unfoldable pub records_of : List Row → List Record
records_of [] = []
records_of (r ∷ rs) = to_record r ∷ records_of rs

unfoldable pub ready : Faults → ℕ → ℕ → ℕ → Db → Result Error (List Record)
unfolding ready_rows records_of to_record
ready f now limit max_bytes db = do
  refuse_if (ltb limit 1 || ltb max_bytes 1) ready_limits
  answer (f 0)
  ok (records_of (ready_rows now limit max_bytes db))

unfoldable pub get_record : Faults → ℕ → Db → Result Error Record
unfolding to_record
get_record f n db = do
  answer (f 0)
  elim (find_where (λ r. r.sequence == n) db.events) [
    | none ↦ err event_not_found
    | some r ↦ ok (to_record r)
  ]

-- MIN and MAX over the rows that meet a condition: NULL where there is none.
unfoldable pub min_where : (Row → Bool) → (Row → ℕ) → List Row → Option ℕ
min_where p g [] = none
min_where p g (r ∷ rs) =
    if p r
    then elim (min_where p g rs) [
      | none ↦ some (g r)
      | some m ↦ some (if ltb m (g r) then m else g r)
    ]
    else min_where p g rs

unfoldable pub max_where : (Row → Bool) → (Row → ℕ) → List Row → Option ℕ
max_where p g [] = none
max_where p g (r ∷ rs) =
    if p r
    then elim (max_where p g rs) [
      | none ↦ some (g r)
      | some m ↦ some (if ltb (g r) m then m else g r)
    ]
    else max_where p g rs

unfoldable pub queue_state : Config → QueueStats → QueueState
queue_state c s =
    if ltb 0 c.min_filesystem_free_bytes && ltb s.filesystem_free_bytes c.min_filesystem_free_bytes
    then filesystem_low
    else if leb c.max_storage_bytes s.disk_bytes || leb s.capacity_bytes s.payload_bytes
    then queue_full
    else if leb (normal_admission_limit c) s.payload_bytes
    then normal_suspended
    else if leb (c.max_storage_bytes * c.warning_percent) (s.disk_bytes * 100)
        || leb (s.capacity_bytes * c.warning_percent) (s.payload_bytes * 100)
    then warning
    else healthy

-- `time.Since(oldest)`, and 0 where the clock stands before it.
unfoldable pub age_of : ℕ → Option ℕ → ℕ
age_of now none = 0
age_of now (some t) = now - t

unfoldable pub stats : Store → FileSystem → Faults → ℕ → Db → Result Error QueueStats
unfolding min_where max_where age_of queue_state
stats s fs f now db = do
  answer (f 0)
  answer (f 1)
  disk ← queue_disk_bytes fs
  free ← filesystem_free_bytes fs.statfs
  let oldest = Option.map from_ms (min_where row_active (λ r. r.received_at_ms) db.events)
  let snapshot : QueueStats = record {
    depth = count_where row_active db.events;
    payload_bytes = queued_bytes db.events;
    capacity_bytes = payload_capacity s.cfg;
    normal_admission_bytes = normal_admission_limit s.cfg;
    disk_bytes = disk;
    filesystem_free_bytes = free;
    oldest_age = age_of now oldest;
    oldest_pending_at = oldest;
    last_event_timestamp =
        Option.map from_ms (max_where (λ r. true) (λ r. r.event_at_ms) db.events);
    last_successful_sync_at = Option.map from_ms db.sync.last_upload_success_at_ms;
    last_failed_sync_reason = text_or_empty db.sync.last_upload_failure_reason;
    abandoned_total = db.sync.abandoned_count;
    state = healthy;
  }
  ok (record snapshot { state = queue_state s.cfg snapshot })
