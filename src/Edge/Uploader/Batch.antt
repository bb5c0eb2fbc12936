-- ===== src/Edge/Uploader/Batch.antt =====
-- uploader.go: one batch, from the queue to the bookkeeping of its answer, and the loop over
-- batches. Delays are exact: `BaseDelay` and `MaxDelay` are below 2 ^ 53 ns (104 days), where
-- float64 holds them and their doublings without rounding.
use ambagrid.Common.{
  ℕ, ◌+◌, ◌*◌, ◌^◌, Bool, false, Option, none, some, List, [], ◌∷◌, ◌++◌, map, Text, codes, length,
  ltb, leb, ◌==◌, if◌then◌else◌, Result, ok, err, second, minute, take, exists_where,
}
use ambagrid.Edge.Errors.{Error, Faults}
use ambagrid.Edge.Domain.{Record, QueueStats}
use ambagrid.Edge.Store.Schema.{Db}
use ambagrid.Edge.Store.Capacity.{Store, FileSystem}
use ambagrid.Edge.Store.Completion.{complete_upload, abandon, mark_failed, mark_rejected}
use ambagrid.Edge.Store.Queries.{ready, stats}
use ambagrid.Edge.Store.Incidents.{
  record_fallback_upload_failure, record_upload_contact_failure, record_upload_contact_success,
}
use ambagrid.Edge.Uploader.Client.{BatchRequest, BatchResponse, RecordError, to_wire}

pub record Config : Type 0 where
  pub gateway_id : Text
  pub batch_size : ℕ
  pub batch_max_bytes : ℕ
  pub poll_interval : ℕ
  pub base_delay : ℕ
  pub max_delay : ℕ
  pub max_retries : ℕ

abbrev or_default : ℕ → ℕ → ℕ
or_default n d = if n == 0 then d else n

-- The defaults of `New`, where a setting is not positive.
unfoldable pub with_defaults : Config → Config
with_defaults c = record c {
  batch_size = or_default c.batch_size 50;
  batch_max_bytes = or_default c.batch_max_bytes (2 ^ 20);
  poll_interval = or_default c.poll_interval (5 * second);
  base_delay = or_default c.base_delay second;
  max_delay = or_default c.max_delay (5 * minute);
  max_retries = or_default c.max_retries 20;
}

-- An uploader with or without a tracker (`u.tracker != nil`).
pub record Uploader : Type 0 where
  pub cfg : Config
  pub tracked : Bool

unfoldable pub retry_delay : Config → ℕ → ℕ
retry_delay c attempts =
    let delay = c.base_delay * 2 ^ attempts in if ltb c.max_delay delay then c.max_delay else delay

unfoldable pub retry_time : Config → ℕ → ℕ → ℕ
unfolding retry_delay
retry_time c attempts now = now + retry_delay c attempts

-- The answers of SQLite to the calls made for one record.
pub record RecordFaults : Type 0 where
  pub queue : Faults
  pub tracker : Faults

unfoldable pub record_fallback_failure : Uploader → Faults → ℕ → Db → Db
record_fallback_failure u f n db =
    if u.tracked then (record_fallback_upload_failure f n db).0 else db

-- Errors of the queue are logged: the database that the call left is what goes on.
unfoldable pub reject_record : Uploader → RecordFaults → Record → Text → ℕ → Db → Db
unfolding record_fallback_failure retry_time
reject_record u f r cause failure_at db = record_fallback_failure u f.tracker r.sequence (
    if leb u.cfg.max_retries (r.rejection_count + 1)
    then (abandon f.queue r.sequence cause db).0
    else (mark_rejected f.queue r.sequence (retry_time u.cfg r.attempt_count failure_at) cause
        db).0)

unfoldable pub retry_record : Uploader → RecordFaults → Record → Text → ℕ → Db → Db
unfolding record_fallback_failure retry_time
retry_record u f r cause failure_at db =
    record_fallback_failure u f.tracker r.sequence
      (mark_failed f.queue r.sequence (retry_time u.cfg r.attempt_count failure_at) cause db).0

-- `rejectedSet[sequence]`: a map keeps the last of several entries.
unfoldable pub rejection_of : ℕ → List RecordError → Option RecordError
rejection_of n [] = none
rejection_of n (e ∷ es) = elim (rejection_of n es) [
  | none ↦ if e.sequence == n then some e else none
  | some later ↦ some later
]

abbrev pub omitted_cause : Text
omitted_cause = codes "invalid ingestion response: sequence was neither accepted nor rejected"

-- The cause that a record which was not accepted is refused for.
unfoldable pub rejection_cause : Option RecordError → Text
rejection_cause (some e) = e.code ++ (codes ": " ++ e.message)
rejection_cause none = omitted_cause

-- What the response says of one record.
unfoldable pub process_record : Uploader → RecordFaults → BatchResponse → ℕ → ℕ → Record → Db → Db
unfolding rejection_of rejection_cause reject_record
process_record u f response uploaded_at failure_at r db =
    if exists_where (λ n. n == r.sequence) response.accepted
    then (complete_upload f.queue r.sequence uploaded_at db).0
    else reject_record u f r (rejection_cause (rejection_of r.sequence response.rejected))
        failure_at db

-- The faults of a batch are told apart by the sequence of the record that a call is about.
unfoldable pub process_response :
    Uploader → (ℕ → RecordFaults) → BatchResponse → ℕ → ℕ → List Record → Db → Db
unfolding process_record
process_response u f response uploaded_at failure_at [] db = db
process_response u f response uploaded_at failure_at (r ∷ rs) db =
    process_response u f response uploaded_at failure_at rs
      (process_record u (f r.sequence) response uploaded_at failure_at r db)

unfoldable pub retry_all : Uploader → (ℕ → RecordFaults) → Text → ℕ → List Record → Db → Db
unfolding retry_record
retry_all u f cause failure_at [] db = db
retry_all u f cause failure_at (r ∷ rs) db =
    retry_all u f cause failure_at rs (retry_record u (f r.sequence) r cause failure_at db)

unfoldable pub handle_failure :
    Uploader → Faults → (ℕ → RecordFaults) → List Record → Text → ℕ → Db → Db
unfolding retry_all
handle_failure u contact f records cause failure_at db =
    let short = take 2048 cause in
    retry_all u f short failure_at records
      (if u.tracked then (record_upload_contact_failure contact short db).0 else db)

-- What one batch meets outside the uploader: clocks, the file system, SQLite and the service.
pub record Round : Type 0 where
  pub ready_at : ℕ
  pub uploaded_at : ℕ
  pub failure_at : ℕ
  pub files : FileSystem
  pub ready_faults : Faults
  pub stats_faults : Faults
  pub contact_faults : Faults
  pub record_faults : ℕ → RecordFaults
  pub service : BatchRequest → Result Text BatchResponse

unfoldable pub request_of : Uploader → ℕ → List Record → QueueStats → BatchRequest
request_of u at records s = record {
  gateway_id = u.cfg.gateway_id;
  queue_depth = s.depth;
  oldest_pending_at = s.oldest_pending_at;
  last_event_timestamp = s.last_event_timestamp;
  last_successful_sync_at = s.last_successful_sync_at;
  last_failed_sync_reason = s.last_failed_sync_reason;
  records = map (to_wire at) records;
}

-- How a batch ended: the number of its records, or an error.
pub data BatchEnd : Type 0 where
  sent : ℕ → BatchEnd
  upload_failed : BatchEnd
  queue_failed : Error → BatchEnd

unfoldable pub finish_batch :
    Uploader → Round → List Record → Result Text BatchResponse → Db → Db × BatchEnd
unfolding process_response handle_failure
finish_batch u w records (err cause) db =
    (handle_failure u w.contact_faults w.record_faults records cause w.failure_at db, upload_failed)
finish_batch u w records (ok response) db =
    let done = process_response u w.record_faults response w.uploaded_at w.failure_at records db in
    (
      if u.tracked
          then (record_upload_contact_success w.contact_faults w.uploaded_at done).0
          else done,
      sent (length records),
    )

-- With what `Ready` and `Stats` return. An empty batch is sent as well, as a sign of life.
unfoldable pub upload_records :
    Uploader → Round → Result Error (List Record) → Result Error QueueStats → Db → Db × BatchEnd
unfolding finish_batch request_of
upload_records u w (err e) stats db = (db, queue_failed e)
upload_records u w (ok records) (err e) db = (db, queue_failed e)
upload_records u w (ok records) (ok q) db =
    finish_batch u w records (w.service (request_of u w.uploaded_at records q)) db

unfoldable pub upload_batch : Store → Uploader → Round → Db → Db × BatchEnd
unfolding upload_records
upload_batch s u w db =
    upload_records u w (ready w.ready_faults w.ready_at u.cfg.batch_size u.cfg.batch_max_bytes db)
      (stats s w.files w.stats_faults w.ready_at db) db

abbrev goes_on : BatchEnd → Bool
goes_on (sent n) = ltb 0 n
goes_on upload_failed = false
goes_on (queue_failed e) = false

-- `drainOnce` over the rounds that the environment grants before the context is cancelled.
unfoldable pub drain_once : Store → Uploader → List Round → Db → Db
unfolding upload_batch
drain_once s u [] db = db
drain_once s u (w ∷ ws) db =
    let rest = drain_once s u ws (upload_batch s u w db).0 in
    if goes_on (upload_batch s u w db).1 then rest else (upload_batch s u w db).0
