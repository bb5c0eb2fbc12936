-- ===== src/Edge/Store/Lifecycle/Calls.antt =====
-- The calls that the collector, the uploader and the coordinator make on the store, as data, with
-- the clocks and the answers of SQLite and the file system that each call meets.
use ambagrid.Common.{ℕ, Bool, Text, List, [], ◌∷◌}
use ambagrid.Edge.Errors.{Faults}
use ambagrid.Edge.Domain.{Event}
use ambagrid.Edge.Store.Schema.{Db}
use ambagrid.Edge.Store.Capacity.{Store, FileSystem}
use ambagrid.Edge.Store.Mutations.{
  enqueue, persist, mark_pending_upload, mark_uploaded, ack, expire,
}
use ambagrid.Edge.Store.Completion.{
  complete_upload, abandon, mark_failed_with, purge, recover_interrupted,
}
use ambagrid.Edge.Store.Incidents.{
  open_fallback_incident, resolve_fallback_incident, record_fallback_upload_failure,
  record_upload_contact_failure, record_upload_contact_success,
}
use ambagrid.Edge.Store.SmsAttempts.{reserve_fallback_attempt, record_fallback_attempt}
use ambagrid.Edge.Store.Debounces.{save_debounce_condition, delete_debounce_condition}
use ambagrid.Edge.Store.Heartbeats.{reserve_heartbeat, record_heartbeat}
use ambagrid.Edge.Fallback.Message.{FallbackEvent, AttemptResult}

pub data Call : Type 0 where
  enqueues persists : FileSystem → Faults → ℕ → Event → Call
  marks_pending acks expires : Faults → ℕ → Call
  marks_uploaded completes : Faults → ℕ → ℕ → Call
  abandons : Faults → ℕ → Text → Call
  fails : Faults → ℕ → ℕ → Text → Bool → Call
  purges : Faults → ℕ → ℕ → Call
  recovers : Faults → Call
  opens_incident : Faults → FallbackEvent → ℕ → Call
  resolves_incident : Faults → Text → Text → ℕ → Call
  upload_fails : Faults → ℕ → Call
  contact_fails : Faults → Text → Call
  contact_succeeds : Faults → ℕ → Call
  reserves_attempt : Faults → Text → ℕ → ℕ → Call
  records_attempt : Faults → AttemptResult → Call
  saves_debounce : Faults → Text → Text → ℕ → Call
  deletes_debounce : Faults → Text → Text → Call
  reserves_heartbeat : Faults → ℕ → Call
  records_heartbeat : Faults → ℕ → Text → Call

unfoldable pub after_call : Store → Call → Db → Db
after_call s (enqueues fs f now e) db = (enqueue s fs f now e db).0
after_call s (persists fs f now e) db = (persist s fs f now e db).0
after_call s (marks_pending f n) db = (mark_pending_upload f n db).0
after_call s (acks f n) db = (ack f n db).0
after_call s (expires f n) db = (expire f n db).0
after_call s (marks_uploaded f n at) db = (mark_uploaded f n at db).0
after_call s (completes f n at) db = (complete_upload f n at db).0
after_call s (abandons f n cause) db = (abandon f n cause db).0
after_call s (fails f n at cause rejected) db = (mark_failed_with f n at cause rejected db).0
after_call s (purges f now age) db = (purge f now age db).0
after_call s (recovers f) db = (recover_interrupted f db).0
after_call s (opens_incident f e at) db = (open_fallback_incident f e at db).0
after_call s (resolves_incident f a c at) db = (resolve_fallback_incident f a c at db).0
after_call s (upload_fails f n) db = (record_fallback_upload_failure f n db).0
after_call s (contact_fails f cause) db = (record_upload_contact_failure f cause db).0
after_call s (contact_succeeds f at) db = (record_upload_contact_success f at db).0
after_call s (reserves_attempt f key at wait) db = (reserve_fallback_attempt f key at wait db).0
after_call s (records_attempt f r) db = (record_fallback_attempt f r db).0
after_call s (saves_debounce f a c since) db = (save_debounce_condition f a c since db).0
after_call s (deletes_debounce f a c) db = (delete_debounce_condition f a c db).0
after_call s (reserves_heartbeat f at) db = (reserve_heartbeat f at db).0
after_call s (records_heartbeat f n reason) db = (record_heartbeat f n reason db).0

unfoldable pub after_calls : Store → List Call → Db → Db
after_calls s [] db = db
after_calls s (c ∷ cs) db = after_calls s cs (after_call s c db)
