-- ===== src/Edge/Uploader/Session.antt =====
-- The uploader's batches as histories of calls on the queue, and what that preserves.
use ambagrid.Common.{
  ◌⊎◌, inl, inr, ◌≡◌, refl, AnyOf, ℕ, List, [], ◌∷◌, arith, Text, ok, err, Result, if◌then◌else◌,
  take,
}
use ambagrid.Edge.Domain.{QueueStats, Record}
use ambagrid.Edge.Errors.{Error, Faults}
use ambagrid.Edge.Store.Schema.{Db}
use ambagrid.Edge.Store.Capacity.{Store}
use ambagrid.Edge.Store.Queries.{ready, stats}
use ambagrid.Edge.Store.Lifecycle.Calls.{Call, after_call, contact_fails, contact_succeeds}
use ambagrid.Edge.Store.Invariant.{Inv}
use ambagrid.Edge.Store.History.{
  History-Inv, History, no_calls, one_call, then_calls, History-weaken, DoesAll, all_then, then_all,
  DoesAll-weaken,
}
use ambagrid.Edge.Uploader.Client.{BatchResponse}
use ambagrid.Edge.Uploader.Batch.{
  Round, upload_records, finish_batch, upload_batch, drain_once, request_of, Uploader, RecordFaults,
  handle_failure,
}
use ambagrid.Edge.Uploader.Calls.{
  Grounds, Retries, Concludes, process_response-DoesAll, retry_all-DoesAll,
}

-- The same for a whole batch: the failed contact is noted first.
abbrev pub FailureCalls : List Record → Call → Type 0
FailureCalls records (contact_fails f cause) = Unit
FailureCalls records c = AnyOf (λ r. Retries r c) records

FailureCalls-Retries :
    (records : List Record) (c : Call) → AnyOf (λ r. Retries r c) records → FailureCalls records c
FailureCalls-Retries records c h = ground arith

module _ (s : Store) (u : Uploader) where
  contact_noted :
      (P : Call → Type 0) (c : Call) (db : Db)
      → P c
      → History P s db (if u.tracked then after_call s c db else db)
  contact_noted P c db p =
      let none_made = no_calls P s db in let noted = one_call P s c db p in ground arith

  handle_failure-DoesAll :
      (contact : Faults) (f : ℕ → RecordFaults) (records : List Record) (cause : Text) (at : ℕ)
      (db : Db)
      → DoesAll
          (FailureCalls records)
          Concludes
          s
          records
          db
          (handle_failure u contact f records cause at db)
  unfolding handle_failure after_call
  handle_failure-DoesAll contact f records cause at db =
      then_all (FailureCalls records) Concludes s records
        (contact_noted (FailureCalls records) (contact_fails contact (take 2048 cause)) db tt)
        (DoesAll-weaken _ (FailureCalls records) Concludes s records (FailureCalls-Retries records)
          (retry_all-DoesAll s u f (take 2048 cause) at records _))

  -- A failed exchange (no answer, HTTP 401, HTTP 5xx or a body that does not decode) makes only
  -- retries that are no rejections, whatever the number of its records: no record is abandoned and
  -- none loses a part of its abandonment budget.
  pub handle_failure-History :
      (contact : Faults) (f : ℕ → RecordFaults) (records : List Record) (cause : Text) (at : ℕ)
      (db : Db)
      → History (FailureCalls records) s db (handle_failure u contact f records cause at db)
  handle_failure-History contact f records cause at db =
      (handle_failure-DoesAll contact f records cause at db).history

-- The whole answer: the successful contact is noted last.
abbrev pub ResponseCalls : Uploader → BatchResponse → List Record → Call → Type 0
ResponseCalls u response records (contact_succeeds f at) = Unit
ResponseCalls u response records c = AnyOf (λ r. Grounds u response r c) records

ResponseCalls-Grounds :
    (u : Uploader) (response : BatchResponse) (records : List Record) (c : Call)
    → AnyOf (λ r. Grounds u response r c) records
    → ResponseCalls u response records c
ResponseCalls-Grounds u response records c h = ground arith

-- The calls that the answer to a batch gives grounds for.
abbrev pub AnswerCalls : Uploader → Result Text BatchResponse → List Record → Call → Type 0
AnswerCalls u (ok response) records c = ResponseCalls u response records c
AnswerCalls u (err cause) records c = FailureCalls records c

-- What is read for a batch.
abbrev pub records_read : Uploader → Round → Db → Result Error (List Record)
records_read u w db = ready w.ready_faults w.ready_at u.cfg.batch_size u.cfg.batch_max_bytes db

abbrev pub stats_read : Store → Round → Db → Result Error QueueStats
stats_read s w db = stats s w.files w.stats_faults w.ready_at db

-- A batch: it could not be read and nothing has changed, or each of its records is settled by calls that
-- the service's answer to just this batch gives grounds for.
abbrev pub Batch : Store → Uploader → Round → Db → Db → Type 0
Batch s u w db db' =
    (((e : Error) × ((records_read u w db ≡ err e) ⊎ (stats_read s w db ≡ err e))) × (db' ≡ db))
    ⊎ ((records : List Record) × (q : QueueStats) × (records_read u w db ≡ ok records)
        × (stats_read s w db ≡ ok q)
        × DoesAll (AnswerCalls u (w.service (request_of u w.uploaded_at records q)) records)
            Concludes s records db db')

module _ (s : Store) (u : Uploader) (w : Round) (db : Db) where
  answer-DoesAll :
      (records : List Record) (answer : Result Text BatchResponse)
      → DoesAll
          (AnswerCalls u answer records)
          Concludes
          s
          records
          db
          (finish_batch u w records answer db).0
  unfolding finish_batch after_call
  answer-DoesAll records (ok response) =
      let P = ResponseCalls u response records in
      all_then P Concludes s records
        (DoesAll-weaken _ P Concludes s records (ResponseCalls-Grounds u response records) (
          process_response-DoesAll s u w.record_faults response w.uploaded_at w.failure_at records
            db))
        (contact_noted s u P (contact_succeeds w.contact_faults w.uploaded_at) _ tt)
  answer-DoesAll records (err cause) =
      handle_failure-DoesAll s u w.contact_faults w.record_faults records cause w.failure_at db

  any_calls : {P : Call → Type 0} {db' : Db} → History P s db db' → History (λ c. Unit) s db db'
  any_calls {P = P} h = History-weaken P _ s (λ c p. tt) h

  read-Batch :
      (records : Result Error (List Record)) (q : Result Error QueueStats)
      → records_read u w db ≡ records
      → stats_read s w db ≡ q
      → Batch s u w db (upload_records u w records q db).0
  unfolding upload_records
  read-Batch (err e) q taken reported = inl ((e, inl taken), refl)
  read-Batch (ok records) (err e) taken reported = inl ((e, inr reported), refl)
  read-Batch (ok records) (ok q) taken reported = inr (
    records,
    q,
    taken,
    reported,
    answer-DoesAll records (w.service (request_of u w.uploaded_at records q)),
  )

  pub upload_batch-Batch : Batch s u w db (upload_batch s u w db).0
  unfolding upload_batch
  upload_batch-Batch = read-Batch _ _ refl refl

  Batch-History : {db' : Db} → Batch s u w db db' → History (λ c. Unit) s db db'
  Batch-History (inl (unread, same)) = rw same (no_calls _ s db)
  Batch-History (inr (records, q, taken, reported, d)) = any_calls d.history

  upload_batch-History : History (λ c. Unit) s db (upload_batch s u w db).0
  upload_batch-History = Batch-History upload_batch-Batch

drain_once-History :
    (s : Store) (u : Uploader) (ws : List Round) (db : Db)
    → History (λ c. Unit) s db (drain_once s u ws db)
unfolding drain_once
drain_once-History s u [] db = no_calls (λ c. Unit) s db
drain_once-History s u (w ∷ ws) db =
    let once = upload_batch-History s u w db in
    let rest =
      then_calls (λ c. Unit) s once (drain_once-History s u ws (upload_batch s u w db).0) in
    ground arith

-- However many batches the uploader sends, and whatever the service, SQLite and the file system
-- answer, the queue keeps its invariant.
pub drain_once-Inv :
    (s : Store) (u : Uploader) (ws : List Round) (db : Db)
    → Inv s.cfg db
    → Inv s.cfg (drain_once s u ws db)
drain_once-Inv s u ws db v = History-Inv (λ c. Unit) s (drain_once-History s u ws db) v
