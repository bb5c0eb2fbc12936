-- ===== src/Ingest/EdgeUpload.antt =====
-- The edge agent's uploader against the ingestion service.
use ambagrid.Common.{
  Result, some, leb, ℕ, ◌<◌, ◌≡◌, ◌≢◌, refl, ◌⊎◌, inl, inr, Bool, true, false, none, List, [], ◌∷◌,
  map, Text, arith, All, AnyOf, exists_where, count_where, ok, is_blank, ◌==◌,
}
use ambagrid.Edge.Errors.{Faults}
use ambagrid.Edge.Domain.{Record, QueueStats}
use ambagrid.Edge.Store.Schema.{Db, Row, row_active}
use ambagrid.Edge.Store.Capacity.{Store, FileSystem}
use ambagrid.Edge.Store.Queries.{stats, min_where}
use ambagrid.Edge.Uploader.Client.{BatchResponse, to_wire, read_answer, replied}
use ambagrid.Edge.Uploader.Batch.{Uploader, request_of, rejection_of}
use ambagrid.Edge.Uploader.Calls.{accepts}
use ambagrid.Ingest.Types.{RecordRejection, IngestResponse, IngestRecord}
use ambagrid.Ingest.Validate.{validate_health}
use ambagrid.Ingest.Handler.{
  Broker, Verdicts, Published, judge_records, handle_ingest, decoded, answered, status_of,
}
use ambagrid.Ingest.Accounts.{handle_ingest-accounts, Accounted, judge_records-Accounted}
use ambagrid.Ingest.Wire.{received, received_record, rejection, response}

-- The queue reports a depth above 0 exactly with the time of its oldest record.
min_where-count :
    (p : Row → Bool) (g : Row → ℕ) (rows : List Row)
    → ((min_where p g rows ≡ none) × (count_where p rows ≡ 0))
      ⊎ ((min_where p g rows ≢ none) × (0 < count_where p rows))
unfolding min_where count_where
min_where-count p g [] = inl (refl, refl)
min_where-count p g (r ∷ rows) = ground (arith, min_where-count p g rows)

stats-pending :
    (s : Store) (fs : FileSystem) (f : Faults) (now : ℕ) (db : Db) (q : QueueStats)
    → stats s fs f now db ≡ ok q
    → ((q.depth ≡ 0) × (q.oldest_pending_at ≡ none))
      ⊎ ((0 < q.depth) × (q.oldest_pending_at ≢ none))
unfolding stats
stats-pending s fs f now db q h =
    let pending = min_where-count row_active (λ r. r.received_at_ms) db.events in ground arith

-- The health that an uploader reports with a batch passes `validateHealth` of the service, whatever
-- the queue holds, if its gateway ID is not blank: the depth is 0 exactly if no record is pending.
pub request_of-healthy :
    (s : Store) (fs : FileSystem) (f : Faults) (now : ℕ) (db : Db) (q : QueueStats) (u : Uploader)
    (at : ℕ) (records : List Record)
    → stats s fs f now db ≡ ok q
    → is_blank u.cfg.gateway_id ≡ false
    → validate_health (received (request_of u at records q)) ≡ ok tt
unfolding validate_health received request_of
request_of-healthy s fs f now db q u at records reported named =
    let pending = stats-pending s fs f now db q reported in ground arith

accepts-found : (n : ℕ) (ns : List ℕ) → AnyOf (λ m. m ≡ n) ns → exists_where (λ m. m == n) ns ≡ true
unfolding exists_where
accepts-found n [] h = absurd h
accepts-found n (m ∷ ns) (inl e) = ground arith
accepts-found n (m ∷ ns) (inr h) = ground (arith, accepts-found n ns h)

rejection_of-found :
    (n : ℕ) (es : List RecordRejection)
    → AnyOf (λ e. e.sequence ≡ n) es
    → rejection_of n (map rejection es) ≢ none
unfolding rejection_of rejection
rejection_of-found n [] h = absurd h
rejection_of-found n (e ∷ es) (inl same) = ground arith
rejection_of-found n (e ∷ es) (inr h) = ground (arith, rejection_of-found n es h)

-- The answer, as the uploader reads it, settles a record.
abbrev pub Settled : BatchResponse → Record → Type 0
Settled a r = (accepts a r.sequence ≡ true) ⊎ (rejection_of r.sequence a.rejected ≢ none)

one-Settled :
    (v : Verdicts) (id : Text) (r : Record) (at : ℕ)
    → Accounted v (received_record (to_wire at r))
    → Settled
        (response (record { accepted = v.accepted; rejected = v.rejected; request_id = id }))
        r
unfolding received_record to_wire response
one-Settled v id r at (inl h) = inl (accepts-found r.sequence v.accepted h)
one-Settled v id r at (inr h) = inr (rejection_of-found r.sequence v.rejected h)

verdicts-Settled :
    (v : Verdicts) (id : Text) (at : ℕ) (records : List Record)
    → All (Accounted v) (map received_record (map (to_wire at) records))
    → All
        (Settled
          (response (record { accepted = v.accepted; rejected = v.rejected; request_id = id })))
        records
verdicts-Settled v id at [] h = tt
verdicts-Settled v id at (r ∷ records) h =
    (one-Settled v id r at h.0, verdicts-Settled v id at records h.1)

-- A status that the uploader reads the body of: neither 401 nor above 499.
status_of-read : (v : Verdicts) → ((status_of v == 401) ≡ false) × (leb 500 (status_of v) ≡ false)
status_of-read v = ground arith

-- What the service answers to a batch of these records.
abbrev pub answer_of : Text → Broker → Text → List IngestRecord → IngestResponse
answer_of site k id rs =
    let v = judge_records site k 0 rs in
    record { accepted = v.accepted; rejected = v.rejected; request_id = id }

-- The health that the uploader reports comes from its queue, its gateway ID is not blank, the service
-- knows its key and records its contact, and the body of the answer decodes to what the service encoded.
-- Then the service does not refuse the batch: whatever becomes of its records, the uploader takes the
-- reply for an answer that settles each of them, as accepted or rejected by its sequence, so none is
-- treated as omitted and none is retried as a failed exchange.
pub service-settles :
    (s : Store) (fs : FileSystem) (f : Faults) (now : ℕ) (db : Db) (q : QueueStats) (u : Uploader)
    (at : ℕ) (records : List Record) (site : Text) (k : Broker) (received_at : ℕ) (id : Text)
    (p : Published) (body : Text) (decode : Text → Result Text BatchResponse)
    → stats s fs f now db ≡ ok q
    → is_blank u.cfg.gateway_id ≡ false
    → k.contact ≡ true
    → decode body
      ≡ ok (response (answer_of site k id (received (request_of u at records q)).records))
    → let a = answer_of site k id (received (request_of u at records q)).records in
      ((status : ℕ) × ((handle_ingest
            (some site)
            k
            received_at
            id
            (decoded (received (request_of u at records q)))
            p).1
          ≡ answered status a)
        × (read_answer decode (replied status body) ≡ ok (response a)))
      × All (Settled (response a)) records
unfolding received request_of read_answer
service-settles s fs f now db q u at records site k received_at id p body decode reported named
      contact reads =
    let v = judge_records site k 0 (map received_record (map (to_wire at) records)) in
    let answer =
      handle_ingest-accounts site k received_at id (received (request_of u at records q)) p contact
        (request_of-healthy s fs f now db q u at records reported named) in
    (
      (status_of v, answer.0, rw ((status_of-read v).0, (status_of-read v).1, reads) refl),
      verdicts-Settled v id at records (judge_records-Accounted site k 0 _),
    )
