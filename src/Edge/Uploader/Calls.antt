-- ===== src/Edge/Uploader/Calls.antt =====
-- Which calls on the queue the uploader makes, and on what grounds.
use ambagrid.Common.{
  AnyOf, ℕ, ◌+◌, ◌≤◌, ◌<◌, ◌≡◌, refl, Bool, true, false, inl, inr, List, [], ◌∷◌, arith, Text,
  exists_where, ◌==◌, leb, Bool-cases,
}
use ambagrid.Edge.Domain.{Record}
use ambagrid.Edge.Errors.{Faults}
use ambagrid.Edge.Store.Schema.{Db}
use ambagrid.Edge.Store.Capacity.{Store}
use ambagrid.Edge.Store.Completion.{mark_failed, mark_rejected}
use ambagrid.Edge.Store.Lifecycle.Calls.{Call, after_call, completes, abandons, fails, upload_fails}
use ambagrid.Edge.Store.History.{
  History, no_calls, one_call, Does, one_done, done_then, DoesAll, none_done, more_done,
  Does-weaken, DoesAll-weaken,
}
use ambagrid.Edge.Uploader.Client.{BatchResponse}
use ambagrid.Edge.Uploader.Batch.{
  Uploader, RecordFaults, retry_time, record_fallback_failure, reject_record, retry_record,
  process_record, process_response, retry_all,
}

-- The response accepts a sequence.
abbrev pub accepts : BatchResponse → ℕ → Bool
accepts response n = exists_where (λ m. m == n) response.accepted

-- What the response gives grounds for, for one record: completion if it accepts the record; if not,
-- a failed upload, and an abandonment exactly if this rejection uses up the budget.
abbrev pub Grounds : Uploader → BatchResponse → Record → Call → Type 0
Grounds u response r (completes f n at) = (n ≡ r.sequence) × (accepts response n ≡ true)
Grounds u response r (abandons f n cause) =
    (n ≡ r.sequence) × (accepts response n ≡ false) × (u.cfg.max_retries ≤ r.rejection_count + 1)
Grounds u response r (fails f n at cause rejected) =
    (n ≡ r.sequence)
    × (accepts response n ≡ false)
    × (rejected ≡ true)
    × (r.rejection_count + 1 < u.cfg.max_retries)
Grounds u response r (upload_fails f n) = (n ≡ r.sequence) × (accepts response n ≡ false)
Grounds u response r _ = ⊥

-- What a failed exchange gives grounds for, for one record: a retry that is no rejection.
abbrev pub Retries : Record → Call → Type 0
Retries r (fails f n at cause rejected) = (n ≡ r.sequence) × (rejected ≡ false)
Retries r (upload_fails f n) = n ≡ r.sequence
Retries r _ = ⊥

-- A call that settles a record for this batch.
abbrev pub Concludes : Record → Call → Type 0
Concludes r (completes f n at) = n ≡ r.sequence
Concludes r (abandons f n cause) = n ≡ r.sequence
Concludes r (fails f n at cause rejected) = n ≡ r.sequence
Concludes r _ = ⊥

module _ (s : Store) (u : Uploader) where
  failure_counted :
      (P : Call → Type 0) (f : Faults) (n : ℕ) (db : Db)
      → P (upload_fails f n)
      → History P s db (record_fallback_failure u f n db)
  unfolding record_fallback_failure after_call
  failure_counted P f n db p =
      let none_made = no_calls P s db in
      let counted = one_call P s (upload_fails f n) db p in ground arith

  reject_record-Does :
      (f : RecordFaults) (response : BatchResponse) (r : Record) (cause : Text) (at : ℕ) (db : Db)
      → accepts response r.sequence ≡ false
      → Does (Grounds u response r) (Concludes r) s db (reject_record u f r cause at db)
  unfolding reject_record mark_rejected after_call
  reject_record-Does f response r cause at db h =
      let G = Grounds u response r in
      elim (Bool-cases (leb u.cfg.max_retries (r.rejection_count + 1))) [
        | inl spent ↦ rw spent (
            done_then G (Concludes r) s
              (one_done G (Concludes r) s (abandons f.queue r.sequence cause) db (ground arith)
                refl)
              (failure_counted G f.tracker r.sequence _ (refl, h)))
        | inr left ↦ rw left (
            done_then G (Concludes r) s
              (one_done G (Concludes r) s
                (fails f.queue r.sequence (retry_time u.cfg r.attempt_count at) cause true) db
                (ground arith) refl)
              (failure_counted G f.tracker r.sequence _ (refl, h)))
      ]

  process_record-Does :
      (f : RecordFaults) (response : BatchResponse) (sent_at failed_at : ℕ) (r : Record) (db : Db)
      → Does
          (Grounds u response r)
          (Concludes r)
          s
          db
          (process_record u f response sent_at failed_at r db)
  unfolding process_record after_call
  process_record-Does f response sent_at failed_at r db =
      let G = Grounds u response r in
      elim (Bool-cases (accepts response r.sequence)) [
        | inl hit ↦
            rw hit (
              one_done G (Concludes r) s (completes f.queue r.sequence sent_at) db (refl, hit) refl)
        | inr miss ↦ rw miss (reject_record-Does f response r _ failed_at db miss)
      ]

  retry_record-Does :
      (f : RecordFaults) (r : Record) (cause : Text) (at : ℕ) (db : Db)
      → Does (Retries r) (Concludes r) s db (retry_record u f r cause at db)
  unfolding retry_record mark_failed after_call
  retry_record-Does f r cause at db =
      let R = Retries r in
      done_then R (Concludes r) s
        (one_done R (Concludes r) s
          (fails f.queue r.sequence (retry_time u.cfg r.attempt_count at) cause false) db
          (refl, refl) refl)
        (failure_counted R f.tracker r.sequence _ refl)

  pub process_response-DoesAll :
      (f : ℕ → RecordFaults) (response : BatchResponse) (sent_at failed_at : ℕ)
      (records : List Record) (db : Db)
      → DoesAll
          (λ c. AnyOf (λ r. Grounds u response r c) records)
          Concludes
          s
          records
          db
          (process_response u f response sent_at failed_at records db)
  unfolding process_response
  process_response-DoesAll f response sent_at failed_at [] db = none_done _ Concludes s db
  process_response-DoesAll f response sent_at failed_at (r ∷ rs) db =
      more_done _ Concludes s r rs
        (Does-weaken _ _ (Concludes r) s (λ c g. inl g)
          (process_record-Does (f r.sequence) response sent_at failed_at r db))
        (DoesAll-weaken _ _ Concludes s rs (λ c g. inr g)
          (process_response-DoesAll f response sent_at failed_at rs _))

  -- The bookkeeping of an answer makes only calls for which the answer gives grounds: a record is
  -- completed only if the response accepts it, and it is abandoned only if the response does not and
  -- this rejection is the last of its budget.
  pub process_response-History :
      (f : ℕ → RecordFaults) (response : BatchResponse) (sent_at failed_at : ℕ)
      (records : List Record) (db : Db)
      → History
          (λ c. AnyOf (λ r. Grounds u response r c) records)
          s
          db
          (process_response u f response sent_at failed_at records db)
  process_response-History f response sent_at failed_at records db =
      (process_response-DoesAll f response sent_at failed_at records db).history

  pub retry_all-DoesAll :
      (f : ℕ → RecordFaults) (cause : Text) (at : ℕ) (records : List Record) (db : Db)
      → DoesAll
          (λ c. AnyOf (λ r. Retries r c) records)
          Concludes
          s
          records
          db
          (retry_all u f cause at records db)
  unfolding retry_all
  retry_all-DoesAll f cause at [] db = none_done _ Concludes s db
  retry_all-DoesAll f cause at (r ∷ rs) db =
      more_done _ Concludes s r rs
        (Does-weaken _ _ (Concludes r) s (λ c g. inl g)
          (retry_record-Does (f r.sequence) r cause at db))
        (DoesAll-weaken _ _ Concludes s rs (λ c g. inr g) (retry_all-DoesAll f cause at rs _))
