-- ===== src/Edge/Store/Evolution.antt =====
-- Every call on the store changes the queue table along the life cycle of its rows.
use ambagrid.Common.{inl, inr, ℕ, ◌-◌, ◌≡◌, refl, true, arith, to_ms, Text}
use ambagrid.Edge.Domain.{
  Event, pending_upload, status_eq_iff, EventStatus, persisted, pending_upload, uploaded,
  acknowledged, expired, is_active,
}
use ambagrid.Edge.Store.Schema.{Db, row_active}
use ambagrid.Edge.Store.Capacity.{Store, Config, FileSystem}
use ambagrid.Edge.Errors.{Faults}
use ambagrid.Edge.Store.Mutations.{
  transition, mark_uploaded, insert, enqueue, persist, mark_pending_upload, ack, expire, new_row,
  add_row, row_at, to_status, upload_row, set_events,
}
use ambagrid.Edge.Store.Completion.{
  purge, row_sent, acknowledge_row, completed, abandoned_db, abandon_row, failed_db, fail_row,
  purgeable, recovered, recover_row, replay_row,
}
use ambagrid.Edge.Store.Cases.{
  complete_upload_cases, transition_cases, mark_uploaded_cases, abandon_cases, mark_failed_cases,
  recover_interrupted_cases, purge_cases, insert_cases,
}
use ambagrid.Edge.Store.Untouched.{
  Untouched, open_fallback_incident-Untouched, resolve_fallback_incident-Untouched,
  record_fallback_upload_failure-Untouched, record_upload_contact_failure-Untouched,
  record_upload_contact_success-Untouched, reserve_fallback_attempt-Untouched,
  record_fallback_attempt-Untouched, save_debounce_condition-Untouched,
  delete_debounce_condition-Untouched, reserve_heartbeat-Untouched, record_heartbeat-Untouched,
}
use ambagrid.Edge.Store.Lifecycle.{
  may_become, Changes, Keeps-refl, update_twice-Keeps, update_where-Keeps, delete_where-Keeps,
}
use ambagrid.Edge.Store.Lifecycle.Calls.{
  Call, after_call, enqueues, persists, marks_pending, acks, expires, marks_uploaded, completes,
  abandons, fails, purges, recovers, opens_incident, resolves_incident, upload_fails, contact_fails,
  contact_succeeds, reserves_attempt, records_attempt, saves_debounce, deletes_debounce,
  reserves_heartbeat, records_heartbeat,
}

module _ (c : Config) (db : Db) where
  same : Changes c db db
  same = inl (Keeps-refl db.events, refl)

  completed-Changes : (n at : ℕ) → Changes c db (completed n at db)
  unfolding completed
  completed-Changes n at =
      inl
        (update_where-Keeps (row_sent n) (acknowledge_row at) (λ r h. ground arith) db.events, refl)

  abandoned_db-Changes : (n : ℕ) (cause : Text) → Changes c db (abandoned_db n cause db)
  unfolding abandoned_db
  abandoned_db-Changes n cause = inl (
    update_where-Keeps (row_at n pending_upload) (abandon_row cause) (λ r h. ground arith)
        db.events,
    refl,
  )

  recovered-Changes : Changes c db (recovered db)
  unfolding recovered
  recovered-Changes =
      inl (update_where-Keeps row_active recover_row (λ r h. ground arith) db.events, refl)

  transition-Changes :
      (f : Faults) (n : ℕ) (from to : EventStatus)
      → may_become from to ≡ true
      → Changes c db (transition f n from to db).0
  unfolding row_at to_status set_events
  transition-Changes f n from to m = transition_cases (Changes c db) f n db same from to (
      inl (
        update_where-Keeps (row_at n from) (to_status to)
            (λ r h. ground (arith, status_eq_iff r.status from)) db.events,
        refl,
      ))

  mark_uploaded-Changes : (f : Faults) (n at : ℕ) → Changes c db (mark_uploaded f n at db).0
  unfolding row_at upload_row set_events
  mark_uploaded-Changes f n at = mark_uploaded_cases (Changes c db) f n db same at (
      inl (
        update_where-Keeps (row_at n pending_upload) (upload_row at) (λ r h. ground arith)
            db.events,
        refl,
      ))

  failed_db-Changes :
      (n increment at : ℕ) (cause : Text) → Changes c db (failed_db n increment at cause db)
  unfolding failed_db
  failed_db-Changes n increment at cause = inl (
    update_twice-Keeps (row_sent n) row_active (fail_row increment at cause) replay_row
        (λ r. ground arith) db.events,
    refl,
  )

  purge-Changes : (f : Faults) (now age : ℕ) → Changes c db (purge f now age db).0
  unfolding purgeable set_events
  purge-Changes f now age = purge_cases (Changes c db) f db same now age (
      inl
        (delete_where-Keeps (purgeable (to_ms (now - age))) (λ r h. ground arith) db.events, refl))

module _ (s : Store) (db : Db) where
  insert-Changes :
      (fs : FileSystem) (f : Faults) (now : ℕ) (e : Event) (status : EventStatus)
      → is_active status ≡ true
      → Changes s.cfg db (insert s fs f now e status db).0
  unfolding new_row add_row
  insert-Changes fs f now e status live =
      insert_cases (Changes s.cfg db) f db (same s.cfg db) s fs now e status λ fits reserve.
        inr (record {
          row = new_row s now e status db;
          at_end = refl;
          next_sequence = refl;
          counted = refl;
          live = live;
          sized = refl;
          fits = fits;
          reserve_kept = reserve;
          replays = refl;
          same_sync = refl;
        })

  untouched : {db' : Db} → Untouched db db' → Changes s.cfg db db'
  untouched u = inl (rw (u.same_events) (Keeps-refl db.events), u.same_last)

  -- Whatever SQLite and the file system answer, a call on the store either moves queue rows along
  -- the life cycle and deletes finished ones only, or appends one unfinished row under the next
  -- sequence that fits the capacity (and, if it is normal, the limit below the critical reserve).
  pub after_call-Changes : (call : Call) → Changes s.cfg db (after_call s call db)
  unfolding after_call
  after_call-Changes (enqueues fs f now e) =
      unfold enqueue in insert-Changes fs f now e pending_upload refl
  after_call-Changes (persists fs f now e) =
      unfold persist in insert-Changes fs f now e persisted refl
  after_call-Changes (marks_pending f n) =
      unfold mark_pending_upload in transition-Changes s.cfg db f n persisted pending_upload refl
  after_call-Changes (acks f n) =
      unfold ack in transition-Changes s.cfg db f n uploaded acknowledged refl
  after_call-Changes (expires f n) =
      unfold expire in transition-Changes s.cfg db f n acknowledged expired refl
  after_call-Changes (marks_uploaded f n at) = mark_uploaded-Changes s.cfg db f n at
  after_call-Changes (completes f n at) =
      complete_upload_cases (Changes s.cfg db) f n db (same s.cfg db) at
        (completed-Changes s.cfg db n at)
  after_call-Changes (abandons f n cause) =
      abandon_cases (Changes s.cfg db) f n db (same s.cfg db) cause
        (abandoned_db-Changes s.cfg db n _)
  after_call-Changes (fails f n at cause rejected) =
      mark_failed_cases (Changes s.cfg db) f n db (same s.cfg db) at cause rejected
        (failed_db-Changes s.cfg db n _ at cause)
  after_call-Changes (purges f now age) = purge-Changes s.cfg db f now age
  after_call-Changes (recovers f) =
      recover_interrupted_cases (Changes s.cfg db) f db (same s.cfg db) (recovered-Changes s.cfg db)
  after_call-Changes (opens_incident f e at) =
      untouched (open_fallback_incident-Untouched f db e at)
  after_call-Changes (resolves_incident f a k at) =
      untouched (resolve_fallback_incident-Untouched f db a k at)
  after_call-Changes (upload_fails f n) =
      untouched (record_fallback_upload_failure-Untouched f db n)
  after_call-Changes (contact_fails f cause) =
      untouched (record_upload_contact_failure-Untouched f db cause)
  after_call-Changes (contact_succeeds f at) =
      untouched (record_upload_contact_success-Untouched f db at)
  after_call-Changes (reserves_attempt f key at wait) =
      untouched (reserve_fallback_attempt-Untouched f db key at wait)
  after_call-Changes (records_attempt f r) = untouched (record_fallback_attempt-Untouched f db r)
  after_call-Changes (saves_debounce f a k since) =
      untouched (save_debounce_condition-Untouched f db a k since)
  after_call-Changes (deletes_debounce f a k) =
      untouched (delete_debounce_condition-Untouched f db a k)
  after_call-Changes (reserves_heartbeat f at) = untouched (reserve_heartbeat-Untouched f db at)
  after_call-Changes (records_heartbeat f n reason) =
      untouched (record_heartbeat-Untouched f db n reason)
