-- ===== src/Edge/Store/Replay.antt =====
-- Replay mode: rows that an outage left behind are marked, and the mode is on while one is left.
use ambagrid.Common.{
  ℕ, ◌-◌, ◌≡◌, refl, Bool, true, List, [], ◌∷◌, ◌++◌, Text, arith, update_where, delete_where,
  exists_where, to_ms,
}
use ambagrid.Edge.Errors.{Faults}
use ambagrid.Edge.Domain.{
  Event, EventStatus, persisted, pending_upload, uploaded, acknowledged, expired, is_active,
  status_eq_iff,
}
use ambagrid.Edge.Store.Schema.{Db, Row, row_replays, replay_pending}
use ambagrid.Edge.Store.Capacity.{Store, FileSystem}
use ambagrid.Edge.Store.Lifecycle.Calls.{
  Call, after_call, enqueues, persists, marks_pending, acks, expires, marks_uploaded, completes,
  abandons, fails, purges, recovers, opens_incident, resolves_incident, upload_fails, contact_fails,
  contact_succeeds, reserves_attempt, records_attempt, saves_debounce, deletes_debounce,
  reserves_heartbeat, records_heartbeat,
}
use ambagrid.Edge.Store.Untouched.{
  Untouched, open_fallback_incident-Untouched, resolve_fallback_incident-Untouched,
  record_fallback_upload_failure-Untouched, record_upload_contact_failure-Untouched,
  record_upload_contact_success-Untouched, reserve_fallback_attempt-Untouched,
  record_fallback_attempt-Untouched, save_debounce_condition-Untouched,
  delete_debounce_condition-Untouched, reserve_heartbeat-Untouched, record_heartbeat-Untouched,
}
use ambagrid.Edge.Store.Mutations.{
  enqueue, persist, insert, mark_pending_upload, ack, expire, transition, mark_uploaded, new_row,
  add_row, row_at, to_status, upload_row, set_events,
}
use ambagrid.Edge.Store.Completion.{
  completed, abandoned_db, abandon_row, failed_db, purgeable, purge, recovered,
}
use ambagrid.Edge.Store.Cases.{
  complete_upload_cases, transition_cases, mark_uploaded_cases, abandon_cases, mark_failed_cases,
  recover_interrupted_cases, purge_cases, insert_cases,
}

-- A row that waits to be replayed means that replay mode is on.
abbrev pub ReplayKnown : Db → Type 0
ReplayKnown db = replay_pending db.events ≡ true → db.sync.replay_mode_active ≡ true

pub replay_pending-update_where :
    (p : Row → Bool) (f : Row → Row)
    → ((r : Row) → p r ≡ true → row_replays (f r) ≡ true → row_replays r ≡ true)
    → (rs : List Row) → replay_pending (update_where p f rs) ≡ true
    → replay_pending rs ≡ true
unfolding replay_pending exists_where update_where
replay_pending-update_where p f h [] e = e
replay_pending-update_where p f h (r ∷ rs) e =
    ground (arith, h r, replay_pending-update_where p f h rs)

replay_pending-delete_where :
    (p : Row → Bool) (rs : List Row)
    → replay_pending (delete_where p rs) ≡ true
    → replay_pending rs ≡ true
unfolding replay_pending exists_where delete_where
replay_pending-delete_where p [] e = e
replay_pending-delete_where p (r ∷ rs) e = ground (arith, replay_pending-delete_where p rs)

replay_pending-append :
    (rs : List Row) (r : Row) (mode : Bool)
    → r.replay_required ≡ mode
    → (replay_pending rs ≡ true → mode ≡ true)
    → replay_pending (rs ++ r ∷ []) ≡ true
    → mode ≡ true
unfolding replay_pending exists_where
replay_pending-append [] r mode e h t = ground arith
replay_pending-append (x ∷ rs) r mode e h t = ground (arith, replay_pending-append rs r mode e)

module _ (db : Db) (known : ReplayKnown db) where
  transition-ReplayKnown :
      (f : Faults) (n : ℕ) (from to : EventStatus)
      → (is_active to ≡ true → is_active from ≡ true)
      → ReplayKnown (transition f n from to db).0
  unfolding row_at to_status set_events
  transition-ReplayKnown f n from to h = transition_cases ReplayKnown f n db known from to λ t.
      known (
        replay_pending-update_where (row_at n from) (to_status to)
          (λ r e u. ground (arith, status_eq_iff r.status from)) db.events t)

  mark_uploaded-ReplayKnown : (f : Faults) (n at : ℕ) → ReplayKnown (mark_uploaded f n at db).0
  unfolding row_at upload_row set_events
  mark_uploaded-ReplayKnown f n at = mark_uploaded_cases ReplayKnown f n db known at λ t. known (
      replay_pending-update_where (row_at n pending_upload) (upload_row at) (λ r e u. ground arith)
        db.events t)

  abandoned_db-ReplayKnown : (n : ℕ) (cause : Text) → ReplayKnown (abandoned_db n cause db)
  unfolding abandoned_db
  abandoned_db-ReplayKnown n cause t = known (
      replay_pending-update_where (row_at n pending_upload) (abandon_row cause)
        (λ r e u. ground arith) db.events t)

  insert-ReplayKnown :
      (s : Store) (fs : FileSystem) (f : Faults) (now : ℕ) (e : Event) (status : EventStatus)
      → ReplayKnown (insert s fs f now e status db).0
  unfolding new_row add_row
  insert-ReplayKnown s fs f now e status =
      insert_cases ReplayKnown f db known s fs now e status λ fits reserve t.
        replay_pending-append db.events (new_row s now e status db) db.sync.replay_mode_active refl
          known t

  purge-ReplayKnown : (f : Faults) (now age : ℕ) → ReplayKnown (purge f now age db).0
  unfolding set_events
  purge-ReplayKnown f now age =
      purge_cases ReplayKnown f db known now age
        λ t. known (replay_pending-delete_where (purgeable (to_ms (now - age))) db.events t)

completed-ReplayKnown : (n at : ℕ) (db : Db) → ReplayKnown (completed n at db)
unfolding completed
completed-ReplayKnown n at db t = t

failed_db-ReplayKnown :
    (n increment at : ℕ) (cause : Text) (db : Db) → ReplayKnown (failed_db n increment at cause db)
unfolding failed_db
failed_db-ReplayKnown n increment at cause db t = refl

recovered-ReplayKnown : (db : Db) → ReplayKnown (recovered db)
unfolding recovered
recovered-ReplayKnown db t = t

module _ (s : Store) (db : Db) (known : ReplayKnown db) where
  stays : {db' : Db} → Untouched db db' → ReplayKnown db'
  stays u t = let before = rw u.same_events at t in u.replay_stays before (known before)

  pub after_call-ReplayKnown : (call : Call) → ReplayKnown (after_call s call db)
  unfolding after_call
  after_call-ReplayKnown (enqueues fs f now e) =
      unfold enqueue in insert-ReplayKnown db known s fs f now e pending_upload
  after_call-ReplayKnown (persists fs f now e) =
      unfold persist in insert-ReplayKnown db known s fs f now e persisted
  after_call-ReplayKnown (marks_pending f n) =
      unfold mark_pending_upload in
      transition-ReplayKnown db known f n persisted pending_upload (λ h. refl)
  after_call-ReplayKnown (acks f n) =
      unfold ack in transition-ReplayKnown db known f n uploaded acknowledged (λ h. refl)
  after_call-ReplayKnown (expires f n) =
      unfold expire in transition-ReplayKnown db known f n acknowledged expired (λ h. h)
  after_call-ReplayKnown (marks_uploaded f n at) = mark_uploaded-ReplayKnown db known f n at
  after_call-ReplayKnown (completes f n at) =
      complete_upload_cases ReplayKnown f n db known at (completed-ReplayKnown n at db)
  after_call-ReplayKnown (abandons f n cause) =
      abandon_cases ReplayKnown f n db known cause (abandoned_db-ReplayKnown db known n _)
  after_call-ReplayKnown (fails f n at cause rejected) =
      mark_failed_cases ReplayKnown f n db known at cause rejected
        (failed_db-ReplayKnown n _ at cause db)
  after_call-ReplayKnown (purges f now age) = purge-ReplayKnown db known f now age
  after_call-ReplayKnown (recovers f) =
      recover_interrupted_cases ReplayKnown f db known (recovered-ReplayKnown db)
  after_call-ReplayKnown (opens_incident f e at) =
      stays (open_fallback_incident-Untouched f db e at)
  after_call-ReplayKnown (resolves_incident f a k at) =
      stays (resolve_fallback_incident-Untouched f db a k at)
  after_call-ReplayKnown (upload_fails f n) =
      stays (record_fallback_upload_failure-Untouched f db n)
  after_call-ReplayKnown (contact_fails f cause) =
      stays (record_upload_contact_failure-Untouched f db cause)
  after_call-ReplayKnown (contact_succeeds f at) =
      stays (record_upload_contact_success-Untouched f db at)
  after_call-ReplayKnown (reserves_attempt f key at wait) =
      stays (reserve_fallback_attempt-Untouched f db key at wait)
  after_call-ReplayKnown (records_attempt f r) = stays (record_fallback_attempt-Untouched f db r)
  after_call-ReplayKnown (saves_debounce f a k since) =
      stays (save_debounce_condition-Untouched f db a k since)
  after_call-ReplayKnown (deletes_debounce f a k) =
      stays (delete_debounce_condition-Untouched f db a k)
  after_call-ReplayKnown (reserves_heartbeat f at) = stays (reserve_heartbeat-Untouched f db at)
  after_call-ReplayKnown (records_heartbeat f n reason) =
      stays (record_heartbeat-Untouched f db n reason)
