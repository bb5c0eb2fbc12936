-- ===== src/Edge/Store/IncidentHistory.antt =====
-- Incidents over every call on the store, and what the table never holds twice.
use ambagrid.Common.{
  ℕ, ◌≡◌, refl, false, List, [], ◌∷◌, ◌++◌, arith, exists_where, inl, inr, text_eq_iff,
}
use ambagrid.Edge.Errors.{Faults}
use ambagrid.Edge.Domain.{
  Event, EventStatus, persisted, pending_upload, uploaded, acknowledged, expired,
}
use ambagrid.Edge.Store.Schema.{Db, Incident}
use ambagrid.Edge.Store.Capacity.{Store, FileSystem}
use ambagrid.Edge.Store.Mutations.{
  insert, enqueue, persist, transition, mark_pending_upload, ack, expire, add_row, set_events,
}
use ambagrid.Edge.Store.Completion.{
  contact_success, contact_failure, abandoned_db, failed_db, recovered,
}
use ambagrid.Edge.Store.Cases.{
  complete_upload_cases, transition_cases, mark_uploaded_cases, abandon_cases, mark_failed_cases,
  recover_interrupted_cases, purge_cases, insert_cases,
}
use ambagrid.Edge.Store.Incidents.{
  clashes, record_upload_contact_failure, record_upload_contact_success,
}
use ambagrid.Edge.Store.Debounces.{save_debounce_condition, delete_debounce_condition}
use ambagrid.Edge.Store.Heartbeats.{reserve_heartbeat, heartbeat_reserved, record_heartbeat}
use ambagrid.Edge.Store.IncidentLife.{
  IncidentMove, Moves, ended, moved, IncidentsChange, same, kept, completed-IncidentsChange,
  open-IncidentsChange, resolve-IncidentsChange, failure-IncidentsChange, reserve-IncidentsChange,
  record-IncidentsChange,
}
use ambagrid.Edge.Store.Lifecycle.Calls.{
  Call, after_call, after_calls, enqueues, persists, marks_pending, acks, expires, marks_uploaded,
  completes, abandons, fails, purges, recovers, opens_incident, resolves_incident, upload_fails,
  contact_fails, contact_succeeds, reserves_attempt, records_attempt, saves_debounce,
  deletes_debounce, reserves_heartbeat, records_heartbeat,
}

module _ (db : Db) where
  insert-IncidentsChange :
      (s : Store) (fs : FileSystem) (f : Faults) (now : ℕ) (e : Event) (status : EventStatus)
      → IncidentsChange db (insert s fs f now e status db).0
  unfolding add_row
  insert-IncidentsChange s fs f now e status =
      insert_cases (IncidentsChange db) f db (same db) s fs now e status λ _ _. same db

  transition-IncidentsChange :
      (f : Faults) (n : ℕ) (from to : EventStatus)
      → IncidentsChange db (transition f n from to db).0
  unfolding set_events
  transition-IncidentsChange f n from to =
      transition_cases (IncidentsChange db) f n db (same db) from to (same db)

  -- Whatever SQLite answers, a call on the store keeps every incident with its identity and facts,
  -- never undoes a resolution, a delivery or a sent SMS and never lowers a counter, or it opens one
  -- new incident that clashes with no other: one with another key, another sequence, and no
  -- unresolved incident of the same asset and code.
  pub after_call-IncidentsChange :
      (s : Store) (call : Call) → IncidentsChange db (after_call s call db)
  unfolding after_call set_events contact_success contact_failure abandoned_db failed_db recovered
      record_upload_contact_failure record_upload_contact_success save_debounce_condition
      delete_debounce_condition reserve_heartbeat heartbeat_reserved record_heartbeat
  after_call-IncidentsChange s (enqueues fs f now e) =
      unfold enqueue in insert-IncidentsChange s fs f now e pending_upload
  after_call-IncidentsChange s (persists fs f now e) =
      unfold persist in insert-IncidentsChange s fs f now e persisted
  after_call-IncidentsChange s (marks_pending f n) =
      unfold mark_pending_upload in transition-IncidentsChange f n persisted pending_upload
  after_call-IncidentsChange s (acks f n) =
      unfold ack in transition-IncidentsChange f n uploaded acknowledged
  after_call-IncidentsChange s (expires f n) =
      unfold expire in transition-IncidentsChange f n acknowledged expired
  after_call-IncidentsChange s (marks_uploaded f n at) =
      mark_uploaded_cases (IncidentsChange db) f n db (same db) at (same db)
  after_call-IncidentsChange s (completes f n at) =
      complete_upload_cases (IncidentsChange db) f n db (same db) at
        (completed-IncidentsChange db n at)
  after_call-IncidentsChange s (abandons f n cause) =
      abandon_cases (IncidentsChange db) f n db (same db) cause (same db)
  after_call-IncidentsChange s (fails f n at cause rejected) =
      mark_failed_cases (IncidentsChange db) f n db (same db) at cause rejected (same db)
  after_call-IncidentsChange s (purges f now age) =
      purge_cases (IncidentsChange db) f db (same db) now age (same db)
  after_call-IncidentsChange s (recovers f) =
      recover_interrupted_cases (IncidentsChange db) f db (same db) (same db)
  after_call-IncidentsChange s (opens_incident f e at) = open-IncidentsChange db f e at
  after_call-IncidentsChange s (resolves_incident f a k at) = resolve-IncidentsChange db f a k at
  after_call-IncidentsChange s (upload_fails f n) = failure-IncidentsChange db f n
  after_call-IncidentsChange s (contact_fails f cause) = kept db _ (ground arith)
  after_call-IncidentsChange s (contact_succeeds f at) = kept db _ (ground arith)
  after_call-IncidentsChange s (reserves_attempt f key at wait) =
      reserve-IncidentsChange db f key at wait
  after_call-IncidentsChange s (records_attempt f r) = record-IncidentsChange db f r
  after_call-IncidentsChange s (saves_debounce f a k since) = kept db _ (ground arith)
  after_call-IncidentsChange s (deletes_debounce f a k) = kept db _ (ground arith)
  after_call-IncidentsChange s (reserves_heartbeat f at) = kept db _ (ground arith)
  after_call-IncidentsChange s (records_heartbeat f n reason) = kept db _ (ground arith)

-- No two incidents clash.
abbrev pub Distinct : List Incident → Type 0
Distinct [] = Unit
Distinct (i ∷ is) = (exists_where (clashes i) is ≡ false) × Distinct is

Moves-clashes :
    (i i' : Incident)
    → IncidentMove i i'
    → {js js' : List Incident} → Moves js js'
    → exists_where (clashes i) js ≡ false
    → exists_where (clashes i') js' ≡ false
unfolding exists_where clashes
Moves-clashes i i' m ended h = refl
Moves-clashes i i' m (moved n k) h =
    let rest = Moves-clashes i i' m k in
    ground (
      arith, m.stays_resolved, n.stays_resolved, m.same_key, n.same_key, m.same_sequence,
      n.same_sequence, m.same_asset, n.same_asset, m.same_code, n.same_code,
    )

Moves-Distinct : {is js : List Incident} → Moves is js → Distinct is → Distinct js
Moves-Distinct ended d = d
Moves-Distinct (moved {i = i} {j = j} m k) d = (Moves-clashes i j m k d.0, Moves-Distinct k d.1)

appended-clashes :
    (i j : Incident) (is : List Incident)
    → exists_where (clashes i) is ≡ false
    → clashes i j ≡ false
    → exists_where (clashes i) (is ++ j ∷ []) ≡ false
unfolding exists_where
appended-clashes i j [] h e = ground arith
appended-clashes i j (k ∷ is) h e = ground (arith, appended-clashes i j is)

clashes_sym : (i j : Incident) → clashes i j ≡ false → clashes j i ≡ false
unfolding clashes
clashes_sym i j h = ground (
  arith,
  text_eq_iff i.event_key j.event_key,
  text_eq_iff j.event_key i.event_key,
  text_eq_iff i.asset_id j.asset_id,
  text_eq_iff j.asset_id i.asset_id,
  text_eq_iff i.code j.code,
  text_eq_iff j.code i.code,
)

pub append-Distinct :
    (j : Incident) (is : List Incident)
    → exists_where (clashes j) is ≡ false
    → Distinct is
    → Distinct (is ++ j ∷ [])
unfolding exists_where
append-Distinct j [] h d = (refl, tt)
append-Distinct j (i ∷ is) h d = (
  appended-clashes i j is d.0 (clashes_sym j i (ground arith)),
  append-Distinct j is (ground arith) d.1,
)

IncidentsChange-Distinct :
    (db db' : Db) → IncidentsChange db db' → Distinct db.incidents → Distinct db'.incidents
IncidentsChange-Distinct db db' (inl m) d = Moves-Distinct m d
IncidentsChange-Distinct db db' (inr o) d =
    rw o.at_end (append-Distinct o.incident db.incidents o.fresh d)

-- The invariant of the incidents survives every history of calls and failures: no two rows of
-- `fallback_incidents` share a key or a sequence, and no two unresolved ones share asset and code.
pub after_calls-Distinct :
    (s : Store) (calls : List Call) (db : Db)
    → Distinct db.incidents
    → Distinct (after_calls s calls db).incidents
unfolding after_calls
after_calls-Distinct s [] db d = d
after_calls-Distinct s (call ∷ calls) db d =
    after_calls-Distinct s calls (after_call s call db)
      (IncidentsChange-Distinct db (after_call s call db) (after_call-IncidentsChange db s call) d)
