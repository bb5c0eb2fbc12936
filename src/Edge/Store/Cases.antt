-- ===== src/Edge/Store/Cases.antt =====
-- The two ways in which each operation can leave the database: as it was, or changed by all of its
-- statements. Every later proof goes through these rules, with the operations shut.
use ambagrid.Common.{
  ◌-◌, to_ms, update_where, delete_where, if◌then◌else◌, ℕ, ◌+◌, ◌≤◌, ◌≡◌, Bool, true, Text, length,
  arith, take,
}
use ambagrid.Edge.Errors.{Faults}
use ambagrid.Edge.Domain.{pending_upload, Event, EventStatus, is_normal}
use ambagrid.Edge.Store.Schema.{Db, queued_bytes}
use ambagrid.Edge.Store.Capacity.{Store, FileSystem, payload_capacity, normal_admission_limit}
use ambagrid.Edge.Store.Mutations.{
  upload_row, to_status, set_events, max_failure_cause_bytes, row_at, insert, new_row, add_row,
  transition, mark_uploaded,
}
use ambagrid.Edge.Store.Completion.{
  purgeable, purge, completed, complete_upload, abandoned_db, abandon, failed_db, mark_failed_with,
  recovered, recover_interrupted,
}

module _ (P : Db → Type 0) (f : Faults) (n : ℕ) (db : Db) (same : P db) where
  pub complete_upload_cases : (at : ℕ) → P (completed n at db) → P (complete_upload f n at db).0
  unfolding complete_upload
  complete_upload_cases at p = ground arith

  pub transition_cases :
      (from to : EventStatus)
      → P (set_events (update_where (row_at n from) (to_status to) db.events) db)
      → P (transition f n from to db).0
  unfolding transition
  transition_cases from to p = ground arith

  pub mark_uploaded_cases :
      (at : ℕ)
      → P (set_events (update_where (row_at n pending_upload) (upload_row at) db.events) db)
      → P (mark_uploaded f n at db).0
  unfolding mark_uploaded
  mark_uploaded_cases at p = ground arith

  pub abandon_cases :
      (cause : Text)
      → P (abandoned_db n (take max_failure_cause_bytes cause) db)
      → P (abandon f n cause db).0
  unfolding abandon
  abandon_cases cause p = ground arith

  pub mark_failed_cases :
      (retry_at : ℕ) (cause : Text) (rejected : Bool)
      → P (failed_db n (if rejected then 1 else 0) retry_at cause db)
      → P (mark_failed_with f n retry_at cause rejected db).0
  unfolding mark_failed_with
  mark_failed_cases retry_at cause rejected p = ground arith

module _ (P : Db → Type 0) (f : Faults) (db : Db) (same : P db) where
  pub recover_interrupted_cases : P (recovered db) → P (recover_interrupted f db).0
  unfolding recover_interrupted
  recover_interrupted_cases p = ground arith

  pub purge_cases :
      (now retention : ℕ)
      → P (set_events (delete_where (purgeable (to_ms (now - retention))) db.events) db)
      → P (purge f now retention db).0
  unfolding purge set_events
  purge_cases now retention p = ground arith

  pub insert_cases :
      (s : Store) (fs : FileSystem) (now : ℕ) (e : Event) (status : EventStatus)
      → (queued_bytes db.events + length e.payload ≤ payload_capacity s.cfg
          → (is_normal e.priority ≡ true
              → queued_bytes db.events + length e.payload ≤ normal_admission_limit s.cfg)
          → P (add_row (new_row s now e status db) db))
      → P (insert s fs f now e status db).0
  unfolding insert
  insert_cases s fs now e status q = ground arith
