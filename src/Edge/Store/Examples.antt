-- ===== src/Edge/Store/Examples.antt =====
-- The queue's theorems at concrete inputs.
use ambagrid.Common.{
  ◌≡◌, ◌≢◌, ◌≤◌, refl, length, [], ◌∷◌, map, inl, All, count_where, true, false, ok, exists_where,
  ◌⊎◌, codes, hour, ◌+◌, ◌*◌, arith, to_ms, none, some, second,
}
use ambagrid.Edge.Errors.{no_faults}
use ambagrid.Edge.Domain.{
  normal, pending_upload, is_active, persisted, normal_suspended, QueueStats,
}
use ambagrid.Edge.Store.Schema.{Row, empty_db, queued_bytes, replay_pending, row_active}
use ambagrid.Edge.Store.Capacity.{Store, FileSystem, missing, payload_capacity}
use ambagrid.Edge.Store.Mutations.{insert, new_row}
use ambagrid.Edge.Store.Completion.{
  complete_upload, row_sent, mark_failed_with, recover_interrupted,
}
use ambagrid.Edge.Store.Queries.{ready_rows}
use ambagrid.Edge.Store.Lifecycle.{Changes, Survives, Holds}
use ambagrid.Edge.Store.Lifecycle.Calls.{
  after_call, after_calls, completes, purges, resolves_incident,
}
use ambagrid.Edge.Store.Evolution.{after_call-Changes}
use ambagrid.Edge.Store.Survival.{after_call-Survives}
use ambagrid.Edge.Store.Invariant.{
  Inv, Ordered, after_call-Inv, after_calls-Inv, empty_db-Inv, queued_bytes_bounded,
}
use ambagrid.Edge.Store.Initialize.{initialize}
use ambagrid.Edge.Store.Startup.{Claimed, initialize-Claimed}
use ambagrid.Edge.Store.Ready.{IsHead, OneEach, ready_rows-IsHead, ready_rows-OneEach}
use ambagrid.Edge.Store.Batches.{payload_total, ready_rows_bounded}
use ambagrid.Edge.Store.Completed.{complete_upload-idempotent}
use ambagrid.Edge.Store.Outcomes.{
  Recovered, mark_failed_with-postpones, recover_interrupted-Recovered,
}
use ambagrid.Edge.Store.Admission.{Outcome, insert-Outcome}
use ambagrid.Edge.Store.IncidentLife.{IncidentsChange}
use ambagrid.Edge.Store.IncidentHistory.{after_call-IncidentsChange}
use ambagrid.Edge.Fallback.Message.{tamper_detected}
use ambagrid.Edge.Samples.{
  sample_config, sample_store, sample_files, sample_time, sample_event, sample_calls, sample_db,
}

three_stored : sample_db.last_sequence ≡ 3
unfolding sample_db
three_stored = refl

-- The second record of the first meter waits for the first.
two_ready : map (λ r. r.sequence) (ready_rows sample_time 10 1_000 sample_db) ≡ 1 ∷ 3 ∷ []
unfolding sample_db
two_ready = refl

sample_Inv : Inv sample_config sample_db
unfolding sample_db
sample_Inv = after_calls-Inv sample_store sample_calls empty_db (empty_db-Inv sample_config)

after_call-Changes_example :
    Changes sample_config sample_db
      (after_call sample_store (completes no_faults 1 sample_time) sample_db)
after_call-Changes_example =
    after_call-Changes sample_store sample_db (completes no_faults 1 sample_time)

after_call-Inv_example :
    Inv sample_config (after_call sample_store (completes no_faults 1 sample_time) sample_db)
after_call-Inv_example =
    after_call-Inv sample_store (completes no_faults 1 sample_time) sample_db sample_Inv

queued_bytes_bounded_example :
    queued_bytes (after_calls sample_store sample_calls empty_db).events
    ≤ payload_capacity sample_config
queued_bytes_bounded_example = queued_bytes_bounded sample_store sample_calls

ready_rows-IsHead_example :
    All (IsHead sample_db.events (to_ms sample_time)) (ready_rows sample_time 10 1_000 sample_db)
ready_rows-IsHead_example = ready_rows-IsHead sample_time 10 1_000 sample_db

ready_rows-OneEach_example :
    Ordered 0 sample_db.last_sequence (ready_rows sample_time 10 1_000 sample_db)
    × OneEach (ready_rows sample_time 10 1_000 sample_db)
ready_rows-OneEach_example =
    ready_rows-OneEach sample_config sample_time 10 1_000 sample_db sample_Inv

ready_rows_bounded_example :
    (length (ready_rows sample_time 10 3 sample_db) ≤ 10)
    × ((length (ready_rows sample_time 10 3 sample_db) ≤ 1)
        ⊎ (payload_total (ready_rows sample_time 10 3 sample_db) ≤ 3))
ready_rows_bounded_example = ready_rows_bounded sample_time 10 3 sample_db

-- The first record of the sample.
abbrev first_row : Row
first_row =
    new_row sample_store sample_time (sample_event (codes "m1") normal) pending_upload empty_db

first_row-Holds : Holds first_row sample_db.events
unfolding sample_db
first_row-Holds = inl refl

after_call-Survives_example :
    Survives first_row
      (after_call sample_store
        (purges no_faults (sample_time + 1_000 * hour) hour)
        sample_db).events
unfolding sample_db
after_call-Survives_example =
    after_call-Survives sample_store (purges no_faults (sample_time + 1_000 * hour) hour) sample_db
      first_row refl first_row-Holds

complete_upload-idempotent_example :
    let db' = (complete_upload no_faults 1 sample_time sample_db).0 in
    (count_where (row_sent 1) db'.events ≡ 0)
    × (db'.sync.replay_mode_active ≡ replay_pending db'.events)
    × ((complete_upload no_faults 1 (sample_time + second) db').1 ≡ ok tt)
    × ((complete_upload no_faults 1 (sample_time + second) db').0.events ≡ db'.events)
unfolding sample_db
complete_upload-idempotent_example =
    complete_upload-idempotent sample_config no_faults 1 sample_time (sample_time + second)
      sample_db sample_Inv refl

mark_failed_with-postpones_example :
    let db' =
      (mark_failed_with no_faults 1 (sample_time + second) (codes "HTTP 503") false sample_db).0 in
    All (λ r. r.sequence ≢ 1) (ready_rows sample_time 10 1_000 db')
    × All (λ r. is_active r.status ≡ true → r.replay_required ≡ true) db'.events
    × (db'.sync.replay_mode_active ≡ true)
unfolding sample_db
mark_failed_with-postpones_example =
    mark_failed_with-postpones no_faults 1 (sample_time + second) (codes "HTTP 503") false sample_db
      sample_time 10 1_000 refl (omega arith)

recover_interrupted-Recovered_example :
    All Recovered (recover_interrupted no_faults sample_db).0.events
    × ((recover_interrupted no_faults sample_db).0.sync.replay_mode_active
        ≡ exists_where row_active sample_db.events)
unfolding sample_db
recover_interrupted-Recovered_example = recover_interrupted-Recovered no_faults sample_db refl

insert-Outcome_example :
    let e = sample_event (codes "m3") normal in
    Outcome sample_store sample_files sample_time e persisted sample_db
      (insert sample_store sample_files no_faults sample_time e persisted sample_db)
unfolding sample_db
insert-Outcome_example =
    insert-Outcome sample_store sample_files sample_time (sample_event (codes "m3") normal)
      persisted sample_db

-- A store whose limit for normal events is just the six bytes of the sample.
abbrev small_store : Store
small_store = record sample_store { cfg = record sample_config { max_storage_bytes = 11 } }

abbrev no_files : FileSystem
no_files = record sample_files { database_file = missing }

abbrev small_stats : QueueStats
small_stats = record {
  depth = 3;
  payload_bytes = 6;
  capacity_bytes = 7;
  normal_admission_bytes = 6;
  disk_bytes = 0;
  filesystem_free_bytes = 4_096_000_000;
  oldest_age = 0;
  oldest_pending_at = some sample_time;
  last_event_timestamp = some sample_time;
  last_successful_sync_at = none;
  last_failed_sync_reason = [];
  abandoned_total = 0;
  state = normal_suspended;
}

after_call-IncidentsChange_example : IncidentsChange sample_db (
    after_call sample_store
      (resolves_incident no_faults (codes "m1") tamper_detected (sample_time + hour))
      sample_db)
after_call-IncidentsChange_example =
    after_call-IncidentsChange sample_db sample_store
      (resolves_incident no_faults (codes "m1") tamper_detected (sample_time + hour))

initialize-Claimed_example :
    Claimed sample_config sample_db
      (initialize no_faults no_faults no_faults sample_config sample_db).0
unfolding sample_db initialize
initialize-Claimed_example =
    initialize-Claimed no_faults no_faults no_faults sample_config sample_db refl
