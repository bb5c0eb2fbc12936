-- ===== src/Edge/Samples.antt =====
-- Concrete configurations, events and databases for the tests of the edge agent.
use ambagrid.Common.{ℕ, none, some, List, [], ◌∷◌, Text, codes}
use ambagrid.Edge.Errors.{no_faults}
use ambagrid.Edge.Domain.{Event, Priority, normal, critical, smart_meter}
use ambagrid.Edge.Store.Schema.{Db, empty_db}
use ambagrid.Edge.Store.Capacity.{Config, Store, FileSystem, size, missing}
use ambagrid.Edge.Store.Lifecycle.Calls.{Call, after_calls, enqueues, opens_incident}
use ambagrid.Edge.Fallback.Message.{FallbackEvent, tamper_detected}
use ambagrid.Edge.Store.Schema.{empty_db, queued_bytes, replay_pending, event_key}
use ambagrid.Edge.Store.Capacity.{
  validate_config, default_event_bytes, payload_capacity, normal_admission_limit, database_budget,
  wal_budget, write_headroom, filesystem_free_bytes, queue_disk_bytes, check_admission,
}
use ambagrid.Edge.Store.Mutations.{
  null_string, validate_event, new_row, add_row, insert, enqueue, persist, row_at, already,
  set_events, to_status, transition, mark_pending_upload, ack, expire, upload_row, mark_uploaded,
}
use ambagrid.Edge.Store.Completion.{
  row_sent, acknowledge_row, contact_success, completed, check_completed, complete_upload,
  abandon_row, abandoned_db, abandon, fail_row, contact_failure, failed_db, mark_failed_with,
  mark_failed, mark_rejected, purgeable, purge, recover_row, recovered, recover_interrupted,
}
use ambagrid.Edge.Store.Queries.{
  is_due, blocks, eligible, to_record, fill_batch, ready_rows, ready, get_record, min_where,
  max_where, queue_state, age_of, stats,
}
use ambagrid.Edge.Store.Incidents.{
  clashes, insert_incident, new_incident, open_incident_row, open_fallback_incident, open_for,
  resolve_fallback_incident, record_fallback_upload_failure, record_upload_contact_failure,
  record_upload_contact_success, undelivered, attempts_since, attempts_of, opened_before,
  insert_ordered, in_order, to_candidate, fallback_candidates,
}
use ambagrid.Edge.Store.Lifecycle.Calls.{after_call, after_calls}
use ambagrid.Edge.Fallback.Message.{
  code_valid, token_byte, all_token_bytes, invalid_token, gsm_septets, unix_text, join,
  message_text, format,
}
use ambagrid.Edge.Domain.{asset_valid, topic_segment}
use ambagrid.Common.{
  update_where, select_where, delete_where, count_where, sum_where, exists_where, find_where,
  text_eq, is_empty, decimal,
}

abbrev pub sample_config : Config
sample_config = record {
  path = codes "/var/lib/queue.db";
  site_id = codes "site-1";
  gateway_id = codes "gw-1";
  max_storage_bytes = 1_048_576;
  max_event_bytes = 1_024;
  warning_percent = 80;
  critical_reserve_percent = 10;
  min_filesystem_free_bytes = 0;
}

abbrev pub sample_store : Store
sample_store = record { cfg = sample_config; page_size = 4_096 }

-- A disk with room, on which only the database file stands.
abbrev pub sample_files : FileSystem
sample_files = record {
  statfs = some (1_000_000, 4_096);
  database_file = size 8_192;
  wal_file = missing;
  shm_file = missing;
}

-- 1_000 hours after the zero time.
abbrev pub sample_time : ℕ
sample_time = 3_600_000_000_000_000

abbrev pub sample_event : Text → Priority → Event
sample_event device priority = record {
  device_id = device;
  asset_type = smart_meter;
  mqtt_topic = codes "lagos/site-1/smartmeter/m1/telemetry";
  payload = codes "{}";
  priority = priority;
  event_timestamp = sample_time;
  edge_received_at = sample_time;
  critical_code = [];
  critical_value = none;
}

abbrev pub sample_tamper : FallbackEvent
sample_tamper = record {
  site_id = codes "site-1";
  asset_id = codes "m1";
  sequence = 1;
  code = tamper_detected;
  temperature_c = none;
  occurred_at = sample_time;
}

-- Two records of one meter and one of another, and an incident for the first.
abbrev pub sample_calls : List Call
sample_calls =
    enqueues sample_files no_faults sample_time (sample_event (codes "m1") normal)
    ∷ enqueues sample_files no_faults sample_time (sample_event (codes "m1") critical)
    ∷ enqueues sample_files no_faults sample_time (sample_event (codes "m2") normal)
    ∷ opens_incident no_faults sample_tamper sample_time
    ∷ []

unfoldable pub sample_db : Db
unfolding empty_db queued_bytes replay_pending event_key validate_config default_event_bytes
    payload_capacity normal_admission_limit database_budget wal_budget write_headroom
    filesystem_free_bytes queue_disk_bytes check_admission null_string validate_event new_row
    add_row insert enqueue persist row_at already set_events to_status transition
    mark_pending_upload ack expire upload_row mark_uploaded row_sent acknowledge_row contact_success
    completed check_completed complete_upload abandon_row abandoned_db abandon fail_row
    contact_failure failed_db mark_failed_with mark_failed mark_rejected purgeable purge recover_row
    recovered recover_interrupted is_due blocks eligible to_record fill_batch ready_rows ready
    get_record min_where max_where queue_state age_of stats clashes insert_incident new_incident
    open_incident_row open_fallback_incident open_for resolve_fallback_incident
    record_fallback_upload_failure record_upload_contact_failure record_upload_contact_success
    undelivered attempts_since attempts_of opened_before insert_ordered in_order to_candidate
    fallback_candidates after_call after_calls code_valid token_byte all_token_bytes invalid_token
    gsm_septets unix_text join message_text format asset_valid topic_segment update_where
    select_where delete_where count_where sum_where exists_where find_where text_eq is_empty decimal
sample_db = after_calls sample_store sample_calls empty_db
