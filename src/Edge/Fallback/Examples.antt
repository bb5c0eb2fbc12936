-- ===== src/Edge/Fallback/Examples.antt =====
-- The coordinator's theorems at concrete inputs.
use ambagrid.Common.{
  ℕ, ◌+◌, ◌-◌, ◌*◌, ◌≡◌, ◌≤◌, ◌⊎◌, none, some, true, codes, length, hour, minute, second, to_ms,
}
use ambagrid.Edge.Errors.{no_faults}
use ambagrid.Edge.Store.Schema.{Db}
use ambagrid.Edge.Store.Incidents.{attempts_since}
use ambagrid.Edge.Fallback.Message.{Candidate}
use ambagrid.Edge.Fallback.Heartbeat.{HeartbeatConfig, HeartbeatState}
use ambagrid.Edge.Fallback.Policy.{Config}
use ambagrid.Edge.Fallback.Coordinator.{Answers, HeartbeatAnswers, run_once}
use ambagrid.Edge.Fallback.SqliteStore.{sqlite_store, sqlite_run-Ran}
use ambagrid.Edge.Samples.{sample_time, sample_tamper, sample_db}

abbrev policy : Config
policy = record {
  destination = codes "+2348000000000";
  poll_interval = 5 * second;
  failure_threshold = 3;
  offline_after = 10 * minute;
  max_attempts = 3;
  hourly_limit = 4;
  daily_limit = 10;
  retry_interval = 8 * minute;
}

abbrev answers : Answers
answers = record { reserve = no_faults; modem = none; record_attempt = no_faults }

abbrev heartbeat_answers : HeartbeatAnswers
heartbeat_answers = record {
  state = no_faults;
  reserve = no_faults;
  modem = none;
  record_heartbeat = no_faults;
}

abbrev beats : HeartbeatConfig
beats = record {
  site_id = codes "site-1";
  gateway_id = codes "gw-1";
  interval = 60 * minute;
  daily_limit = 24;
}

sqlite_run-Ran_example :
    let now = sample_time + hour in
    let l =
      (run_once sqlite_store policy
        (some beats)
        sample_time
        no_faults
        (λ _. answers)
        heartbeat_answers
        now
        sample_db).1 in
    let in_last = λ (d : ℕ) (db : Db). attempts_since (to_ms (now - d)) db.attempts in
    (in_last hour l.store ≡ in_last hour sample_db + l.run_attempts)
    × (in_last (24 * hour) l.store ≡ in_last (24 * hour) sample_db + l.run_attempts)
    × ((l.run_attempts ≡ 0) ⊎ (in_last hour l.store ≤ 4) × (in_last (24 * hour) l.store ≤ 10))
    × (l.run_attempts ≤ length l.outbox)
    × (length l.outbox ≤ l.run_attempts + 1)
sqlite_run-Ran_example =
    sqlite_run-Ran policy (some beats) sample_time no_faults (λ _. answers) heartbeat_answers
      (sample_time + hour) sample_db

abbrev candidate : Candidate
candidate = record {
  event = sample_tamper;
  opened_at = sample_time;
  upload_failures = 1;
  last_upload_success = none;
  attempts = 1;
  attempts_last_hour = 1;
  attempts_last_day = 1;
  next_attempt_at = some (sample_time + 8 * minute);
}

abbrev beat_state : HeartbeatState
beat_state = record {
  last_upload_success = some sample_time;
  last_attempt_at = some (sample_time + 20 * minute);
  last_attempt_failed = true;
  attempts_last_day = 1;
}
