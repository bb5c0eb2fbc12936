-- ===== src/Edge/Fallback/Bounds.antt =====
-- What the settings of the coordinator guarantee: attempts per incident and the spacing of heartbeats.
use ambagrid.Common.{ℕ, ◌+◌, ◌-◌, ◌*◌, ◌≤◌, ◌<◌, ◌≡◌, ◌⊎◌, true, none, arith}
use ambagrid.Edge.Fallback.Message.{Candidate}
use ambagrid.Edge.Fallback.Heartbeat.{
  HeartbeatConfig, HeartbeatState, heartbeat_due, or_else, closed_by,
}
use ambagrid.Edge.Fallback.Policy.{
  Config, with_bounds, minimum_retry_interval, eligible, max_incident_attempts,
  incident_attempt_window,
}

-- Whatever its settings, a coordinator polls at a positive interval and makes one to three attempts
-- for an incident; if it makes more than one, they are at least seven and a half minutes apart, so
-- three attempts take the window of fifteen minutes at least. Settings within these bounds are kept.
pub with_bounds-bounded :
    (c : Config)
    → let c' = with_bounds c in
      (0 < c'.poll_interval)
      × (1 ≤ c'.max_attempts)
      × (c'.max_attempts ≤ max_incident_attempts)
      × (c.retry_interval ≤ c'.retry_interval)
      × ((c'.max_attempts ≡ 1)
          ⊎ (incident_attempt_window ≤ (max_incident_attempts - 1) * c'.retry_interval))
      × (with_bounds c' ≡ c')
unfolding with_bounds minimum_retry_interval
with_bounds-bounded c = ground arith

-- An SMS for an incident is due only while the incident, the hour and the day have attempts left and
-- the retry time has passed, and only after the threshold of failed uploads or an outage that lasts.
pub eligible-grounds :
    (c : Config) (k : Candidate) (now : ℕ)
    → eligible c k now ≡ true
    → (k.attempts < c.max_attempts)
      × (k.attempts_last_hour < c.hourly_limit)
      × (k.attempts_last_day < c.daily_limit)
      × (or_else k.next_attempt_at 0 ≤ now)
      × ((c.failure_threshold ≤ k.upload_failures)
          ⊎ (or_else k.last_upload_success k.opened_at + c.offline_after ≤ now))
unfolding eligible
eligible-grounds c k now h = ground arith

-- A heartbeat is due only when uploads have failed for `OfflineAfter`, the daily limit has room, and
-- the last attempt, if it belongs to this outage, is the retry interval or the heartbeat interval
-- back, whichever is shorter; after a success it is the whole heartbeat interval back.
pub heartbeat_due-spaced :
    (offline_after retry_interval : ℕ) (cfg : HeartbeatConfig) (started : ℕ) (s : HeartbeatState)
    (now : ℕ)
    → heartbeat_due offline_after retry_interval cfg started s now ≡ true
    → (or_else s.last_upload_success started + offline_after ≤ now)
      × (s.attempts_last_day < cfg.daily_limit)
      × ((s.last_attempt_at ≡ none)
          ⊎ (closed_by s.last_upload_success (or_else s.last_attempt_at 0) ≡ true)
          ⊎ (or_else s.last_attempt_at 0 + cfg.interval ≤ now)
          ⊎ ((s.last_attempt_failed ≡ true) × (or_else s.last_attempt_at 0 + retry_interval ≤ now)))
unfolding heartbeat_due
heartbeat_due-spaced offline_after retry_interval cfg started s now h = ground arith
