-- ===== src/Edge/Fallback/Policy.antt =====
-- coordinator.go: which incidents may be sent by SMS, and when.
use ambagrid.Edge.Fallback.Message.{Candidate}
use ambagrid.Edge.Fallback.Heartbeat.{or_else}
use ambagrid.Common.{
  ◌+◌, none, true, second, ◌-◌, some, ltb, ◌||◌, false, ◌/◌, Bool, leb, minute, ◌==◌, ◌*◌,
  if◌then◌else◌, Text, Option, ℕ,
}

abbrev pub max_incident_attempts : ℕ
max_incident_attempts = 3

abbrev pub incident_attempt_window : ℕ
incident_attempt_window = 15 * minute

unfoldable pub minimum_retry_interval : ℕ → ℕ
minimum_retry_interval max_attempts =
    if leb max_attempts 1 then 0 else incident_attempt_window / (max_incident_attempts - 1)

pub record Config : Type 0 where
  pub destination : Text
  pub poll_interval : ℕ
  pub failure_threshold : ℕ
  pub offline_after : ℕ
  pub max_attempts : ℕ
  pub hourly_limit : ℕ
  pub daily_limit : ℕ
  pub retry_interval : ℕ

-- The corrections of `NewCoordinator`.
unfoldable pub with_bounds : Config → Config
unfolding minimum_retry_interval
with_bounds c =
    let attempts =
      if c.max_attempts == 0 || ltb max_incident_attempts c.max_attempts
      then max_incident_attempts
      else c.max_attempts in
    let minimum = minimum_retry_interval attempts in
    record c {
      poll_interval = if c.poll_interval == 0 then 5 * second else c.poll_interval;
      max_attempts = attempts;
      retry_interval = if ltb c.retry_interval minimum then minimum else c.retry_interval;
    }

abbrev pub comes_after : Option ℕ → ℕ → Bool
comes_after none now = false
comes_after (some t) now = ltb now t

-- `eligible`; `now.Sub(reference) >= OfflineAfter` is `reference + OfflineAfter <= now`.
unfoldable pub eligible : Config → Candidate → ℕ → Bool
eligible c k now =
    if leb c.max_attempts k.attempts
      || (leb c.hourly_limit k.attempts_last_hour
          || (leb c.daily_limit k.attempts_last_day || comes_after k.next_attempt_at now))
    then false
    else if leb c.failure_threshold k.upload_failures
    then true
    else leb (or_else k.last_upload_success k.opened_at + c.offline_after) now

-- `hourAttempts` and `dayAttempts` are raised together, so one counter stands for both.
unfoldable pub with_run_attempts : ℕ → Candidate → Candidate
with_run_attempts n k = record k {
  attempts_last_hour = k.attempts_last_hour + n;
  attempts_last_day = k.attempts_last_day + n;
}
