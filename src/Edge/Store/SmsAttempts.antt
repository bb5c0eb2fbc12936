-- ===== src/Edge/Store/SmsAttempts.antt =====
-- repository/sqlite/fallback.go: SMS attempts, which are reserved before the modem is called, and
-- the statistics of the rate limits.
use ambagrid.Common.{
  ℕ, ◌+◌, ◌-◌, ◌*◌, Bool, ◌&&◌, ◌||◌, not, Option, none, some, [], ◌∷◌, ◌++◌, Text, ltb, leb, ◌==◌,
  if◌then◌else◌, text_eq, Result, ok, ◌>>◌, refuse_if, in_tx, to_ms, hour, update_where,
  count_where, exists_where,
}
use ambagrid.Edge.Errors.{Error, Faults, answer, database, policy_limits, attempt_not_found}
use ambagrid.Edge.Store.Schema.{Db, Incident, Attempt}
use ambagrid.Edge.Store.Incidents.{undelivered, attempts_since}
use ambagrid.Edge.Fallback.Message.{AttemptResult}

-- The reservation of an attempt at one time.
unfoldable pub attempt_at : Text → ℕ → Attempt → Bool
attempt_at key ms a = text_eq a.event_key key && a.attempted_at_ms == ms

-- What the schema refuses of a new attempt: an unknown incident (REFERENCES) or a second attempt
-- at the same time (UNIQUE).
unfoldable pub attempt_refused : Text → ℕ → Db → Bool
unfolding attempt_at
attempt_refused key ms db =
    not (exists_where (λ i. text_eq i.event_key key) db.incidents)
    || exists_where (attempt_at key ms) db.attempts

-- The retry window never moves back.
abbrev pub later_attempt : ℕ → Option ℕ → Option ℕ
later_attempt t none = some t
later_attempt t (some u) = if ltb u t then some t else some u

unfoldable pub reserved : Text → ℕ → ℕ → Db → Db
reserved key at retry_after db = record db {
  attempts =
      db.attempts
      ++ record {
        event_key = key;
        attempted_at_ms = to_ms at;
        succeeded = none;
        failure_reason = none;
      }
        ∷ [];
  incidents =
      update_where (λ i. text_eq i.event_key key)
        (λ i. record i {
          sms_attempt_count = i.sms_attempt_count + 1;
          next_sms_attempt_at_ms =
              later_attempt (to_ms (at + retry_after)) i.next_sms_attempt_at_ms;
        })
        db.incidents;
}

unfoldable pub reserve_fallback_attempt : Faults → Text → ℕ → ℕ → Db → Db × Result Error (Unit {0})
unfolding attempt_refused reserved
reserve_fallback_attempt f key at retry_after db = in_tx db (do
  answer (f 0)
  answer (f 1)
  refuse_if (attempt_refused key (to_ms at) db) database
  answer (f 2)
  answer (f 3)
  ok (tt, reserved key at retry_after db))

-- COALESCE(sms_sent_at_ms, ?).
abbrev pub first_of_two : Option ℕ → Option ℕ → Option ℕ
first_of_two (some t) u = some t
first_of_two none u = u

-- The UPDATE of the incident: a failure also sets the next attempt.
unfoldable pub finish_incident : AttemptResult → Incident → Incident
finish_incident r i =
    let sent : Option ℕ = if r.succeeded then some (to_ms r.attempted_at) else none in
    elim r.next_attempt_at [
      | none ↦ record i {
        sms_sent_at_ms = first_of_two i.sms_sent_at_ms sent;
        last_error = some r.failure_reason;
      }
      | some next ↦ record i {
        next_sms_attempt_at_ms = some (to_ms next);
        sms_sent_at_ms = first_of_two i.sms_sent_at_ms sent;
        last_error = some r.failure_reason;
      }
    ]

unfoldable pub attempt_recorded : AttemptResult → Db → Db
unfolding attempt_at finish_incident
attempt_recorded r db = record db {
  attempts =
      update_where (attempt_at r.event_key (to_ms r.attempted_at))
        (λ a. record a { succeeded = some r.succeeded; failure_reason = some r.failure_reason })
        db.attempts;
  incidents = update_where (λ i. text_eq i.event_key r.event_key) (finish_incident r) db.incidents;
}

unfoldable pub record_fallback_attempt : Faults → AttemptResult → Db → Db × Result Error (Unit {0})
unfolding attempt_recorded
record_fallback_attempt f r db = in_tx db (do
  answer (f 0)
  answer (f 1)
  refuse_if (not (count_where (attempt_at r.event_key (to_ms r.attempted_at)) db.attempts == 1))
      attempt_not_found
  answer (f 2)
  answer (f 3)
  ok (tt, attempt_recorded r db))

pub record RateLimitPolicy : Type 0 where
  pub max_attempts : ℕ
  pub hourly_limit : ℕ
  pub daily_limit : ℕ

pub record RateLimitStats : Type 0 where
  pub incident_attempt_limit : ℕ
  pub site_hourly_limit : ℕ
  pub site_daily_limit : ℕ

unfoldable pub fallback_rate_limit_stats :
    Faults → ℕ → RateLimitPolicy → Db → Result Error RateLimitStats
fallback_rate_limit_stats f now p db = do
  refuse_if (ltb p.max_attempts 1 || (ltb p.hourly_limit 1 || ltb p.daily_limit 1)) policy_limits
  answer (f 0)
  answer (f 1)
  let active = count_where undelivered db.incidents
  let limited =
      count_where (λ i. undelivered i && leb p.max_attempts i.sms_attempt_count) db.incidents
  let hourly = attempts_since (to_ms (now - hour)) db.attempts
  let daily = attempts_since (to_ms (now - 24 * hour)) db.attempts
  ok (record {
    incident_attempt_limit = limited;
    site_hourly_limit = if leb p.hourly_limit hourly then active else 0;
    site_daily_limit = if leb p.daily_limit daily then active else 0;
  })
