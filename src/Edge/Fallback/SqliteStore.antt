-- ===== src/Edge/Fallback/SqliteStore.antt =====
-- The SQLite queue as the store of the coordinator: the methods of `fallback.Store` and
-- `fallback.HeartbeatStore` that repository/sqlite implements, and that they count attempts.
use ambagrid.Common.{
  ◌⊎◌, select_where, ℕ, ◌+◌, ◌-◌, ◌*◌, ◌≤◌, ◌≡◌, refl, Bool, true, false, Option, none, some, List,
  [], ◌∷◌, ◌++◌, arith, All, Text, ok, is_ok, map, to_ms, hour, count_where, update_where, length,
}
use ambagrid.Edge.Errors.{Faults}
use ambagrid.Edge.Store.Schema.{Db, Incident, Attempt}
use ambagrid.Edge.Store.Incidents.{
  in_order, undelivered, fallback_candidates, attempts_since, to_candidate,
}
use ambagrid.Edge.Store.SmsAttempts.{
  attempt_at, reserve_fallback_attempt, record_fallback_attempt, reserved, attempt_recorded,
}
use ambagrid.Edge.Store.Heartbeats.{
  heartbeat_state, reserve_heartbeat, record_heartbeat, heartbeat_reserved,
}
use ambagrid.Edge.Fallback.Message.{Candidate, AttemptResult}
use ambagrid.Edge.Fallback.Heartbeat.{HeartbeatConfig}
use ambagrid.Edge.Fallback.Policy.{Config}
use ambagrid.Edge.Fallback.Coordinator.{FallbackStore, Answers, HeartbeatAnswers, run_once}
use ambagrid.Edge.Fallback.Limits.{CountsAttempts}
use ambagrid.Edge.Fallback.Runs.{run_once-Ran}

abbrev pub sqlite_store : FallbackStore
sqlite_store = record {
  State = Db;
  candidates = fallback_candidates;
  reserve = reserve_fallback_attempt;
  record_attempt = record_fallback_attempt;
  heartbeat_state = heartbeat_state;
  reserve_heartbeat = reserve_heartbeat;
  record_heartbeat = record_heartbeat;
}

attempts_since-append :
    (from_ms : ℕ) (as' : List Attempt) (a : Attempt)
    → from_ms ≤ a.attempted_at_ms
    → attempts_since from_ms (as' ++ a ∷ []) ≡ attempts_since from_ms as' + 1
unfolding attempts_since count_where
attempts_since-append from_ms [] a l = ground arith
attempts_since-append from_ms (x ∷ as') a l = omega (arith, attempts_since-append from_ms as' a l)

attempts_since-update_where :
    (from_ms : ℕ) (p : Attempt → Bool) (f : Attempt → Attempt)
    → ((a : Attempt) → (f a).attempted_at_ms ≡ a.attempted_at_ms)
    → (as' : List Attempt)
    → attempts_since from_ms (update_where p f as') ≡ attempts_since from_ms as'
unfolding attempts_since count_where update_where
attempts_since-update_where from_ms p f h [] = refl
attempts_since-update_where from_ms p f h (x ∷ as') =
    ground (arith, attempts_since-update_where from_ms p f h as', h x)

reserve-counts :
    (f : Faults) (key : Text) (at wait : ℕ) (db : Db) (from_ms : ℕ)
    → from_ms ≤ to_ms at
    → let outcome = reserve_fallback_attempt f key at wait db in
      (is_ok outcome.1 ≡ true
        → attempts_since from_ms outcome.0.attempts ≡ attempts_since from_ms db.attempts + 1)
      × (is_ok outcome.1 ≡ false
          → attempts_since from_ms outcome.0.attempts ≡ attempts_since from_ms db.attempts)
unfolding reserve_fallback_attempt reserved
reserve-counts f key at wait db from_ms l = ground (
  arith,
  attempts_since-append from_ms db.attempts
      (record {
        event_key = key;
        attempted_at_ms = to_ms at;
        succeeded = none;
        failure_reason = none;
      })
      l,
)

record-keeps :
    (f : Faults) (r : AttemptResult) (db : Db) (from_ms : ℕ)
    → attempts_since from_ms (record_fallback_attempt f r db).0.attempts
      ≡ attempts_since from_ms db.attempts
unfolding record_fallback_attempt attempt_recorded
record-keeps f r db from_ms =
    let same =
      attempts_since-update_where from_ms (attempt_at r.event_key (to_ms r.attempted_at))
        (λ a. record a { succeeded = some r.succeeded; failure_reason = some r.failure_reason })
        (λ a. refl) db.attempts in
    ground arith

candidates-counted :
    (now : ℕ) (db : Db) (is : List Incident)
    → All
        (λ k.
          (k.attempts_last_hour ≡ attempts_since (to_ms (now - hour)) db.attempts)
          × (k.attempts_last_day ≡ attempts_since (to_ms (now - 24 * hour)) db.attempts))
        (map (to_candidate now db) is)
unfolding to_candidate
candidates-counted now db [] = tt
candidates-counted now db (i ∷ is) = ((refl, refl), candidates-counted now db is)

counted-candidates :
    (f : Faults) (now : ℕ) (db : Db) (ks : List Candidate)
    → fallback_candidates f now db ≡ ok ks
    → All
        (λ k.
          (k.attempts_last_hour ≡ attempts_since (to_ms (now - hour)) db.attempts)
          × (k.attempts_last_day ≡ attempts_since (to_ms (now - 24 * hour)) db.attempts))
        ks
unfolding fallback_candidates
counted-candidates f now db ks h =
    let all = candidates-counted now db (in_order (select_where undelivered db.incidents)) in
    ground arith

sqlite_counts : CountsAttempts sqlite_store
unfolding reserve_heartbeat heartbeat_reserved record_heartbeat fallback_candidates
sqlite_counts = record {
  count = λ from_ms db. attempts_since from_ms db.attempts;
  reserve_counts = reserve-counts;
  record_keeps = record-keeps;
  reserve_heartbeat_keeps = λ f at db from_ms. ground arith;
  record_heartbeat_keeps = λ f n reason db from_ms. ground arith;
  candidates_counted = λ f now db ks h. counted-candidates f now db ks h;
}

-- The same for the SQLite queue: after a run the rows of `fallback_attempts` in the last hour and in
-- the last day are those of before and one for each attempt of the run; if there was an attempt, both
-- numbers are within the limits. The modem got a message for each attempt and at most one heartbeat.
pub sqlite_run-Ran :
    (c : Config) (h : Option HeartbeatConfig) (started : ℕ) (f : Faults) (a : ℕ → Answers)
    (b : HeartbeatAnswers) (now : ℕ) (db : Db)
    → let l = (run_once sqlite_store c h started f a b now db).1 in
      let in_last = λ (d : ℕ) (db : Db). attempts_since (to_ms (now - d)) db.attempts in
      (in_last hour l.store ≡ in_last hour db + l.run_attempts)
      × (in_last (24 * hour) l.store ≡ in_last (24 * hour) db + l.run_attempts)
      × ((l.run_attempts ≡ 0)
          ⊎ (in_last hour l.store ≤ c.hourly_limit) × (in_last (24 * hour) l.store ≤ c.daily_limit))
      × (l.run_attempts ≤ length l.outbox)
      × (length l.outbox ≤ l.run_attempts + 1)
unfolding sqlite_counts
sqlite_run-Ran c h started f a b now db =
    let r = run_once-Ran sqlite_store sqlite_counts c h started f a b now db in
    (r.hour_counted, r.day_counted, r.limited, r.sent, r.sent_at_most)
