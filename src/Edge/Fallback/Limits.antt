-- ===== src/Edge/Fallback/Limits.antt =====
-- The rate limits of a site under a run of the coordinator, over any store that counts attempts.
use ambagrid.Common.{
  ◌∙◌, length-append, ℕ, ◌+◌, ◌-◌, ◌*◌, ◌≤◌, ◌<◌, ◌≡◌, refl, inl, inr, true, false, List, [], ◌∷◌,
  arith, All, Text, Result, ok, err, length, to_ms, hour, Bool-cases, is_ok,
}
use ambagrid.Edge.Errors.{Faults, Error}
use ambagrid.Edge.Store.Schema.{event_key}
use ambagrid.Edge.Fallback.Message.{Candidate, AttemptResult, format}
use ambagrid.Edge.Fallback.Policy.{Config, eligible, with_run_attempts}
use ambagrid.Edge.Fallback.Coordinator.{
  FallbackStore, Answers, Loop, attempt_result, attempt_reserved, send_incident, handle_formatted,
  handle_candidate, handle_candidates,
}

-- What the coordinator relies on: `count from_ms` is the number of attempts since a time, a
-- reservation adds one, nothing else changes it, and each candidate carries the counts of the last
-- hour and the last day.
pub record CountsAttempts (s : FallbackStore) : Type 0 where
  pub count : ℕ → s.State → ℕ
  pub reserve_counts :
      (f : Faults) (key : Text) (at wait : ℕ) (st : s.State) (from_ms : ℕ)
      → from_ms ≤ to_ms at
      → (is_ok (s.reserve f key at wait st).1 ≡ true
          → count from_ms (s.reserve f key at wait st).0 ≡ count from_ms st + 1)
        × (is_ok (s.reserve f key at wait st).1 ≡ false
            → count from_ms (s.reserve f key at wait st).0 ≡ count from_ms st)
  pub record_keeps :
      (f : Faults) (r : AttemptResult) (st : s.State) (from_ms : ℕ)
      → count from_ms (s.record_attempt f r st).0 ≡ count from_ms st
  pub reserve_heartbeat_keeps :
      (f : Faults) (at : ℕ) (st : s.State) (from_ms : ℕ)
      → count from_ms (s.reserve_heartbeat f at st).0 ≡ count from_ms st
  pub record_heartbeat_keeps :
      (f : Faults) (n : ℕ) (reason : Text) (st : s.State) (from_ms : ℕ)
      → count from_ms (s.record_heartbeat f n reason st).0 ≡ count from_ms st
  pub candidates_counted :
      (f : Faults) (now : ℕ) (st : s.State) (ks : List Candidate)
      → s.candidates f now st ≡ ok ks
      → All
          (λ k.
            (k.attempts_last_hour ≡ count (to_ms (now - hour)) st)
            × (k.attempts_last_day ≡ count (to_ms (now - 24 * hour)) st))
          ks

to_ms-earlier : (t d : ℕ) → to_ms (t - d) ≤ to_ms t
to_ms-earlier t d = omega arith

module _ (s : FallbackStore) (law : CountsAttempts s) (c : Config) where
  -- Between the candidates of a run at `now` that began with `in_hour` and `in_day` attempts: the
  -- store has these and the attempts of the run, each of which sent one message and respected both
  -- limits.
  pub record Within (now in_hour in_day : ℕ) (l : Loop s.State) : Type 0 where
    pub hour_counted : law.count (to_ms (now - hour)) l.store ≡ in_hour + l.run_attempts
    pub day_counted : law.count (to_ms (now - 24 * hour)) l.store ≡ in_day + l.run_attempts
    pub sent_each : length l.outbox ≡ l.run_attempts
    pub limited :
        0 < l.run_attempts
        → (in_hour + l.run_attempts ≤ c.hourly_limit) × (in_day + l.run_attempts ≤ c.daily_limit)

  -- A reservation, successful or not, on a loop that was within the limits and had room.
  record Reserving (now in_hour in_day : ℕ) (r : Result Error (Unit {0})) (l : Loop s.State)
      : Type 0 where
    taken :
        is_ok r ≡ true
        → (law.count (to_ms (now - hour)) l.store ≡ in_hour + l.run_attempts + 1)
          × (law.count (to_ms (now - 24 * hour)) l.store ≡ in_day + l.run_attempts + 1)
    refused : is_ok r ≡ false → Within now in_hour in_day l
    sent_before : length l.outbox ≡ l.run_attempts
    hour_room : in_hour + l.run_attempts < c.hourly_limit
    day_room : in_day + l.run_attempts < c.daily_limit

  attempt_reserved-Within :
      (a : Answers) (now in_hour in_day : ℕ) (k : Candidate) (message : Text)
      (r : Result Error (Unit {0})) (l : Loop s.State)
      → Reserving now in_hour in_day r l
      → Within now in_hour in_day (attempt_reserved s c a now k message r l)
  unfolding attempt_reserved
  attempt_reserved-Within a now in_hour in_day k message (err e) l v =
      let w = v.refused refl in
      record {
        hour_counted = w.hour_counted;
        day_counted = w.day_counted;
        sent_each = w.sent_each;
        limited = w.limited;
      }
  attempt_reserved-Within a now in_hour in_day k message (ok _) l v =
      let result = attempt_result c (event_key k.event.site_id k.event.sequence) now a.modem in
      let keeps = law.record_keeps a.record_attempt result l.store in
      let counted = v.taken refl in
      record {
        hour_counted = omega (arith, keeps (to_ms (now - hour)), counted);
        day_counted = omega (arith, keeps (to_ms (now - 24 * hour)), counted);
        sent_each =
            omega (arith, length-append l.outbox ((c.destination, message) ∷ []), v.sent_before);
        limited = λ _. (omega (arith, v.hour_room), omega (arith, v.day_room));
      }

  send_incident-Within :
      (a : Answers) (now in_hour in_day : ℕ) (k : Candidate) (message : Text) (l : Loop s.State)
      → in_hour + l.run_attempts < c.hourly_limit
      → in_day + l.run_attempts < c.daily_limit
      → Within now in_hour in_day l
      → Within now in_hour in_day (send_incident s c a now k message l)
  unfolding send_incident
  send_incident-Within a now in_hour in_day k message l hour_room day_room w =
      let key = event_key k.event.site_id k.event.sequence in
      let in_last_hour =
        law.reserve_counts a.reserve key now c.retry_interval l.store (to_ms (now - hour))
          (to_ms-earlier now hour) in
      let in_last_day =
        law.reserve_counts a.reserve key now c.retry_interval l.store (to_ms (now - 24 * hour))
          (to_ms-earlier now (24 * hour)) in
      attempt_reserved-Within a now in_hour in_day k message _ _ (record {
        taken = λ done. (
          omega (arith, in_last_hour.0 done, w.hour_counted),
          omega (arith, in_last_day.0 done, w.day_counted),
        );
        refused = λ failed. record {
          hour_counted = in_last_hour.1 failed ∙ w.hour_counted;
          day_counted = in_last_day.1 failed ∙ w.day_counted;
          sent_each = w.sent_each;
          limited = w.limited;
        };
        sent_before = w.sent_each;
        hour_room = hour_room;
        day_room = day_room;
      })

  handle_formatted-Within :
      (a : Answers) (now in_hour in_day : ℕ) (k : Candidate) (message : Result Error Text)
      (l : Loop s.State)
      → in_hour + l.run_attempts < c.hourly_limit
      → in_day + l.run_attempts < c.daily_limit
      → Within now in_hour in_day l
      → Within now in_hour in_day (handle_formatted s c a now k message l)
  unfolding handle_formatted
  handle_formatted-Within a now in_hour in_day k (err e) l hour_room day_room w = record {
    hour_counted = w.hour_counted;
    day_counted = w.day_counted;
    sent_each = w.sent_each;
    limited = w.limited;
  }
  handle_formatted-Within a now in_hour in_day k (ok message) l hour_room day_room w =
      send_incident-Within a now in_hour in_day k message l hour_room day_room w

  eligible-room :
      (k : Candidate) (n now : ℕ)
      → eligible c (with_run_attempts n k) now ≡ true
      → (k.attempts_last_hour + n < c.hourly_limit) × (k.attempts_last_day + n < c.daily_limit)
  unfolding eligible with_run_attempts
  eligible-room k n now h = ground arith

  handle_candidate-Within :
      (a : Answers) (now in_hour in_day : ℕ) (k : Candidate) (l : Loop s.State)
      → k.attempts_last_hour ≡ in_hour
      → k.attempts_last_day ≡ in_day
      → Within now in_hour in_day l
      → Within now in_hour in_day (handle_candidate s c a now k l)
  unfolding handle_candidate
  handle_candidate-Within a now in_hour in_day k l eh ed w =
      let room = eligible-room k l.run_attempts now in
      elim (Bool-cases (eligible c (with_run_attempts l.run_attempts k) now)) [
        | inl may ↦ rw may (
            handle_formatted-Within a now in_hour in_day k (format k.event) l
              (omega (arith, eh, (room may).0)) (omega (arith, ed, (room may).1)) w)
        | inr may_not ↦ rw may_not w
      ]

  pub handle_candidates-Within :
      (a : ℕ → Answers) (now in_hour in_day i : ℕ) (ks : List Candidate) (l : Loop s.State)
      → All (λ k. (k.attempts_last_hour ≡ in_hour) × (k.attempts_last_day ≡ in_day)) ks
      → Within now in_hour in_day l
      → Within now in_hour in_day (handle_candidates s c a now i ks l)
  unfolding handle_candidates
  handle_candidates-Within a now in_hour in_day i [] l h w = w
  handle_candidates-Within a now in_hour in_day i (k ∷ ks) l h w =
      handle_candidates-Within a now in_hour in_day (i + 1) ks _ h.1
        (handle_candidate-Within (a i) now in_hour in_day k l h.0.0 h.0.1 w)
