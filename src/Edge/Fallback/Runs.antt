-- ===== src/Edge/Fallback/Runs.antt =====
-- A whole run of the coordinator against the rate limits of its site.
use ambagrid.Common.{
  ◌∙◌, length-append, ℕ, ◌+◌, ◌-◌, ◌*◌, ◌≤◌, ◌<◌, ◌≡◌, refl, ◌⊎◌, inl, inr, Option, none, some,
  List, [], ◌∷◌, arith, All, Text, Result, ok, err, length, to_ms, hour, Bool-cases,
}
use ambagrid.Edge.Errors.{Faults, Error}
use ambagrid.Edge.Fallback.Message.{Candidate}
use ambagrid.Edge.Fallback.Policy.{Config}
use ambagrid.Edge.Fallback.Heartbeat.{HeartbeatConfig, HeartbeatState, heartbeat_due}
use ambagrid.Edge.Fallback.Coordinator.{
  FallbackStore, Answers, HeartbeatAnswers, Loop, handle_candidates, heartbeat_formatted,
  heartbeat_reserved, heartbeat_known, run_heartbeat, run_heartbeats, run_candidates, idle,
  run_once,
}
use ambagrid.Edge.Fallback.Limits.{CountsAttempts, Within, handle_candidates-Within}

none_or_some : (n : ℕ) → (n ≡ 0) ⊎ (0 < n)
none_or_some n = ground arith

module _ (s : FallbackStore) (law : CountsAttempts s) (c : Config) where
  -- A heartbeat is no attempt: it changes no count and sends at most one message.
  record Beats (l l' : Loop s.State) : Type 0 where
    same_count : (from_ms : ℕ) → law.count from_ms l'.store ≡ law.count from_ms l.store
    same_run : l'.run_attempts ≡ l.run_attempts
    sends : length l.outbox ≤ length l'.outbox
    sends_one : length l'.outbox ≤ length l.outbox + 1

  formatted-Beats :
      (b : HeartbeatAnswers) (n : ℕ) (message : Result Error Text) (l : Loop s.State)
      → Beats l (heartbeat_formatted s c b n message l)
  unfolding heartbeat_formatted
  formatted-Beats b n (err e) l = record {
    same_count = law.record_heartbeat_keeps b.record_heartbeat n _ l.store;
    same_run = refl;
    sends = omega arith;
    sends_one = omega arith;
  }
  formatted-Beats b n (ok message) l =
      let longer = length-append l.outbox ((c.destination, message) ∷ []) in
      record {
        same_count = law.record_heartbeat_keeps b.record_heartbeat n _ l.store;
        same_run = refl;
        sends = omega (arith, longer);
        sends_one = omega (arith, longer);
      }

  quiet-Beats :
      (l l' : Loop s.State)
      → ((from_ms : ℕ) → law.count from_ms l'.store ≡ law.count from_ms l.store)
      → l'.run_attempts ≡ l.run_attempts
      → l'.outbox ≡ l.outbox
      → Beats l l'
  quiet-Beats l l' same run out = record {
    same_count = same;
    same_run = run;
    sends = rw out (omega arith);
    sends_one = rw out (omega arith);
  }

  then-Beats :
      (l l' l'' : Loop s.State)
      → ((from_ms : ℕ) → law.count from_ms l'.store ≡ law.count from_ms l.store)
      → l'.run_attempts ≡ l.run_attempts
      → l'.outbox ≡ l.outbox
      → Beats l' l''
      → Beats l l''
  then-Beats l l' l'' same run out v = record {
    same_count = λ from. v.same_count from ∙ same from;
    same_run = v.same_run ∙ run;
    sends = rw⁻¹ out v.sends;
    sends_one = rw⁻¹ out v.sends_one;
  }

  reserved-Beats :
      (h : HeartbeatConfig) (b : HeartbeatAnswers) (now : ℕ) (r : Result Error ℕ) (l : Loop s.State)
      → Beats l (heartbeat_reserved s c h b now r l)
  unfolding heartbeat_reserved
  reserved-Beats h b now (err e) l = quiet-Beats l _ (λ _. refl) refl refl
  reserved-Beats h b now (ok n) l = formatted-Beats b n _ l

  known-Beats :
      (h : HeartbeatConfig) (b : HeartbeatAnswers) (started now : ℕ)
      (state : Result Error HeartbeatState) (l : Loop s.State)
      → Beats l (heartbeat_known s c h b started now state l)
  unfolding heartbeat_known
  known-Beats h b started now (err e) l = quiet-Beats l _ (λ _. refl) refl refl
  known-Beats h b started now (ok state) l =
      let l' : Loop s.State = record l { store = (s.reserve_heartbeat b.reserve now l.store).0 } in
      elim (Bool-cases (heartbeat_due c.offline_after c.retry_interval h started state now)) [
        | inl due ↦ rw due (
            then-Beats l l' _ (law.reserve_heartbeat_keeps b.reserve now l.store) refl refl
              (reserved-Beats h b now _ l'))
        | inr not_due ↦ rw not_due (quiet-Beats l l (λ _. refl) refl refl)
      ]

  heartbeats-Beats :
      (h : Option HeartbeatConfig) (b : HeartbeatAnswers) (started now : ℕ) (l : Loop s.State)
      → Beats l (run_heartbeats s c h b started now l)
  unfolding run_heartbeats run_heartbeat
  heartbeats-Beats none b started now l = quiet-Beats l l (λ _. refl) refl refl
  heartbeats-Beats (some h) b started now l = known-Beats h b started now _ l

  -- What a run leaves behind, against the store that it found.
  pub record Ran (now : ℕ) (st : s.State) (l : Loop s.State) : Type 0 where
    pub hour_counted :
        law.count (to_ms (now - hour)) l.store ≡ law.count (to_ms (now - hour)) st + l.run_attempts
    pub day_counted :
        law.count (to_ms (now - 24 * hour)) l.store
        ≡ law.count (to_ms (now - 24 * hour)) st + l.run_attempts
    pub limited :
        (l.run_attempts ≡ 0)
        ⊎ (law.count (to_ms (now - hour)) l.store ≤ c.hourly_limit)
          × (law.count (to_ms (now - 24 * hour)) l.store ≤ c.daily_limit)
    pub sent : l.run_attempts ≤ length l.outbox
    pub sent_at_most : length l.outbox ≤ l.run_attempts + 1

  run_candidates-Ran :
      (h : Option HeartbeatConfig) (a : ℕ → Answers) (b : HeartbeatAnswers) (started now : ℕ)
      (st : s.State) (ks : Result Error (List Candidate))
      → ((k : List Candidate)
          → ks ≡ ok k
          → All
              (λ k.
                (k.attempts_last_hour ≡ law.count (to_ms (now - hour)) st)
                × (k.attempts_last_day ≡ law.count (to_ms (now - 24 * hour)) st))
              k)
      → Ran now st (run_candidates s c h a b started now ks (idle s st))
  unfolding run_candidates
  run_candidates-Ran h a b started now st (err e) counted = record {
    hour_counted = omega arith;
    day_counted = omega arith;
    limited = inl refl;
    sent = omega arith;
    sent_at_most = omega arith;
  }
  run_candidates-Ran h a b started now st (ok ks) counted =
      let in_hour = law.count (to_ms (now - hour)) st in
      let in_day = law.count (to_ms (now - 24 * hour)) st in
      let start : Within s law c now in_hour in_day (idle s st) = record {
        hour_counted = omega arith;
        day_counted = omega arith;
        sent_each = refl;
        limited = λ l. omega (arith, l);
      } in
      let w =
        handle_candidates-Within s law c a now in_hour in_day 0 ks (idle s st) (counted ks refl)
          start in
      let v = heartbeats-Beats h b started now (handle_candidates s c a now 0 ks (idle s st)) in
      record {
        hour_counted = omega (arith, v.same_count (to_ms (now - hour)), v.same_run, w.hour_counted);
        day_counted =
            omega (arith, v.same_count (to_ms (now - 24 * hour)), v.same_run, w.day_counted);
        limited = elim (none_or_some (handle_candidates s c a now 0 ks (idle s st)).run_attempts) [
          | inl none_made ↦ inl (omega (arith, v.same_run, none_made))
          | inr made ↦ inr (
            omega (arith, v.same_count (to_ms (now - hour)), w.hour_counted, (w.limited made).0),
            omega
                (arith, v.same_count (to_ms (now - 24 * hour)), w.day_counted, (w.limited made).1),
          )
        ];
        sent = omega (arith, v.same_run, v.sends, w.sent_each);
        sent_at_most = omega (arith, v.same_run, v.sends_one, w.sent_each);
      }

  -- Over any store that counts attempts: a run adds exactly its attempts to the counts of the last
  -- hour and day, hands the modem one message for each of them and at most one heartbeat, and if it
  -- makes an attempt at all, both counts are within the hourly and the daily limit after it.
  pub run_once-Ran :
      (h : Option HeartbeatConfig) (started : ℕ) (f : Faults) (a : ℕ → Answers)
      (b : HeartbeatAnswers) (now : ℕ) (st : s.State)
      → Ran now st (run_once s c h started f a b now st).1
  unfolding run_once
  run_once-Ran h started f a b now st =
      run_candidates-Ran h a b _ now st (s.candidates f now st) (law.candidates_counted f now st)
