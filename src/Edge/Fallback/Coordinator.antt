-- ===== src/Edge/Fallback/Coordinator.antt =====
-- coordinator.go and heartbeat.go: a run of the coordinator. The coordinator reaches its store and
-- the modem through interfaces; `FallbackStore` gives the first, with what the coordinator relies on.
use ambagrid.Edge.Fallback.Policy.{Config, eligible, with_run_attempts}
use ambagrid.Common.{
  ℕ, ◌+◌, true, false, Option, none, some, List, [], ◌∷◌, ◌++◌, Text, ◌==◌, if◌then◌else◌, Result,
  ok, err,
}
use ambagrid.Edge.Errors.{send_failed, Error, Faults}
use ambagrid.Edge.Store.Schema.{event_key}
use ambagrid.Edge.Fallback.Message.{Candidate, AttemptResult, format}
use ambagrid.Edge.Fallback.Heartbeat.{
  heartbeat_error_text, heartbeat_due, format_heartbeat, HeartbeatConfig, HeartbeatState,
}

-- The store of the coordinator, over its own state. Every method is given SQLite's answers.
pub record FallbackStore : Type 1 where
  pub State : Type 0
  pub candidates : Faults → ℕ → State → Result Error (List Candidate)
  pub reserve : Faults → Text → ℕ → ℕ → State → State × Result Error (Unit {0})
  pub record_attempt : Faults → AttemptResult → State → State × Result Error (Unit {0})
  pub heartbeat_state : Faults → ℕ → State → Result Error HeartbeatState
  pub reserve_heartbeat : Faults → ℕ → State → State × Result Error ℕ
  pub record_heartbeat : Faults → ℕ → Text → State → State × Result Error (Unit {0})

-- The answers met while one candidate is handled; `modem` is the error text of `Send`, if any.
pub record Answers : Type 0 where
  pub reserve : Faults
  pub modem : Option Text
  pub record_attempt : Faults

pub record HeartbeatAnswers : Type 0 where
  pub state : Faults
  pub reserve : Faults
  pub modem : Option Text
  pub record_heartbeat : Faults

-- The loop's own state: the store, the messages that the modem was given and the errors that
-- `errors.Join` collects (both oldest first), and the attempts of this run.
pub record Loop (State : Type 0) : Type 0 where
  pub store : State
  pub outbox : List (Text × Text)
  pub errors : List Error
  pub run_attempts : ℕ

unfoldable pub attempt_result : Config → Text → ℕ → Option Text → AttemptResult
attempt_result c key now none = record {
  event_key = key;
  attempted_at = now;
  succeeded = true;
  failure_reason = [];
  next_attempt_at = none;
}
attempt_result c key now (some reason) = record {
  event_key = key;
  attempted_at = now;
  succeeded = false;
  failure_reason = reason;
  next_attempt_at = some (now + c.retry_interval);
}

abbrev pub errors_of : Result Error (Unit {0}) → List Error
errors_of (ok a) = []
errors_of (err e) = e ∷ []

abbrev pub modem_errors : Option Text → List Error
modem_errors none = []
modem_errors (some reason) = send_failed ∷ []

abbrev pub text_or_none : Option Text → Text
text_or_none none = []
text_or_none (some t) = t

module _ (s : FallbackStore) where
  open s use {State}

  -- Once the reservation stands, the message is sent and the outcome recorded.
  unfoldable pub attempt_reserved :
      Config → Answers → ℕ → Candidate → Text → Result Error (Unit {0}) → Loop State → Loop State
  unfolding attempt_result
  attempt_reserved c a now k message (err e) l = record l { errors = l.errors ++ e ∷ [] }
  attempt_reserved c a now k message (ok _) l =
      let key = event_key k.event.site_id k.event.sequence in
      let (st, recorded) =
        s.record_attempt a.record_attempt (attempt_result c key now a.modem) l.store in
      record {
        store = st;
        outbox = l.outbox ++ (c.destination, message) ∷ [];
        errors = l.errors ++ (errors_of recorded ++ modem_errors a.modem);
        run_attempts = l.run_attempts + 1;
      }

  unfoldable pub send_incident : Config → Answers → ℕ → Candidate → Text → Loop State → Loop State
  unfolding attempt_reserved
  send_incident c a now k message l =
      let key = event_key k.event.site_id k.event.sequence in
      let (st, reservation) = s.reserve a.reserve key now c.retry_interval l.store in
      attempt_reserved c a now k message reservation (record l { store = st })

  -- With what `Format` returns.
  unfoldable pub handle_formatted :
      Config → Answers → ℕ → Candidate → Result Error Text → Loop State → Loop State
  unfolding send_incident
  handle_formatted c a now k (err e) l = record l { errors = l.errors ++ e ∷ [] }
  handle_formatted c a now k (ok message) l = send_incident c a now k message l

  -- One candidate of the loop in `RunOnce`.
  unfoldable pub handle_candidate : Config → Answers → ℕ → Candidate → Loop State → Loop State
  unfolding with_run_attempts eligible handle_formatted
  handle_candidate c a now k l =
      if eligible c (with_run_attempts l.run_attempts k) now
      then handle_formatted c a now k (format k.event) l
      else l

  -- The n-th candidate of a run meets the n-th answers.
  unfoldable pub handle_candidates :
      Config → (ℕ → Answers) → ℕ → ℕ → List Candidate → Loop State → Loop State
  unfolding handle_candidate
  handle_candidates c a now i [] l = l
  handle_candidates c a now i (k ∷ ks) l =
      handle_candidates c a now (i + 1) ks (handle_candidate c (a i) now k l)

  -- `runHeartbeat`, once it is due and reserved under `sequence`, with what `FormatHeartbeat`
  -- returns.
  unfoldable pub heartbeat_formatted :
      Config → HeartbeatAnswers → ℕ → Result Error Text → Loop State → Loop State
  heartbeat_formatted c a sequence (err e) l =
      let (st, recorded) =
        s.record_heartbeat a.record_heartbeat sequence (heartbeat_error_text e) l.store in
      record l { store = st; errors = l.errors ++ (e ∷ errors_of recorded) }
  heartbeat_formatted c a sequence (ok message) l =
      let (st, recorded) =
        s.record_heartbeat a.record_heartbeat sequence (text_or_none a.modem) l.store in
      record l {
        store = st;
        outbox = l.outbox ++ (c.destination, message) ∷ [];
        errors = l.errors ++ (modem_errors a.modem ++ errors_of recorded);
      }

  unfoldable pub heartbeat_reserved :
      Config → HeartbeatConfig → HeartbeatAnswers → ℕ → Result Error ℕ → Loop State → Loop State
  unfolding heartbeat_formatted
  heartbeat_reserved c h a now (err e) l = record l { errors = l.errors ++ e ∷ [] }
  heartbeat_reserved c h a now (ok sequence) l =
      heartbeat_formatted c a sequence
        (format_heartbeat (record {
          site_id = h.site_id;
          gateway_id = h.gateway_id;
          sequence = sequence;
          interval = h.interval;
          sent_at = now;
        }))
        l

  unfoldable pub heartbeat_known :
      Config
      → HeartbeatConfig
      → HeartbeatAnswers
      → ℕ
      → ℕ
      → Result Error HeartbeatState
      → Loop State
      → Loop State
  unfolding heartbeat_reserved
  heartbeat_known c h a started_at now (err e) l = record l { errors = l.errors ++ e ∷ [] }
  heartbeat_known c h a started_at now (ok state) l =
      let (st, reservation) = s.reserve_heartbeat a.reserve now l.store in
      if heartbeat_due c.offline_after c.retry_interval h started_at state now
      then heartbeat_reserved c h a now reservation (record l { store = st })
      else l

  unfoldable pub run_heartbeat :
      Config → HeartbeatConfig → HeartbeatAnswers → ℕ → ℕ → Loop State → Loop State
  unfolding heartbeat_known
  run_heartbeat c h a started_at now l =
      heartbeat_known c h a started_at now (s.heartbeat_state a.state now l.store) l

  unfoldable pub run_heartbeats :
      Config → Option HeartbeatConfig → HeartbeatAnswers → ℕ → ℕ → Loop State → Loop State
  unfolding run_heartbeat
  run_heartbeats c none a started_at now l = l
  run_heartbeats c (some h) a started_at now l = run_heartbeat c h a started_at now l

  -- With what `FallbackCandidates` returns; the loop begins without messages and errors.
  unfoldable pub run_candidates :
      Config
      → Option HeartbeatConfig
      → (ℕ → Answers)
      → HeartbeatAnswers
      → ℕ
      → ℕ
      → Result Error (List Candidate)
      → Loop State
      → Loop State
  unfolding handle_candidates run_heartbeats
  run_candidates c heartbeats a b started_at now (err e) l = record l {
    errors = l.errors ++ e ∷ [];
  }
  run_candidates c heartbeats a b started_at now (ok ks) l =
      run_heartbeats c heartbeats b started_at now (handle_candidates c a now 0 ks l)

  -- The store before a run, with nothing sent.
  abbrev pub idle : State → Loop State
  idle st = record { store = st; outbox = []; errors = []; run_attempts = 0 }

  -- `RunOnce`; `started_at` is 0 before the first run.
  unfoldable pub run_once :
      Config
      → Option HeartbeatConfig
      → ℕ
      → Faults
      → (ℕ → Answers)
      → HeartbeatAnswers
      → ℕ
      → State
      → ℕ × Loop State
  unfolding run_candidates
  run_once c heartbeats started_at f a b now st =
      let started = if started_at == 0 then now else started_at in
      (started, run_candidates c heartbeats a b started now (s.candidates f now st) (idle st))
