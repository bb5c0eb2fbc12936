-- ===== src/Edge/Collector/Session.antt =====
-- A pass over the telemetry sources as a history of calls on the queue.
use ambagrid.Common.{
  ◌++◌, ℕ, ◌≡◌, Bool, true, false, Option, none, some, List, [], ◌∷◌, Text, ok, err, Result, arith,
  if◌then◌else◌,
}
use ambagrid.Edge.Errors.{Error, Faults}
use ambagrid.Edge.Domain.{Event, Reading}
use ambagrid.Edge.Store.Capacity.{Store}
use ambagrid.Edge.Store.Invariant.{Inv}
use ambagrid.Edge.Store.Lifecycle.Calls.{after_call, saves_debounce}
use ambagrid.Edge.Store.History.{no_calls, one_call, then_calls, History-Inv}
use ambagrid.Edge.Fallback.Message.{FallbackEvent}
use ambagrid.Edge.Collector.Conditions.{
  Condition, condition_saved, open_found, add_if, Config, Memory, restore_debounce_state,
  admit_condition, open_once, critical_events,
}
use ambagrid.Edge.Collector.Collect.{
  collect_event, Moment, store_reading, collect_reading, collect_readings, collect_sources,
  collect_once,
}
use ambagrid.Edge.Collector.Calls.{
  CollectorCall, Collected, store_reading-History, resolve_recovered-History,
}

module _ (s : Store) where
  condition_saved-History :
      (saved : Result Error (Unit {0})) (e : FallbackEvent) (now debounce : ℕ) (m : Memory)
      (events : List FallbackEvent)
      → Collected s m.db (condition_saved saved e now debounce m events).0.db
  unfolding condition_saved admit_condition
  condition_saved-History (err x) e now debounce m events = no_calls CollectorCall s m.db
  condition_saved-History (ok _) e now debounce m events =
      let none_made = no_calls CollectorCall s m.db in ground arith

  open_found-History :
      (k : Option Condition) (f : Text → Faults) (e : FallbackEvent) (now debounce : ℕ) (m : Memory)
      (events : List FallbackEvent)
      → Collected s m.db (open_found k f e now debounce m events).0.db
  unfolding open_found admit_condition after_call
  open_found-History (some k) f e now debounce m events =
      let none_made = no_calls CollectorCall s m.db in ground arith
  open_found-History none f e now debounce m events =
      then_calls CollectorCall s
        (one_call CollectorCall s (saves_debounce (f e.code) e.asset_id e.code now) m.db tt)
        (condition_saved-History _ e now debounce (record m { db = _ }) events)

  -- What the conditions of one reading, found so far, did to the store.
  record Found (m : Memory) (found : Memory × List FallbackEvent) : Type 0 where
    history : Collected s m.db found.0.db

  add_if-Found :
      (b : Bool) (f : Text → Faults) (e : FallbackEvent) (now debounce : ℕ) (m : Memory)
      (found : Memory × List FallbackEvent)
      → Found m found
      → Found m (add_if b (open_once f e now debounce) found)
  unfolding add_if open_once
  add_if-Found true f e now debounce m (m', events) h = record {
    history =
        then_calls CollectorCall s h.history (open_found-History _ f e now debounce m' events);
  }
  add_if-Found false f e now debounce m (m', events) h = h

  critical_events-Found :
      (c : Config) (f : Text → Faults) (r : Reading) (now : ℕ) (m : Memory)
      → Found m (critical_events c f r now m)
  unfolding critical_events
  critical_events-Found c f r now m =
      let start : Found m (m, []) = record { history = no_calls CollectorCall s m.db } in
      add_if-Found _ f _ now _ m _ (
        add_if-Found _ f _ now _ m _
          (add_if-Found _ f _ now _ m _ (add_if-Found _ f _ now _ m (m, []) start)))

  collect_event-History :
      (c : Config) (has_fallback : Bool) (w : Moment) (r : Reading) (e : Result Error Event)
      (m : Memory)
      → Collected s m.db (collect_event s c has_fallback w r e m).db
  unfolding collect_event
  collect_event-History c has_fallback w r (err x) m = no_calls CollectorCall s m.db
  collect_event-History c has_fallback w r (ok e) m =
      let found = critical_events c w.save_debounce r w.now m in
      let stored = store_reading s w has_fallback e found.1 found.0 in
      then_calls CollectorCall s
        (then_calls CollectorCall s (critical_events-Found c w.save_debounce r w.now m).history
          (store_reading-History s w has_fallback e found.1 found.0))
        (resolve_recovered-History s c w has_fallback r stored)

  collect_readings-History :
      (c : Config) (has_fallback : Bool) (rs : List (Moment × Reading)) (m : Memory)
      → Collected s m.db (collect_readings s c has_fallback rs m).db
  unfolding collect_readings collect_reading
  collect_readings-History c has_fallback [] m = no_calls CollectorCall s m.db
  collect_readings-History c has_fallback ((w, r) ∷ rs) m =
      then_calls CollectorCall s (collect_event-History c has_fallback w r _ m)
        (collect_readings-History c has_fallback rs _)

  collect_sources-History :
      (c : Config) (has_fallback : Bool) (sources : List (Result Error (List (Moment × Reading))))
      (m : Memory)
      → Collected s m.db (collect_sources s c has_fallback sources m).db
  unfolding collect_sources
  collect_sources-History c has_fallback [] m = no_calls CollectorCall s m.db
  collect_sources-History c has_fallback (err x ∷ rest) m =
      collect_sources-History c has_fallback rest (record m { errors = m.errors ++ x ∷ [] })
  collect_sources-History c has_fallback (ok rs ∷ rest) m =
      then_calls CollectorCall s (collect_readings-History c has_fallback rs m)
        (collect_sources-History c has_fallback rest _)

  restored_db :
      (f : Faults) (m : Memory) → (if m.restored then m else restore_debounce_state f m).db ≡ m.db
  unfolding restore_debounce_state
  restored_db f m = ground arith

  -- A pass of the collector reaches the queue only through calls that store events, release them for
  -- upload, open and resolve incidents and keep the watched conditions.
  pub collect_once-History :
      (c : Config) (has_fallback : Bool) (f : Faults)
      (sources : List (Result Error (List (Moment × Reading)))) (m : Memory)
      → Collected s m.db (collect_once s c has_fallback f sources m).db
  unfolding collect_once
  collect_once-History c has_fallback f sources m =
      let m' = (if m.restored then m else restore_debounce_state f m) in
      let none_made : Collected s m.db m'.db =
        rw (restored_db f m) (no_calls CollectorCall s m.db) in
      let collected =
        then_calls CollectorCall s none_made (collect_sources-History c has_fallback sources m') in
      ground arith

-- A pass over any sources, whatever SQLite and the file system answer, keeps the invariant of the
-- queue.
pub collect_once-Inv :
    (s : Store) (c : Config) (has_fallback : Bool) (f : Faults)
    (sources : List (Result Error (List (Moment × Reading)))) (m : Memory)
    → Inv s.cfg m.db
    → Inv s.cfg (collect_once s c has_fallback f sources m).db
collect_once-Inv s c has_fallback f sources m v =
    History-Inv CollectorCall s (collect_once-History s c has_fallback f sources m) v
