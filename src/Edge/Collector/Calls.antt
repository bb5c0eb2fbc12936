-- ===== src/Edge/Collector/Calls.antt =====
-- The collector as a history of calls on the queue.
use ambagrid.Common.{
  ℕ, Bool, true, false, Option, none, some, List, [], ◌∷◌, Text, ok, err, Result, arith,
}
use ambagrid.Edge.Errors.{Error}
use ambagrid.Edge.Domain.{Event, Reading}
use ambagrid.Edge.Store.Schema.{Db}
use ambagrid.Edge.Store.Capacity.{Store}
use ambagrid.Edge.Store.Lifecycle.Calls.{
  Call, after_call, persists, marks_pending, opens_incident, resolves_incident, saves_debounce,
  deletes_debounce,
}
use ambagrid.Edge.Store.History.{History, no_calls, one_call, then_calls}
use ambagrid.Edge.Fallback.Message.{
  FallbackEvent, battery_overheat, inverter_failure, tamper_detected, site_outage, site_asset,
}
use ambagrid.Edge.Collector.Conditions.{Condition, Config, Memory, mark_opened}
use ambagrid.Edge.Collector.Collect.{
  event_opened, event_stored, note_stored, condition_forgotten, resolve_stored, resolve_if, Moment,
  store_event, store_critical, forget_debounce, resolve, resolve_recovered, store_reading,
  open_incident_for, critical_event,
}

-- The calls of a collector: no record is sent, acknowledged, abandoned or deleted by it.
abbrev pub CollectorCall : Call → Type 0
CollectorCall (persists fs f now e) = Unit
CollectorCall (marks_pending f n) = Unit
CollectorCall (opens_incident f e at) = Unit
CollectorCall (resolves_incident f a c at) = Unit
CollectorCall (saves_debounce f a c since) = Unit
CollectorCall (deletes_debounce f a c) = Unit
CollectorCall _ = ⊥

abbrev pub Collected : Store → Db → Db → Type 0
Collected s = History CollectorCall s

module _ (s : Store) where
  open_incident_for-History :
      (w : Moment) (n : ℕ) (k : Option FallbackEvent) (has_fallback : Bool) (db : Db)
      → Collected s db (open_incident_for w n k has_fallback db).0
  unfolding open_incident_for after_call
  open_incident_for-History w n none has_fallback db = no_calls CollectorCall s db
  open_incident_for-History w n (some k) false db = no_calls CollectorCall s db
  open_incident_for-History w n (some k) true db =
      one_call CollectorCall s
        (opens_incident (w.open_incident k.code) (record k { sequence = n }) w.now) db tt

  event_opened-History :
      (w : Moment) (code : Text) (n : ℕ) (opened : Result Error (Unit {0})) (db : Db)
      → Collected s db (event_opened w code n opened db).0
  unfolding event_opened after_call
  event_opened-History w code n (err x) db = no_calls CollectorCall s db
  event_opened-History w code n (ok _) db =
      one_call CollectorCall s (marks_pending (w.mark_pending code) n) db tt

  event_stored-History :
      (w : Moment) (has_fallback : Bool) (code : Text) (k : Option FallbackEvent)
      (stored : Result Error ℕ) (db : Db)
      → Collected s db (event_stored w has_fallback code k stored db).0
  unfolding event_stored
  event_stored-History w has_fallback code k (err x) db = no_calls CollectorCall s db
  event_stored-History w has_fallback code k (ok n) db =
      then_calls CollectorCall s (open_incident_for-History w n k has_fallback db)
        (event_opened-History w code n _ _)

  store_event-History :
      (w : Moment) (has_fallback : Bool) (code : Text) (e : Event) (k : Option FallbackEvent)
      (db : Db)
      → Collected s db (store_event s w has_fallback code e k db).0
  unfolding store_event after_call
  store_event-History w has_fallback code e k db =
      then_calls CollectorCall s
        (one_call CollectorCall s (persists w.files (w.persist code) w.now e) db tt)
        (event_stored-History w has_fallback code k _ _)

  note_stored-History :
      (k : FallbackEvent) (stored : Result Error (Unit {0})) (m : Memory)
      → Collected s m.db (note_stored k stored m).db
  unfolding note_stored mark_opened
  note_stored-History k (err x) m = no_calls CollectorCall s m.db
  note_stored-History k (ok _) m = let none_made = no_calls CollectorCall s m.db in ground arith

  store_critical-History :
      (w : Moment) (has_fallback : Bool) (e : Event) (ks : List FallbackEvent) (m : Memory)
      → Collected s m.db (store_critical s w has_fallback e ks m).db
  unfolding store_critical
  store_critical-History w has_fallback e [] m = no_calls CollectorCall s m.db
  store_critical-History w has_fallback e (k ∷ ks) m =
      then_calls CollectorCall s
        (then_calls CollectorCall s
          (store_event-History w has_fallback k.code (critical_event e k) (some k) m.db)
          (note_stored-History k _ (record m { db = _ })))
        (store_critical-History w has_fallback e ks _)

  pub store_reading-History :
      (w : Moment) (has_fallback : Bool) (e : Event) (ks : List FallbackEvent) (m : Memory)
      → Collected s m.db (store_reading s w has_fallback e ks m).db
  unfolding store_reading
  store_reading-History w has_fallback e [] m = store_event-History w has_fallback [] e none m.db
  store_reading-History w has_fallback e (k ∷ ks) m =
      store_critical-History w has_fallback e (k ∷ ks) m

  forget_debounce-History :
      (w : Moment) (asset code : Text) (k : Option Condition) (db : Db)
      → Collected s db (forget_debounce w asset code k db).0
  unfolding forget_debounce after_call
  forget_debounce-History w asset code none db = no_calls CollectorCall s db
  forget_debounce-History w asset code (some k) db =
      one_call CollectorCall s (deletes_debounce (w.delete_debounce code) asset code) db tt

  condition_forgotten-History :
      (w : Moment) (has_fallback : Bool) (asset code : Text) (done : Result Error (Unit {0}))
      (m : Memory)
      → Collected s m.db (condition_forgotten w has_fallback asset code done m).db
  unfolding condition_forgotten resolve_stored after_call
  condition_forgotten-History w has_fallback asset code (err x) m = no_calls CollectorCall s m.db
  condition_forgotten-History w false asset code (ok _) m = no_calls CollectorCall s m.db
  condition_forgotten-History w true asset code (ok _) m =
      one_call CollectorCall s (resolves_incident (w.resolve_incident code) asset code w.now) m.db
        tt

  resolve-History :
      (w : Moment) (has_fallback : Bool) (asset code : Text) (m : Memory)
      → Collected s m.db (resolve w has_fallback asset code m).db
  unfolding resolve
  resolve-History w has_fallback asset code m =
      then_calls CollectorCall s (forget_debounce-History w asset code _ m.db)
        (condition_forgotten-History w has_fallback asset code _ (record m { db = _ }))

  resolve_if-History :
      (b : Bool) (w : Moment) (has_fallback : Bool) (asset code : Text) (m : Memory)
      → Collected s m.db (resolve_if b (resolve w has_fallback asset code) m).db
  resolve_if-History true w has_fallback asset code m = resolve-History w has_fallback asset code m
  resolve_if-History false w has_fallback asset code m = no_calls CollectorCall s m.db

  pub resolve_recovered-History :
      (c : Config) (w : Moment) (has_fallback : Bool) (r : Reading) (m : Memory)
      → Collected s m.db (resolve_recovered c w has_fallback r m).db
  unfolding resolve_recovered
  resolve_recovered-History c w has_fallback r m =
      then_calls CollectorCall s
        (then_calls CollectorCall s
          (then_calls CollectorCall s
            (resolve_if-History _ w has_fallback r.device_id battery_overheat m)
            (resolve_if-History _ w has_fallback r.device_id inverter_failure _))
          (resolve_if-History _ w has_fallback r.device_id tamper_detected _))
        (resolve_if-History _ w has_fallback site_asset site_outage _)
