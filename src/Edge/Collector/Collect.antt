-- ===== src/Edge/Collector/Collect.antt =====
-- normalizer.go and collector.go: a pass over the telemetry sources.
use ambagrid.Common.{
  true, ℕ, Bool, false, ◌&&◌, not, Option, none, some, List, [], ◌∷◌, ◌++◌, Text, float_lt,
  if◌then◌else◌, Result, ok, err, ◌>>◌, refuse_if, is_blank, is_empty, is_zero_time, codes,
}
use ambagrid.Edge.Errors.{Error, Faults, reading_invalid}
use ambagrid.Edge.Domain.{Event, Reading, asset_valid, topic_segment, normal, critical}
use ambagrid.Edge.Store.Schema.{Db}
use ambagrid.Edge.Store.Capacity.{Store, FileSystem}
use ambagrid.Edge.Store.Mutations.{persist, mark_pending_upload}
use ambagrid.Edge.Store.Incidents.{open_fallback_incident, resolve_fallback_incident}
use ambagrid.Edge.Store.Debounces.{delete_debounce_condition}
use ambagrid.Edge.Fallback.Message.{
  FallbackEvent, battery_overheat, inverter_failure, tamper_detected, site_outage, site_asset,
}
use ambagrid.Edge.Collector.Conditions.{
  Condition, Config, Memory, find_condition, drop_condition, restore_debounce_state, note_error,
  critical_events, mark_opened, is_battery, is_inverter, says,
}

-- `fmt.Sprintf("%s/%s/%s/%s/telemetry", ...)`.
unfoldable pub telemetry_topic : Config → Reading → Text
telemetry_topic c r =
    c.region
    ++ (codes "/"
        ++ (c.site_id
            ++ (codes "/"
                ++ (topic_segment r.asset_type
                    ++ (codes "/" ++ (r.device_id ++ codes "/telemetry"))))))

unfoldable pub normalize : Config → Reading → ℕ → Result Error Event
unfolding telemetry_topic
normalize c r received_at = do
  refuse_if (is_blank r.device_id) reading_invalid
  refuse_if (not (asset_valid r.asset_type)) reading_invalid
  refuse_if (is_zero_time r.taken_at) reading_invalid
  refuse_if (is_empty r.payload) reading_invalid
  ok (record {
    device_id = r.device_id;
    asset_type = r.asset_type;
    mqtt_topic = telemetry_topic c r;
    payload = r.payload;
    priority = normal;
    event_timestamp = r.taken_at;
    edge_received_at = received_at;
    critical_code = [];
    critical_value = none;
  })

-- What a reading meets outside the collector: the clock, the file system, and SQLite's answers to
-- the calls about each critical code (the empty text for an ordinary reading).
pub record Moment : Type 0 where
  pub now : ℕ
  pub files : FileSystem
  pub save_debounce : Text → Faults
  pub delete_debounce : Text → Faults
  pub persist : Text → Faults
  pub open_incident : Text → Faults
  pub mark_pending : Text → Faults
  pub resolve_incident : Text → Faults

-- `persist`: the event is stored first, then its incident, and only then is it ready for upload.
-- An error leaves what was stored before it. `has_fallback` is `c.fallback != nil`.
unfoldable pub open_incident_for :
    Moment → ℕ → Option FallbackEvent → Bool → Db → Db × Result Error (Unit {0})
open_incident_for w sequence none has_fallback db = (db, ok tt)
open_incident_for w sequence (some k) has_fallback db =
    if has_fallback
    then (let (db', opened) =
          open_fallback_incident (w.open_incident k.code) (record k { sequence = sequence }) w.now
            db in
        (db', elim opened [ ok _ ↦ ok tt | err e ↦ err e ]))
    else (db, ok tt)

unfoldable pub event_opened :
    Moment → Text → ℕ → Result Error (Unit {0}) → Db → Db × Result Error (Unit {0})
event_opened w code n (err x) db = (db, err x)
event_opened w code n (ok _) db = mark_pending_upload (w.mark_pending code) n db

unfoldable pub event_stored :
    Moment → Bool → Text → Option FallbackEvent → Result Error ℕ → Db → Db × Result Error (Unit {0})
unfolding open_incident_for event_opened
event_stored w has_fallback code k (err x) db = (db, err x)
event_stored w has_fallback code k (ok n) db =
    let (db', opened) = open_incident_for w n k has_fallback db in event_opened w code n opened db'

unfoldable pub store_event :
    Store → Moment → Bool → Text → Event → Option FallbackEvent → Db → Db × Result Error (Unit {0})
unfolding event_stored
store_event s w has_fallback code e k db =
    let (db', stored) = persist s w.files (w.persist code) w.now e db in
    event_stored w has_fallback code k stored db'

unfoldable pub critical_event : Event → FallbackEvent → Event
critical_event e k = record e {
  priority = critical;
  critical_code = k.code;
  critical_value = k.temperature_c;
}

-- Only an event that was stored to the end marks its condition as opened.
unfoldable pub note_stored : FallbackEvent → Result Error (Unit {0}) → Memory → Memory
note_stored k (ok _) m = mark_opened k m
note_stored k (err x) m = record m { errors = m.errors ++ x ∷ [] }

unfoldable pub store_critical : Store → Moment → Bool → Event → List FallbackEvent → Memory → Memory
unfolding store_event critical_event note_stored
store_critical s w has_fallback e [] m = m
store_critical s w has_fallback e (k ∷ ks) m =
    let (db', stored) = store_event s w has_fallback k.code (critical_event e k) (some k) m.db in
    store_critical s w has_fallback e ks (note_stored k stored (record m { db = db' }))

unfoldable pub forget_debounce :
    Moment → Text → Text → Option Condition → Db → Db × Result Error (Unit {0})
forget_debounce w asset code none db = (db, ok tt)
forget_debounce w asset code (some k) db =
    delete_debounce_condition (w.delete_debounce code) asset code db

unfoldable pub resolve_stored : Moment → Bool → Text → Text → Memory → Memory
resolve_stored w false asset code m = m
resolve_stored w true asset code m =
    let (db', done) = resolve_fallback_incident (w.resolve_incident code) asset code w.now m.db in
    record m { db = db'; errors = note_error done m.errors }

unfoldable pub condition_forgotten :
    Moment → Bool → Text → Text → Result Error (Unit {0}) → Memory → Memory
unfolding resolve_stored
condition_forgotten w has_fallback asset code (err x) m = record m { errors = m.errors ++ x ∷ [] }
condition_forgotten w has_fallback asset code (ok _) m =
    resolve_stored w has_fallback asset code
      (record m { conditions = drop_condition asset code m.conditions })

unfoldable pub resolve : Moment → Bool → Text → Text → Memory → Memory
unfolding forget_debounce condition_forgotten
resolve w has_fallback asset code m =
    let (db', deleted) =
      forget_debounce w asset code (find_condition asset code m.conditions) m.db in
    condition_forgotten w has_fallback asset code deleted (record m { db = db' })

abbrev pub resolve_if : Bool → (Memory → Memory) → Memory → Memory
resolve_if b f m = if b then f m else m

unfoldable pub resolve_recovered : Config → Moment → Bool → Reading → Memory → Memory
unfolding resolve
resolve_recovered c w has_fallback r m =
    resolve_if (says false r.site_outage) (resolve w has_fallback site_asset site_outage) (
      resolve_if (not r.tamper_detected) (resolve w has_fallback r.device_id tamper_detected) (
        resolve_if (is_inverter r && (not r.inverter_failed && not r.inverter_hard_fault))
          (resolve w has_fallback r.device_id inverter_failure)
          (resolve_if (is_battery r && float_lt r.internal_temperature c.battery_overheat_c)
            (resolve w has_fallback r.device_id battery_overheat) m)))

-- What is stored of a reading: one ordinary event, or one critical event for each condition.
unfoldable pub store_reading : Store → Moment → Bool → Event → List FallbackEvent → Memory → Memory
unfolding store_event store_critical
store_reading s w has_fallback e [] m =
    let (db', stored) = store_event s w has_fallback [] e none m.db in
    record m { db = db'; errors = note_error stored m.errors }
store_reading s w has_fallback e (k ∷ ks) m = store_critical s w has_fallback e (k ∷ ks) m

-- With what `Normalize` returns.
unfoldable pub collect_event :
    Store → Config → Bool → Moment → Reading → Result Error Event → Memory → Memory
unfolding store_reading resolve_recovered
collect_event s c has_fallback w r (err x) m = record m { errors = m.errors ++ x ∷ [] }
collect_event s c has_fallback w r (ok e) m =
    let (m', ks) = critical_events c w.save_debounce r w.now m in
    resolve_recovered c w has_fallback r (store_reading s w has_fallback e ks m')

unfoldable pub collect_reading : Store → Config → Bool → Moment → Reading → Memory → Memory
unfolding collect_event normalize
collect_reading s c has_fallback w r m = collect_event s c has_fallback w r (normalize c r w.now) m

unfoldable pub collect_readings : Store → Config → Bool → List (Moment × Reading) → Memory → Memory
unfolding collect_reading
collect_readings s c has_fallback [] m = m
collect_readings s c has_fallback ((w, r) ∷ rs) m =
    collect_readings s c has_fallback rs (collect_reading s c has_fallback w r m)

-- Each source fails or returns its readings.
unfoldable pub collect_sources :
    Store → Config → Bool → List (Result Error (List (Moment × Reading))) → Memory → Memory
unfolding collect_readings
collect_sources s c has_fallback [] m = m
collect_sources s c has_fallback (err x ∷ rest) m =
    collect_sources s c has_fallback rest (record m { errors = m.errors ++ x ∷ [] })
collect_sources s c has_fallback (ok rs ∷ rest) m =
    collect_sources s c has_fallback rest (collect_readings s c has_fallback rs m)

-- `CollectOnce`, which restores the conditions of an earlier process first.
unfoldable pub collect_once :
    Store → Config → Bool → Faults → List (Result Error (List (Moment × Reading))) → Memory → Memory
unfolding collect_sources
collect_once s c has_fallback f sources m =
    let m' = (if m.restored then m else restore_debounce_state f m) in
    if m'.restored then collect_sources s c has_fallback sources m' else m'
