-- ===== src/Edge/Collector/Conditions.antt =====
-- collector.go: the conditions that are being watched, in memory and in the store, and the
-- critical events that a reading raises.
use ambagrid.Common.{
  ℕ, ◌+◌, Bool, true, false, ◌&&◌, ◌||◌, not, Option, none, some, List, [], ◌∷◌, ◌++◌, Text, Float,
  float_ge, ltb, if◌then◌else◌, text_eq, Result, ok, err,
}
use ambagrid.Edge.Errors.{Error, Faults}
use ambagrid.Edge.Domain.{Reading, battery_bms, solar_inverter}
use ambagrid.Edge.Store.Schema.{Db}
use ambagrid.Edge.Store.Debounces.{load_debounce_conditions, save_debounce_condition}
use ambagrid.Edge.Fallback.Message.{
  FallbackEvent, DebounceCondition, battery_overheat, inverter_failure, tamper_detected,
  site_outage, site_asset,
}

pub record Config : Type 0 where
  pub site_id : Text
  pub region : Text
  pub interval : ℕ
  pub battery_overheat_c : Float
  pub fallback_debounce : ℕ

-- A `conditionKey` with its `conditionState`.
pub record Condition : Type 0 where
  pub asset_id : Text
  pub code : Text
  pub active_since : ℕ
  pub opened : Bool

unfoldable pub condition_for : Text → Text → Condition → Bool
condition_for asset code k = text_eq k.asset_id asset && text_eq k.code code

-- The map `conditions`: at most one entry for a key.
unfoldable pub find_condition : Text → Text → List Condition → Option Condition
unfolding condition_for
find_condition asset code [] = none
find_condition asset code (k ∷ ks) =
    if condition_for asset code k then some k else find_condition asset code ks

unfoldable pub set_condition : Condition → List Condition → List Condition
unfolding condition_for
set_condition c [] = c ∷ []
set_condition c (k ∷ ks) =
    if condition_for c.asset_id c.code k then c ∷ ks else k ∷ set_condition c ks

unfoldable pub drop_condition : Text → Text → List Condition → List Condition
unfolding condition_for
drop_condition asset code [] = []
drop_condition asset code (k ∷ ks) =
    if condition_for asset code k then ks else k ∷ drop_condition asset code ks

-- What the collector changes: the store and its map. `errors` is what `errors.Join` gathers.
pub record Memory : Type 0 where
  pub db : Db
  pub conditions : List Condition
  pub restored : Bool
  pub errors : List Error

unfoldable pub restore_conditions : List DebounceCondition → List Condition
restore_conditions [] = []
restore_conditions (d ∷ ds) =
    record {
      asset_id = d.asset_id;
      code = d.code;
      active_since = d.active_since;
      opened = d.opened;
    }
    ∷ restore_conditions ds

-- `RestoreDebounceState`: the stored rows have one key each, so the map has an entry for each.
unfoldable pub restore_debounce_state : Faults → Memory → Memory
unfolding restore_conditions
restore_debounce_state f m = elim (load_debounce_conditions f m.db) [
  | err e ↦ record m { errors = m.errors ++ e ∷ [] }
  | ok ds ↦ record m { conditions = restore_conditions ds; restored = true }
]

abbrev pub note_error {ℓ} : {A : Type ℓ} → Result Error A → List Error → List Error
note_error (ok a) es = es
note_error (err e) es = es ++ e ∷ []

-- Past the debounce and not yet opened: the event goes out; the condition is kept either way.
-- `now.Sub(activeSince) < debounce` is `now < activeSince + debounce`.
unfoldable pub admit_condition :
    Condition → FallbackEvent → ℕ → ℕ → Memory → List FallbackEvent → Memory × List FallbackEvent
unfolding set_condition
admit_condition k e now debounce m events =
    let m' = record m { conditions = set_condition k m.conditions } in
    if k.opened || ltb now (k.active_since + debounce) then (m', events) else (m', events ++ e ∷ [])

-- The new condition, once the store has it.
unfoldable pub condition_saved :
    Result Error (Unit {0})
    → FallbackEvent
    → ℕ
    → ℕ
    → Memory
    → List FallbackEvent
    → Memory × List FallbackEvent
unfolding admit_condition
condition_saved (err x) e now debounce m events = (record m { errors = m.errors ++ x ∷ [] }, events)
condition_saved (ok _) e now debounce m events =
    admit_condition
      (record { asset_id = e.asset_id; code = e.code; active_since = now; opened = false }) e now
      debounce m events

unfoldable pub open_found :
    Option Condition
    → (Text → Faults)
    → FallbackEvent
    → ℕ
    → ℕ
    → Memory
    → List FallbackEvent
    → Memory × List FallbackEvent
unfolding admit_condition condition_saved
open_found (some k) f e now debounce m events = admit_condition k e now debounce m events
open_found none f e now debounce m events =
    let (db', saved) = save_debounce_condition (f e.code) e.asset_id e.code now m.db in
    condition_saved saved e now debounce (record m { db = db' }) events

unfoldable pub open_once :
    (Text → Faults)
    → FallbackEvent
    → ℕ
    → ℕ
    → Memory
    → List FallbackEvent
    → Memory × List FallbackEvent
unfolding open_found find_condition
open_once f e now debounce m events =
    open_found (find_condition e.asset_id e.code m.conditions) f e now debounce m events

unfoldable pub base_event : Config → Reading → Text → Text → Option Float → FallbackEvent
base_event c r asset code temperature = record {
  site_id = c.site_id;
  asset_id = asset;
  sequence = 0;
  code = code;
  temperature_c = temperature;
  occurred_at = r.taken_at;
}

abbrev pub is_battery : Reading → Bool
is_battery r = text_eq r.asset_type battery_bms

abbrev pub is_inverter : Reading → Bool
is_inverter r = text_eq r.asset_type solar_inverter

abbrev pub says : Bool → Option Bool → Bool
says b none = false
says true (some v) = v
says false (some v) = not v

unfoldable pub add_if :
    Bool
    → (Memory → List FallbackEvent → Memory × List FallbackEvent)
    → Memory × List FallbackEvent
    → Memory × List FallbackEvent
add_if b step (m, events) = if b then step m events else (m, events)

-- `criticalEvents`: the four conditions in the order of the source.
unfoldable pub critical_events :
    Config → (Text → Faults) → Reading → ℕ → Memory → Memory × List FallbackEvent
unfolding open_once base_event
critical_events c f r now m =
    add_if (says true r.site_outage)
      (open_once f (base_event c r site_asset site_outage none) now c.fallback_debounce)
      (add_if r.tamper_detected
        (open_once f (base_event c r r.device_id tamper_detected none) now c.fallback_debounce)
        (add_if (is_inverter r && (r.inverter_failed || r.inverter_hard_fault))
          (open_once f (base_event c r r.device_id inverter_failure none) now
            (if r.inverter_hard_fault then 0 else c.fallback_debounce))
          (add_if (is_battery r && float_ge r.internal_temperature c.battery_overheat_c)
            (open_once f (base_event c r r.device_id battery_overheat (some r.internal_temperature))
              now 0)
            (m, []))))

unfoldable pub mark_opened : FallbackEvent → Memory → Memory
unfolding find_condition set_condition
mark_opened e m = elim (find_condition e.asset_id e.code m.conditions) [
  | none ↦ m
  | some k ↦ record m { conditions = set_condition (record k { opened = true }) m.conditions }
]
