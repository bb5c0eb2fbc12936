-- ===== src/Edge/Collector/Debounce.antt =====
-- One critical event per condition: when the collector raises an event, and when it is silent.
use ambagrid.Common.{
  ℕ, ◌+◌, ◌≤◌, ◌≡◌, ◌≢◌, refl, true, false, Option, none, some, List, [], ◌∷◌, Text, arith, ok, err,
  Result, text_eq_iff, text_eq_refl,
}
use ambagrid.Edge.Errors.{Error, Faults}
use ambagrid.Edge.Fallback.Message.{FallbackEvent}
use ambagrid.Edge.Collector.Conditions.{
  Condition, Memory, condition_for, find_condition, set_condition, admit_condition, condition_saved,
  open_found, open_once, mark_opened,
}

found-key :
    (asset code : Text) (ks : List Condition) (k : Condition)
    → find_condition asset code ks ≡ some k
    → (k.asset_id ≡ asset) × (k.code ≡ code)
unfolding find_condition condition_for
found-key asset code [] k h = absurd (ground arith)
found-key asset code (x ∷ ks) k h =
    ground (arith, found-key asset code ks k, text_eq_iff x.asset_id asset, text_eq_iff x.code code)

find-set :
    (k : Condition) (ks : List Condition)
    → find_condition k.asset_id k.code (set_condition k ks) ≡ some k
unfolding find_condition set_condition condition_for
find-set k [] = ground (arith, text_eq_refl k.asset_id, text_eq_refl k.code)
find-set k (x ∷ ks) = ground (arith, find-set k ks, text_eq_refl k.asset_id, text_eq_refl k.code)

-- The condition that an event was raised for: it is being watched, had raised none before and has
-- lasted for the debounce.
pub record Raised (e : FallbackEvent) (now debounce : ℕ) (ks : List Condition) : Type 0 where
  pub condition : Condition
  pub watched : find_condition e.asset_id e.code ks ≡ some condition
  pub first : condition.opened ≡ false
  pub lasted : condition.active_since + debounce ≤ now

admit-Raised :
    (k : Condition) (e : FallbackEvent) (now debounce : ℕ) (m : Memory)
    (events : List FallbackEvent)
    → k.asset_id ≡ e.asset_id
    → k.code ≡ e.code
    → (admit_condition k e now debounce m events).1 ≢ events
    → Raised e now debounce (admit_condition k e now debounce m events).0.conditions
unfolding admit_condition
admit-Raised k e now debounce m events same_asset same_code raised = record {
  condition = k;
  watched = ground (arith, find-set k m.conditions);
  first = ground arith;
  lasted = ground arith;
}

condition_saved-Raised :
    (saved : Result Error (Unit {0})) (e : FallbackEvent) (now debounce : ℕ) (m : Memory)
    (events : List FallbackEvent)
    → (condition_saved saved e now debounce m events).1 ≢ events
    → Raised e now debounce (condition_saved saved e now debounce m events).0.conditions
unfolding condition_saved
condition_saved-Raised (err x) e now debounce m events raised = absurd (raised refl)
condition_saved-Raised (ok _) e now debounce m events raised =
    admit-Raised
      (record { asset_id = e.asset_id; code = e.code; active_since = now; opened = false }) e now
      debounce m events refl refl raised

open_found-Raised :
    (found : Option Condition) (f : Text → Faults) (e : FallbackEvent) (now debounce : ℕ)
    (m : Memory) (events : List FallbackEvent)
    → ((k : Condition) → found ≡ some k → (k.asset_id ≡ e.asset_id) × (k.code ≡ e.code))
    → (open_found found f e now debounce m events).1 ≢ events
    → Raised e now debounce (open_found found f e now debounce m events).0.conditions
unfolding open_found
open_found-Raised none f e now debounce m events key raised =
    condition_saved-Raised _ e now debounce _ events raised
open_found-Raised (some k) f e now debounce m events key raised =
    let (same_asset, same_code) = key k refl in
    admit-Raised k e now debounce m events same_asset same_code raised

-- A sample adds a critical event only for a condition that is watched after it, has raised no event
-- yet, and has been active for the debounce of its code.
pub open_once-Raised :
    (f : Text → Faults) (e : FallbackEvent) (now debounce : ℕ) (m : Memory)
    (events : List FallbackEvent)
    → (open_once f e now debounce m events).1 ≢ events
    → Raised e now debounce (open_once f e now debounce m events).0.conditions
unfolding open_once
open_once-Raised f e now debounce m events raised =
    open_found-Raised _ f e now debounce m events (λ k. found-key e.asset_id e.code m.conditions k)
      raised

mark_opened-opened :
    (e : FallbackEvent) (m : Memory) (k : Condition)
    → find_condition e.asset_id e.code m.conditions ≡ some k
    → find_condition e.asset_id e.code (mark_opened e m).conditions
      ≡ some (record k { opened = true })
unfolding mark_opened
mark_opened-opened e m k h =
    let (same_asset, same_code) = found-key e.asset_id e.code m.conditions k h in
    let set = find-set (record k { opened = true }) m.conditions in ground arith

opened-silent :
    (f : Text → Faults) (e : FallbackEvent) (now debounce : ℕ) (m : Memory)
    (events : List FallbackEvent) (k : Condition)
    → find_condition e.asset_id e.code m.conditions ≡ some k
    → k.opened ≡ true
    → (open_once f e now debounce m events).1 ≡ events
unfolding open_once open_found admit_condition
opened-silent f e now debounce m events k h opened = rw h (ground arith)

-- Once an event was raised and stored, the condition is marked as opened, and the next sample of the
-- same asset and code raises none, whatever the times and debounces are.
pub open_once-silent :
    (f f' : Text → Faults) (e e' : FallbackEvent) (now now' debounce debounce' : ℕ) (m : Memory)
    (events events' : List FallbackEvent)
    → (open_once f e now debounce m events).1 ≢ events
    → e'.asset_id ≡ e.asset_id
    → e'.code ≡ e.code
    → (open_once f' e' now' debounce'
        (mark_opened e (open_once f e now debounce m events).0)
        events').1
      ≡ events'
open_once-silent f f' e e' now now' debounce debounce' m events events' raised asset code =
    let r = open_once-Raised f e now debounce m events raised in
    let m' = mark_opened e (open_once f e now debounce m events).0 in
    let marked =
      mark_opened-opened e (open_once f e now debounce m events).0 r.condition r.watched in
    opened-silent f' e' now' debounce' m' events' (record r.condition { opened = true })
      (rw (asset, code) marked) refl
