-- ===== src/Edge/Collector/Examples.antt =====
-- The collector's theorems at concrete inputs.
use ambagrid.Common.{
  ℕ, ◌+◌, ◌*◌, ◌≢◌, none, true, false, List, [], ◌∷◌, codes, ok, minute, arith, Result,
}
use ambagrid.Edge.Errors.{no_faults, Error}
use ambagrid.Edge.Domain.{Reading, smart_meter}
use ambagrid.Edge.Store.Debounces.{save_debounce_condition}
use ambagrid.Edge.Collector.Conditions.{
  Config, Memory, open_once, open_found, admit_condition, condition_saved, find_condition,
}
use ambagrid.Edge.Collector.Collect.{Moment}
use ambagrid.Edge.Samples.{sample_files, sample_time, sample_db, sample_tamper}

abbrev settings : Config
settings = record {
  site_id = codes "site-1";
  region = codes "lagos";
  interval = minute;
  battery_overheat_c = 0x404E000000000000;
  fallback_debounce = 5 * minute;
}

abbrev memory : Memory
memory = record { db = sample_db; conditions = []; restored = false; errors = [] }

-- A meter that reports tampering.
abbrev tampered : Reading
tampered = record {
  device_id = codes "m3";
  asset_type = smart_meter;
  taken_at = sample_time;
  payload = codes "{}";
  metrics = none;
  internal_temperature = 0;
  relay_closed = true;
  battery_soc_pct = 0;
  solar_irradiance = 0;
  inverter_failed = false;
  inverter_hard_fault = false;
  tamper_detected = true;
  site_outage = none;
}

abbrev moment : ℕ → Moment
moment now = record {
  now = now;
  files = sample_files;
  save_debounce = λ _. no_faults;
  delete_debounce = λ _. no_faults;
  persist = λ _. no_faults;
  open_incident = λ _. no_faults;
  mark_pending = λ _. no_faults;
  resolve_incident = λ _. no_faults;
}

-- Two samples, the second past the debounce.
abbrev sources : List (Result Error (List (Moment × Reading)))
sources =
    ok ((moment sample_time, tampered) ∷ (moment (sample_time + 6 * minute), tampered) ∷ []) ∷ []

-- A condition without a debounce raises its event at once.
raised_now : (open_once (λ _. no_faults) sample_tamper sample_time 0 memory []).1 ≢ []
unfolding open_once find_condition open_found save_debounce_condition condition_saved
    admit_condition
raised_now = ground arith
