-- ===== src/Ingest/Validate.antt =====
-- ingest/handler.go: `validateHealth` and `validateRecord`.
use ambagrid.Common.{
  ℤ, negsuc, ◌||◌, pos, ◌==◌, Bool, true, false, not, ◌&&◌, Option, none, some, List, [], ◌∷◌, ◌++◌,
  Text, codes, if◌then◌else◌, text_eq, is_empty, is_blank, is_zero_time, is_negative, Result, ◌>>◌,
  refuse_if,
}
use ambagrid.Ingest.Types.{IngestRecord, IngestBatch}

-- The error texts that a client sees.
abbrev pub Message : Type 0
Message = Text

abbrev pub is_zero : ℤ → Bool
is_zero (pos n) = n == 0
is_zero (negsuc n) = false

abbrev pub given {ℓ} : {A : Type ℓ} → Option A → Bool
given none = false
given (some a) = true

unfoldable pub validate_health : IngestBatch → Result Message (Unit {0})
validate_health b = do
  refuse_if (is_blank b.gateway_id) (codes "gateway_id is required")
  refuse_if (is_negative b.queue_depth) (codes "queue_depth must not be negative")
  refuse_if (is_zero b.queue_depth && given b.oldest_pending_at)
      (codes "oldest_pending_at must be null when queue_depth is zero")
  refuse_if (not (is_zero b.queue_depth) && not (given b.oldest_pending_at))
      (codes "oldest_pending_at is required when queue_depth is positive")

-- `if b { errs = append(errs, ...) }`.
abbrev pub problem : Bool → Message → List Message
problem true m = m ∷ []
problem false m = []

abbrev pub only_for_battery : Message
only_for_battery = codes "critical_value is only valid for battery overheat"

-- The switch on `CriticalCode`.
unfoldable pub critical_problems : IngestRecord → List Message
critical_problems r =
    if is_empty r.critical_code
    then problem (given r.critical_value) (codes "critical_value requires critical_code")
    else if text_eq r.critical_code (codes "BATTERY_OVERHEAT")
    then problem (not (text_eq r.asset_type (codes "battery_bms")))
        (codes "battery overheat requires a battery asset")
      ++ problem (not (given r.critical_value))
          (codes "critical_value is required for battery overheat")
    else if text_eq r.critical_code (codes "INVERTER_FAILURE")
    then problem (not (text_eq r.asset_type (codes "solar_inverter")))
        (codes "inverter failure requires an inverter asset")
      ++ problem (given r.critical_value) only_for_battery
    else if text_eq r.critical_code (codes "TAMPER_DETECTED")
        || text_eq r.critical_code (codes "SITE_OUTAGE")
    then problem (given r.critical_value) only_for_battery
    else codes "critical_code is not supported" ∷ []

unfoldable pub record_problems : IngestRecord → List Message
unfolding critical_problems
record_problems r =
    problem (r.sequence == 0) (codes "sequence must be greater than zero")
    ++ (problem (is_blank r.site_id) (codes "site_id is required")
        ++ (problem (is_blank r.gateway_id) (codes "gateway_id is required")
            ++ (problem (is_blank r.device_id) (codes "device_id is required")
                ++ (problem (is_blank r.mqtt_topic) (codes "mqtt_topic is required")
                    ++ (problem (is_empty r.payload) (codes "payload must not be empty")
                        ++ (problem (is_zero_time r.event_timestamp)
                              (codes "event_timestamp is required")
                            ++ (problem (is_zero_time r.uploaded_at)
                                  (codes "uploaded_at is required")
                                ++ critical_problems r)))))))

-- `strings.Join(errs, "; ")`.
unfoldable pub join_messages : List Message → Message
join_messages [] = []
join_messages (m ∷ []) = m
join_messages (m ∷ n ∷ ms) = m ++ (codes "; " ++ join_messages (n ∷ ms))

-- No error, or the text of all of them.
abbrev pub problems_error : List Message → Option Message
problems_error [] = none
problems_error (m ∷ ms) = some (join_messages (m ∷ ms))

unfoldable pub validate_record : IngestRecord → Option Message
unfolding record_problems join_messages
validate_record r = problems_error (record_problems r)
