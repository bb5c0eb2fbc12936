-- ===== src/Edge/Fallback/Heartbeat.antt =====
-- heartbeat.go: the SMS liveness signal of a gateway without packet data.
use ambagrid.Common.{
  ℕ, ◌+◌, ◌*◌, ◌/◌, ◌%◌, Bool, true, false, ◌&&◌, ◌||◌, not, Option, none, some, [], ◌∷◌, ◌++◌,
  Text, codes, ltb, leb, ◌==◌, if◌then◌else◌, Result, ok, ◌>>◌, refuse_if, is_zero_time, second,
  minute, hour, decimal,
}
use ambagrid.Edge.Errors.{
  Error, heartbeat_ids_invalid, heartbeat_time_required, message_too_long,
  heartbeat_interval_invalid,
}
use ambagrid.Edge.Fallback.Message.{invalid_token, gsm_septets, unix_text, join}

pub record Heartbeat : Type 0 where
  pub site_id : Text
  pub gateway_id : Text
  pub sequence : ℕ
  pub interval : ℕ
  pub sent_at : ℕ

abbrev pub min_heartbeat_interval : ℕ
min_heartbeat_interval = minute

abbrev pub max_heartbeat_interval : ℕ
max_heartbeat_interval = 24 * hour

unfoldable pub heartbeat_text : Heartbeat → Text
heartbeat_text h = join (codes "|") (
    codes "AMBAGRID"
    ∷ codes "v=1"
    ∷ codes "kind=HB"
    ∷ (codes "site=" ++ h.site_id)
    ∷ (codes "gw=" ++ h.gateway_id)
    ∷ (codes "seq=" ++ decimal h.sequence)
    ∷ (codes "int=" ++ decimal (h.interval / second))
    ∷ (codes "ts=" ++ unix_text h.sent_at)
    ∷ [])

unfoldable pub format_heartbeat : Heartbeat → Result Error Text
unfolding heartbeat_text
format_heartbeat h = do
  refuse_if (invalid_token h.site_id || invalid_token h.gateway_id) heartbeat_ids_invalid
  refuse_if (h.sequence == 0 || is_zero_time h.sent_at) heartbeat_time_required
  refuse_if
      (ltb h.interval min_heartbeat_interval
        || (ltb max_heartbeat_interval h.interval || not (h.interval % second == 0)))
      heartbeat_interval_invalid
  refuse_if (ltb 160 (gsm_septets (heartbeat_text h)))
      (message_too_long (gsm_septets (heartbeat_text h)))
  ok (heartbeat_text h)

-- The texts of these errors, which are recorded with the attempt.
unfoldable pub heartbeat_error_text : Error → Text
heartbeat_error_text heartbeat_ids_invalid =
    codes "site and gateway IDs must be non-empty GSM-7 tokens"
heartbeat_error_text heartbeat_time_required = codes "heartbeat sequence and send time are required"
heartbeat_error_text (message_too_long n) =
    codes "heartbeat message is " ++ (decimal n ++ codes " GSM-7 septets; maximum is 160")
heartbeat_error_text _ = codes "heartbeat interval must be whole seconds between 1m0s and 24h0m0s"

pub record HeartbeatState : Type 0 where
  pub last_upload_success : Option ℕ
  pub last_attempt_at : Option ℕ
  pub last_attempt_failed : Bool
  pub attempts_last_day : ℕ

pub record HeartbeatConfig : Type 0 where
  pub site_id : Text
  pub gateway_id : Text
  pub interval : ℕ
  pub daily_limit : ℕ

abbrev pub or_else : Option ℕ → ℕ → ℕ
or_else none d = d
or_else (some t) d = t

-- The last attempt belongs to an outage that an upload has ended since: `!last.After(success)`.
abbrev pub closed_by : Option ℕ → ℕ → Bool
closed_by none attempt = false
closed_by (some success) attempt = leb attempt success

-- `heartbeatDue`, with the fallback's OfflineAfter and RetryInterval. `now.Sub(t) < d` is
-- `now < t + d`, and `now.Sub(t) >= d` is `t + d <= now`.
unfoldable pub heartbeat_due : ℕ → ℕ → HeartbeatConfig → ℕ → HeartbeatState → ℕ → Bool
heartbeat_due offline_after retry_interval cfg started_at s now =
    if ltb now (or_else s.last_upload_success started_at + offline_after)
      || leb cfg.daily_limit s.attempts_last_day
    then false
    else elim s.last_attempt_at [
      | none ↦ true
      | some attempt ↦
          if closed_by s.last_upload_success attempt
          then true
          else (let wait =
                if s.last_attempt_failed && ltb retry_interval cfg.interval
                then retry_interval
                else cfg.interval in
              leb (attempt + wait) now)
    ]
