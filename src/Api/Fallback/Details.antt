-- ===== src/Api/Fallback/Details.antt =====
-- domain/fallback.go and domain/heartbeat.go: keys, alert texts, and the times of a heartbeat.
use ambagrid.Common.{
  ℕ, ◌+◌, ◌*◌, ◌/◌, Bool, false, ◌&&◌, not, Option, none, some, ◌∷◌, ◌++◌, Text, codes, Float,
  format_tenths, ltb, ◌==◌, if◌then◌else◌, text_eq, is_empty, Result, ok, err, decimal,
}
use ambagrid.Edge.Fallback.Message.{
  battery_overheat, inverter_failure, tamper_detected, site_outage,
}
use ambagrid.Api.Sms.Parse.{CriticalFallbackEvent, GatewayHeartbeat}
use ambagrid.Api.Database.{ApiError, invalid_id, FallbackRow}

-- `NewEventKey`.
unfoldable pub new_event_key : Text → ℕ → Text
new_event_key site sequence = codes "edge:" ++ (site ++ (b':' ∷ decimal sequence))

unfoldable pub event_key : CriticalFallbackEvent → Text
unfolding new_event_key
event_key e = new_event_key e.site_id e.sequence

-- `NewHeartbeatKey`.
unfoldable pub new_heartbeat_key : Text → Text → ℕ → Text
new_heartbeat_key site gateway sequence =
    codes "hb:" ++ (site ++ (b':' ∷ (gateway ++ (b':' ∷ decimal sequence))))

unfoldable pub heartbeat_key : GatewayHeartbeat → Text
unfolding new_heartbeat_key
heartbeat_key h = new_heartbeat_key h.site_id h.gateway_id h.sequence

-- `CriticalCode.MatchesAsset`.
unfoldable pub matches_asset : Text → Text → Bool
matches_asset code asset_type =
    if text_eq code battery_overheat
    then text_eq asset_type (codes "battery_bms")
    else if text_eq code inverter_failure
    then text_eq asset_type (codes "solar_inverter")
    else if text_eq code tamper_detected
    then not (is_empty asset_type)
    else false

abbrev pub overheat_reason : Float → Text
overheat_reason x =
    codes "Battery temperature " ++ (format_tenths x ++ codes " C exceeded the critical limit")

unfoldable pub overheat_details : Option Float → Result ApiError (Text × Text)
overheat_details none = err invalid_id
overheat_details (some x) = ok (codes "battery_overheat", overheat_reason x)

-- `AlertDetails`, with the sentinel that ReceiveSMS wraps its error in.
unfoldable pub alert_details : CriticalFallbackEvent → Result ApiError (Text × Text)
unfolding overheat_details
alert_details e =
    if text_eq e.code battery_overheat
    then overheat_details e.temperature_c
    else if text_eq e.code inverter_failure
    then ok (codes "inverter_failure", codes "Inverter reported a critical failure")
    else if text_eq e.code tamper_detected
    then ok (codes "tamper_detected", codes "Asset tamper alarm triggered")
    else if text_eq e.code site_outage
    then ok (codes "site_outage", codes "Full-site outage detected")
    else err invalid_id

-- `StoredFallbackEvent.Matches`.
unfoldable pub row_matches : FallbackRow → CriticalFallbackEvent → Bool
row_matches r e =
    text_eq r.site_id e.site_id
    && (text_eq r.asset_id e.asset_id && (text_eq r.code e.code && r.sequence == e.sequence))

-- `ContactAt`: the earlier of the two clocks.
unfoldable pub contact_at : GatewayHeartbeat → ℕ → ℕ
contact_at h received_at = if ltb h.sent_at received_at then h.sent_at else received_at

-- `ExpiresAt`: two and a half intervals later.
unfoldable pub expires_at : GatewayHeartbeat → ℕ → ℕ
expires_at h contact = contact + h.interval * 5 / 2
