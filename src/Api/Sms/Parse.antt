-- ===== src/Api/Sms/Parse.antt =====
-- sms.go and domain/{fallback,heartbeat}.go: the events that SMS texts carry.
use ambagrid.Common.{
  ℕ, ◌+◌, ◌-◌, ◌*◌, ◌%◌, ◌^◌, Bool, true, false, ◌&&◌, ◌||◌, not, Option, none, some, List, [], ◌∷◌,
  Text, codes, Float, is_nan, is_inf, ltb, ◌==◌, if◌then◌else◌, text_eq, is_empty, Result, ok, err,
  ◌>>=◌, ◌>>◌, refuse_if, second, minute, hour, ℤ, pos, negsuc, parse_uint, parse_int, join_with,
  is_zero_time,
}
use ambagrid.Edge.Fallback.Message.{
  token_byte, unix_epoch, battery_overheat, inverter_failure, tamper_detected, site_outage,
  site_asset, bool_ne, has_value,
}
use ambagrid.Api.Sms.Fields

pub record CriticalFallbackEvent : Type 0 where
  pub site_id : Text
  pub asset_id : Text
  pub sequence : ℕ
  pub code : Text
  pub temperature_c : Option Float
  pub occurred_at : ℕ

pub record GatewayHeartbeat : Type 0 where
  pub site_id : Text
  pub gateway_id : Text
  pub sequence : ℕ
  pub interval : ℕ
  pub sent_at : ℕ

pub record SmsReceipt : Type 0 where
  pub provider_message_id : Text
  pub sender : Text
  pub recipient : Text
  pub received_at : ℕ
  pub gateway_id : Text

-- `InboundSMS` carries exactly one of the two, with its receipt.
pub data InboundSms : Type 0 where
  critical : CriticalFallbackEvent → SmsReceipt → InboundSms
  heartbeat : GatewayHeartbeat → SmsReceipt → InboundSms

pub record SmsSender : Type 0 where
  pub site_id : Text
  pub gateway_id : Text

pub record SmsEnvelope : Type 0 where
  pub message_id : Text
  pub from : Text
  pub to : Text
  pub body : Text
  pub received_at : ℕ

-- The loop walks runes: a byte above 127 is part of a rune that is no token character.
unfoldable pub valid_sms_bytes : Text → Bool
valid_sms_bytes [] = true
valid_sms_bytes (c ∷ s) = token_byte c && valid_sms_bytes s

unfoldable pub valid_sms_token : Text → Bool
unfolding valid_sms_bytes
valid_sms_token s = valid_sms_bytes s && not (is_empty s)

-- `CriticalCode.Valid`.
unfoldable pub critical_code_valid : Text → Bool
critical_code_valid c =
    text_eq c battery_overheat
    || (text_eq c inverter_failure || (text_eq c tamper_detected || text_eq c site_outage))

abbrev int64_of_bits : ℕ → ℤ
int64_of_bits w = if ltb w (2 ^ 63) then pos w else negsuc (2 ^ 64 - 1 - w)

-- `time.Duration(seconds) * time.Second` in 64 bits: the product wraps around.
unfoldable pub duration_of_seconds : ℤ → ℤ
duration_of_seconds (pos n) = int64_of_bits (n * second % 2 ^ 64)
duration_of_seconds (negsuc n) = int64_of_bits ((2 ^ 64 - (n + 1) * second % 2 ^ 64) % 2 ^ 64)

abbrev pub min_heartbeat_interval : ℕ
min_heartbeat_interval = minute

abbrev pub max_heartbeat_interval : ℕ
max_heartbeat_interval = 24 * hour

-- A positive number of a field, as a sequence and as the time that `time.Unix(epoch, 0)` gives.
unfoldable pub read_sequence : Text → Result Fields.SmsError ℕ
read_sequence s = elim (parse_uint s) [
  | none ↦ err Fields.bad_sequence
  | some n ↦ if n == 0 then err Fields.bad_sequence else ok n
]

abbrev time_of : ℤ → Result Fields.SmsError ℕ
time_of (pos epoch) =
    if epoch == 0 then err Fields.bad_timestamp else ok ((unix_epoch + epoch) * second)
time_of (negsuc n) = err Fields.bad_timestamp

unfoldable pub read_timestamp : Text → Result Fields.SmsError ℕ
read_timestamp s = elim (parse_int s) [
  | none ↦ err Fields.bad_timestamp
  | some epoch ↦ time_of epoch
]

abbrev bounded_interval : ℤ → Result Fields.SmsError ℕ
bounded_interval (pos d) =
    if ltb d min_heartbeat_interval || ltb max_heartbeat_interval d
    then err Fields.bad_interval
    else ok d
bounded_interval (negsuc n) = err Fields.bad_interval

unfoldable pub read_interval : Text → Result Fields.SmsError ℕ
unfolding duration_of_seconds
read_interval s = elim (parse_int s) [
  | none ↦ err Fields.bad_interval
  | some seconds ↦ bounded_interval (duration_of_seconds seconds)
]

unfoldable pub parse_heartbeat : Fields.Fields → Result Fields.SmsError GatewayHeartbeat
unfolding Fields.value_of Fields.keys
parse_heartbeat fields = do
  refuse_if (not (text_eq (Fields.value_of (codes "kind") fields) (codes "HB"))) Fields.unknown_kind
  refuse_if
      (not (text_eq (join_with b',' (Fields.keys fields)) (codes "v,kind,site,gw,seq,int,ts")))
      Fields.out_of_order
  sequence ← read_sequence (Fields.value_of (codes "seq") fields)
  sent_at ← read_timestamp (Fields.value_of (codes "ts") fields)
  interval ← read_interval (Fields.value_of (codes "int") fields)
  let site = Fields.value_of (codes "site") fields
  let gateway = Fields.value_of (codes "gw") fields
  refuse_if (not (valid_sms_token site) || not (valid_sms_token gateway)) Fields.bad_identity
  ok (record {
    site_id = site;
    gateway_id = gateway;
    sequence = sequence;
    interval = interval;
    sent_at = sent_at;
  })

abbrev known_key : Text → Bool
known_key k =
    text_eq k (codes "v")
    || (text_eq k (codes "site")
        || (text_eq k (codes "asset")
            || (text_eq k (codes "seq")
                || (text_eq k (codes "code")
                    || (text_eq k (codes "temp") || text_eq k (codes "ts"))))))

unfoldable pub all_known : List Text → Bool
all_known [] = true
all_known (k ∷ ks) = known_key k && all_known ks

abbrev pub wanted_keys : Bool → Text
wanted_keys true = codes "v,site,asset,seq,code,temp,ts"
wanted_keys false = codes "v,site,asset,seq,code,ts"

-- `strconv.ParseFloat(s, 64)` is a parameter: `none` for its errors.
module _ (parse_float : Text → Option Float) where
  abbrev read_finite : Option Float → Result Fields.SmsError (Option Float)
  read_finite none = err Fields.bad_temperature
  read_finite (some x) = if is_nan x || is_inf x then err Fields.bad_temperature else ok (some x)

  unfoldable pub read_temperature : Text → Result Fields.SmsError (Option Float)
  read_temperature raw = if is_empty raw then ok none else read_finite (parse_float raw)

  unfoldable pub parse_critical_event : Fields.Fields → Result Fields.SmsError CriticalFallbackEvent
  unfolding all_known Fields.value_of Fields.keys
  parse_critical_event fields = do
    refuse_if (not (all_known (Fields.keys fields))) Fields.unknown_field
    sequence ← read_sequence (Fields.value_of (codes "seq") fields)
    occurred_at ← read_timestamp (Fields.value_of (codes "ts") fields)
    let code = Fields.value_of (codes "code") fields
    let site = Fields.value_of (codes "site") fields
    let asset = Fields.value_of (codes "asset") fields
    refuse_if (not (critical_code_valid code)) Fields.bad_identity_or_code
    refuse_if (not (valid_sms_token site) || not (valid_sms_token asset))
        Fields.bad_identity_or_code
    temperature ← read_temperature (Fields.value_of (codes "temp") fields)
    let overheat = text_eq code battery_overheat
    refuse_if (overheat && not (has_value temperature)) Fields.temperature_required
    refuse_if (not overheat && has_value temperature) Fields.temperature_stray
    refuse_if (not (text_eq (join_with b',' (Fields.keys fields)) (wanted_keys overheat)))
        Fields.out_of_order
    refuse_if (bool_ne (text_eq code site_outage) (text_eq asset site_asset)) Fields.outage_asset
    ok (record {
      site_id = site;
      asset_id = asset;
      sequence = sequence;
      code = code;
      temperature_c = temperature;
      occurred_at = occurred_at;
    })

  -- `Parse` behind the decoding of the JSON envelope, over the map of the senders.
  unfoldable pub read_inbound :
      SmsSender → SmsReceipt → Fields.Fields → Result Fields.SmsError InboundSms
  unfolding Fields.has_key
  read_inbound identity receipt fields =
      if Fields.has_key (codes "kind") fields
      then (do
        h ← parse_heartbeat fields
        refuse_if
            (not (text_eq identity.site_id h.site_id)
              || not (text_eq identity.gateway_id h.gateway_id))
            Fields.gateway_mismatch
        ok (heartbeat h receipt))
      else (do
        e ← parse_critical_event fields
        refuse_if (not (text_eq identity.site_id e.site_id)) Fields.site_mismatch
        ok (critical e receipt))

  unfoldable pub parse_envelope :
      (Text → Option SmsSender) → SmsEnvelope → Result Fields.SmsError InboundSms
  unfolding read_inbound
  parse_envelope senders e = do
    refuse_if
        (is_empty e.message_id
          || (is_empty e.from || (is_empty e.to || is_zero_time e.received_at)))
        Fields.bad_payload
    fields ← Fields.split_sms_message e.body
    elim (senders e.from) [
      | none ↦ err Fields.site_mismatch
      | some identity ↦ do
        refuse_if (is_empty identity.gateway_id) Fields.site_mismatch
        read_inbound identity
            (record {
              provider_message_id = e.message_id;
              sender = e.from;
              recipient = e.to;
              received_at = e.received_at;
              gateway_id = identity.gateway_id;
            })
            fields
    ]

  -- The JSON of the body, decoded by `encoding/json`; `none` where it does not decode.
  unfoldable pub parse_sms :
      (Text → Option SmsSender) → Option SmsEnvelope → Result Fields.SmsError InboundSms
  unfolding parse_envelope
  parse_sms senders none = err Fields.bad_payload
  parse_sms senders (some e) = parse_envelope senders e
