-- ===== src/Api/Sms/RoundTrip.antt =====
-- The edge agent's SMS texts against the whole of `Parse` in sms.go.
use ambagrid.Common.{
  ◌*◌, ◌/◌, ◌≤◌, ◌≡◌, refl, false, Option, some, Text, Float, text_eq_refl, is_empty, ok, second,
  is_zero_time, max_uint64,
}
use ambagrid.Edge.Fallback.Message
use ambagrid.Edge.Fallback.Message.{FallbackEvent}
use ambagrid.Edge.Fallback.Heartbeat
use ambagrid.Edge.Fallback.Heartbeat.{Heartbeat}
use ambagrid.Api.Sms.Fields.{Fields, split_sms_message}
use ambagrid.Api.Sms.Parse.{
  SmsEnvelope, SmsSender, SmsReceipt, heartbeat, critical, read_inbound, parse_envelope, parse_sms,
}
use ambagrid.Api.Sms.Values.{Sendable, invalid_token-given}
use ambagrid.Api.Sms.HeartbeatTrip
use ambagrid.Api.Sms.CriticalTrip
use ambagrid.Api.Sms.CriticalTrip.{ReadBack}

-- What the provider of the webhook fills in.
pub record Delivered (e : SmsEnvelope) : Type 0 where
  pub has_id : is_empty e.message_id ≡ false
  pub has_sender : is_empty e.from ≡ false
  pub has_recipient : is_empty e.to ≡ false
  pub has_time : is_zero_time e.received_at ≡ false

abbrev pub receipt_of : SmsEnvelope → Text → SmsReceipt
receipt_of e gateway = record {
  provider_message_id = e.message_id;
  sender = e.from;
  recipient = e.to;
  received_at = e.received_at;
  gateway_id = gateway;
}

module _ (parse_float : Text → Option Float) (senders : Text → Option SmsSender) where
  parse_sms-read_inbound :
      (e : SmsEnvelope) (identity : SmsSender) (fields : Fields)
      → Delivered e
      → senders e.from ≡ some identity
      → is_empty identity.gateway_id ≡ false
      → split_sms_message e.body ≡ ok fields
      → parse_sms parse_float senders (some e)
        ≡ read_inbound parse_float identity (receipt_of e identity.gateway_id) fields
  unfolding parse_sms parse_envelope
  parse_sms-read_inbound e identity fields d known gateway body =
      rw (d.has_id, d.has_sender, d.has_recipient, d.has_time, body, known, gateway) refl

  -- A heartbeat that the edge agent formats comes back at the webhook, if it is delivered from
  -- the number of its site and gateway: with every field, the time of sending to the second. The
  -- sequence fits 64 bits and the time lies in the seconds of an int64 behind the Unix epoch.
  pub parse_sms-format_heartbeat :
      (h : Heartbeat) (e : SmsEnvelope)
      → Heartbeat.format_heartbeat h ≡ ok e.body
      → Delivered e
      → senders e.from ≡ some (record { site_id = h.site_id; gateway_id = h.gateway_id })
      → h.sequence ≤ max_uint64
      → Sendable h.sent_at
      → parse_sms parse_float senders (some e)
        ≡ ok (
            heartbeat
              (record {
                site_id = h.site_id;
                gateway_id = h.gateway_id;
                sequence = h.sequence;
                interval = h.interval;
                sent_at = h.sent_at / second * second;
              })
              (receipt_of e h.gateway_id))
  unfolding read_inbound
  parse_sms-format_heartbeat h e formatted d known fits t =
      let (v, text) = HeartbeatTrip.format_heartbeat-Sent h formatted in
      let body : split_sms_message e.body ≡ ok (HeartbeatTrip.heartbeat_fields h) =
        rw text (HeartbeatTrip.split_sms_message-heartbeat h v t) in
      rw
        (
          parse_sms-read_inbound e _ (HeartbeatTrip.heartbeat_fields h) d known
              (invalid_token-given h.gateway_id v.gateway_valid) body,
          HeartbeatTrip.heartbeat_fields-kind h,
          HeartbeatTrip.parse_heartbeat-fields h v t fits,
          text_eq_refl h.site_id,
          text_eq_refl h.gateway_id,
        )
        refl

  -- A critical event that the edge agent formats comes back at the webhook, if it is delivered
  -- from a number of its site: with every field, the time to the second, and the temperature as
  -- `ParseFloat` reads its text. The sequence fits 64 bits and the time lies in the seconds of an
  -- int64 behind the Unix epoch.
  pub parse_sms-format :
      (f : FallbackEvent) (e : SmsEnvelope) (gateway : Text) (temperature : Option Float)
      → Message.format f ≡ ok e.body
      → Delivered e
      → senders e.from ≡ some (record { site_id = f.site_id; gateway_id = gateway })
      → is_empty gateway ≡ false
      → f.sequence ≤ max_uint64
      → Sendable f.occurred_at
      → ReadBack parse_float f.temperature_c temperature
      → parse_sms parse_float senders (some e)
        ≡ ok (
            critical
              (record {
                site_id = f.site_id;
                asset_id = f.asset_id;
                sequence = f.sequence;
                code = f.code;
                temperature_c = temperature;
                occurred_at = f.occurred_at / second * second;
              })
              (receipt_of e gateway))
  unfolding read_inbound
  parse_sms-format f e gateway temperature formatted d known given fits t back =
      let (v, text) = CriticalTrip.format-Sent f formatted in
      let body : split_sms_message e.body ≡ ok (CriticalTrip.critical_fields f) =
        rw text (CriticalTrip.split_sms_message-critical f v t) in
      rw
        (
          parse_sms-read_inbound e _ (CriticalTrip.critical_fields f) d known given body,
          CriticalTrip.critical_fields-kind f,
          CriticalTrip.parse_critical_event-fields parse_float f temperature v t fits back,
          text_eq_refl f.site_id,
        )
        refl
