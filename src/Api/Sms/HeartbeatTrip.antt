-- ===== src/Api/Sms/HeartbeatTrip.antt =====
-- The heartbeat that the edge agent formats (internal/fallback/heartbeat.go), read by sms.go.
use ambagrid.Common.{
  ◌-◌, ◌*◌, ◌/◌, ◌%◌, ◌≤◌, ◌≡◌, join_with, refl, true, false, [], ◌∷◌, arith, Text, codes, ltb,
  ◌==◌, text_eq, is_empty, All, ok, second, minute, hour, contains_byte, decimal, max_uint64,
}
use ambagrid.Edge.Fallback.Message
use ambagrid.Edge.Fallback.Message.{FallbackEvent, unix_epoch, unix_text, gsm_septets}
use ambagrid.Edge.Fallback.Heartbeat
use ambagrid.Edge.Fallback.Heartbeat.{Heartbeat}
use ambagrid.Api.Sms.Fields.{Fields, value_of, split_sms_message}
use ambagrid.Api.Sms.Parse.{parse_heartbeat}
use ambagrid.Api.Sms.Render.{Printable, Fresh, rendered, split_sms_message-rendered}
use ambagrid.Api.Sms.Fields.{has_key}
use ambagrid.Api.Sms.Values.{
  Sendable, unix_text-decimal, read_sequence-decimal, read_timestamp-decimal, read_interval-decimal,
  invalid_token-valid, token-Printable, number-Printable, version_field-Printable,
}

pub heartbeat_fields : Heartbeat → Fields
heartbeat_fields h =
    (codes "v", codes "1")
    ∷ (codes "kind", codes "HB")
    ∷ (codes "site", h.site_id)
    ∷ (codes "gw", h.gateway_id)
    ∷ (codes "seq", decimal h.sequence)
    ∷ (codes "int", decimal (h.interval / second))
    ∷ (codes "ts", decimal (h.sent_at / second - unix_epoch))
    ∷ []

-- A heartbeat that the edge agent may send, as `format_heartbeat` checks it.
pub record Sent (h : Heartbeat) : Type 0 where
  pub site_valid : Message.invalid_token h.site_id ≡ false
  pub gateway_valid : Message.invalid_token h.gateway_id ≡ false
  pub numbered : (h.sequence == 0) ≡ false
  pub long_enough : ltb h.interval minute ≡ false
  pub short_enough : ltb (24 * hour) h.interval ≡ false
  pub whole_seconds : (h.interval % second == 0) ≡ true
  pub one_segment : ltb 160 (gsm_septets (Heartbeat.heartbeat_text h)) ≡ false

pub format_heartbeat-Sent :
    (h : Heartbeat) {m : Text}
    → Heartbeat.format_heartbeat h ≡ ok m
    → Sent h × (m ≡ Heartbeat.heartbeat_text h)
unfolding Heartbeat.format_heartbeat
format_heartbeat-Sent h e = ground arith

kind_field-Printable : Printable (codes "kind", codes "HB")
unfolding contains_byte is_empty
kind_field-Printable = record {
  key_given = refl;
  value_given = refl;
  key_plain = refl;
  key_free = refl;
  value_free = refl;
}

heartbeat_fields-Printable : (h : Heartbeat) → Sent h → All Printable (heartbeat_fields h)
unfolding heartbeat_fields contains_byte is_empty
heartbeat_fields-Printable h v =
    let ts = number-Printable (codes "ts") (h.sent_at / second - unix_epoch) refl refl refl in
    let interval = number-Printable (codes "int") (h.interval / second) refl refl refl in
    let seq = number-Printable (codes "seq") h.sequence refl refl refl in
    let gw = token-Printable (codes "gw") h.gateway_id refl refl refl v.gateway_valid in
    let site = token-Printable (codes "site") h.site_id refl refl refl v.site_valid in
    (version_field-Printable, (kind_field-Printable, (site, (gw, (seq, (interval, (ts, tt)))))))

heartbeat_fields-Fresh : (h : Heartbeat) → Fresh [] (heartbeat_fields h)
unfolding heartbeat_fields has_key
heartbeat_fields-Fresh h = (refl, (refl, (refl, (refl, (refl, (refl, (refl, tt)))))))

heartbeat_text-rendered :
    (h : Heartbeat)
    → Sendable h.sent_at
    → Heartbeat.heartbeat_text h ≡ rendered (heartbeat_fields h)
unfolding Heartbeat.heartbeat_text heartbeat_fields Message.join join_with
heartbeat_text-rendered h t = rw (unix_text-decimal h.sent_at t)

-- The fields of a heartbeat text.
pub split_sms_message-heartbeat :
    (h : Heartbeat)
    → Sent h
    → Sendable h.sent_at
    → split_sms_message (Heartbeat.heartbeat_text h) ≡ ok (heartbeat_fields h)
unfolding heartbeat_fields value_of join_with is_empty
split_sms_message-heartbeat h v t =
    let same = heartbeat_text-rendered h t in
    rw same (
      split_sms_message-rendered (heartbeat_fields h) (heartbeat_fields-Printable h v)
        (heartbeat_fields-Fresh h) (omega arith) refl refl (rw same at v.one_segment))

pub parse_heartbeat-fields :
    (h : Heartbeat)
    → Sent h
    → Sendable h.sent_at
    → h.sequence ≤ max_uint64
    → parse_heartbeat (heartbeat_fields h)
      ≡ ok (record {
        site_id = h.site_id;
        gateway_id = h.gateway_id;
        sequence = h.sequence;
        interval = h.interval;
        sent_at = h.sent_at / second * second;
      })
unfolding parse_heartbeat heartbeat_fields join_with text_eq
parse_heartbeat-fields h v t fits =
    rw
      (
        read_sequence-decimal h.sequence v.numbered fits,
        read_timestamp-decimal h.sent_at t,
        read_interval-decimal h.interval v.long_enough v.short_enough v.whole_seconds,
        invalid_token-valid h.site_id v.site_valid,
        invalid_token-valid h.gateway_id v.gateway_valid,
      )
      refl

pub heartbeat_fields-kind : (h : Heartbeat) → has_key (codes "kind") (heartbeat_fields h) ≡ true
unfolding heartbeat_fields has_key
heartbeat_fields-kind h = refl
