-- ===== src/Api/Webhook/Delivery.antt =====
-- From the edge agent's text to the tables, and what a refused request leaves alone.
use ambagrid.Common.{
  ◌*◌, ◌/◌, ◌≤◌, ◌≡◌, refl, Bool, true, false, Option, some, Text, is_empty, take, Result, ok,
  second, max_uint64, exists_where, Float,
}
use ambagrid.Edge.Fallback.Message
use ambagrid.Edge.Fallback.Message.{FallbackEvent}
use ambagrid.Edge.Store.Schema
use ambagrid.Api.Sms.Parse.{SmsEnvelope, CriticalFallbackEvent}
use ambagrid.Api.Sms.Values.{Sendable}
use ambagrid.Api.Sms.CriticalTrip.{ReadBack}
use ambagrid.Api.Sms.RoundTrip.{Delivered, receipt_of, parse_sms-format}
use ambagrid.Api.Database.{ApiError, Faults, no_faults, Db}
use ambagrid.Api.Fallback.Details.{event_key, alert_details}
use ambagrid.Api.Fallback.Queries.{receipt_at}
use ambagrid.Api.Fallback.Receive.{receive_sms}
use ambagrid.Api.Fallback.Outcomes.{receive_sms-Received}
use ambagrid.Api.Fallback.Repeats.{Stored, Received-Stored}
use ambagrid.Api.Fallback.Integrity.{Linked}
use ambagrid.Api.Fallback.Accepts.{Ready, is_new, receive_sms_accepts}
use ambagrid.Api.Webhook.Handle.{
  Webhook, verify_signature, taken_answer, service_answer, handle_sms,
}

-- The event as the webhook reads it back, with the temperature that it reads.
abbrev pub read_event : FallbackEvent → Option Float → CriticalFallbackEvent
read_event f temperature = record {
  site_id = f.site_id;
  asset_id = f.asset_id;
  sequence = f.sequence;
  code = f.code;
  temperature_c = temperature;
  occurred_at = f.occurred_at / second * second;
}

same_key :
    (f : FallbackEvent) (t : Option Float)
    → event_key (read_event f t) ≡ Schema.event_key f.site_id f.sequence
unfolding event_key Schema.event_key
same_key f t = refl

-- A request that carries the text of an event of the edge agent.
pub record Carries (w : Webhook) (f : FallbackEvent) (temperature : Option Float) (gateway : Text)
    (e : SmsEnvelope) (signature body : Text) : Type 0 where
  pub signed : is_empty signature ≡ false
  pub verified : verify_signature w (take 65_536 body) signature ≡ true
  pub decoded : w.decode (take 65_536 body) ≡ some e
  pub formatted : Message.format f ≡ ok e.body
  pub delivered : Delivered e
  pub registered : w.senders e.from ≡ some (record { site_id = f.site_id; gateway_id = gateway })
  pub gateway_given : is_empty gateway ≡ false
  pub fits : f.sequence ≤ max_uint64
  pub timed : Sendable f.occurred_at
  pub read_back : ReadBack w.read_float f.temperature_c temperature

service_answer-ok :
    (key : Text) (outcome : Db × Result ApiError Bool) (created : Bool)
    → outcome.1 ≡ ok created
    → service_answer key outcome ≡ (outcome.0, taken_answer key created)
unfolding service_answer
service_answer-ok key (db, r) created h = rw h refl

handle_sms-receive_sms :
    (w : Webhook) (faults : Faults) (f : FallbackEvent) (temperature : Option Float)
    (gateway : Text) (e : SmsEnvelope) (signature body : Text) (db : Db)
    → Carries w f temperature gateway e signature body
    → handle_sms w faults signature (some body) db
      ≡ service_answer
          (event_key (read_event f temperature))
          (receive_sms w.service faults (read_event f temperature) (receipt_of e gateway) db)
unfolding handle_sms
handle_sms-receive_sms w faults f temperature gateway e signature body db c =
    rw
      (
        c.signed,
        c.verified,
        c.decoded,
        parse_sms-format w.read_float w.senders f e gateway temperature c.formatted c.delivered
            c.registered c.gateway_given c.fits c.timed c.read_back,
      )
      refl

-- A critical event that the edge agent formats, carried by a signed request for a database that is
-- ready for it, is answered with its own key of the edge agent, and with 201 exactly if its alert
-- is new, else with 200; and the event is stored then. No statement fails.
pub handle_sms_delivers :
    (w : Webhook) (f : FallbackEvent) (temperature : Option Float) (gateway : Text)
    (e : SmsEnvelope) (signature body : Text) (db : Db)
    → Carries w f temperature gateway e signature body
    → Ready (read_event f temperature) db
    → Linked db
    → exists_where (receipt_at e.message_id) db.fallback_receipts ≡ false
    → let (db', answer) = handle_sms w no_faults signature (some body) db in
      ((kind : Text) × (reason : Text) × (alert_details (read_event f temperature)
          ≡ ok (kind, reason))
        × (answer
            ≡ taken_answer
                (Schema.event_key f.site_id f.sequence)
                (is_new (read_event f temperature) kind db)))
      × Stored (read_event f temperature) db'
unfolding Schema.event_key event_key
handle_sms_delivers w f temperature gateway e signature body db c ready linked fresh =
    let event = read_event f temperature in
    let receipt = receipt_of e gateway in
    let (kind, reason, details, accepted) =
      receive_sms_accepts w.service event receipt db ready linked fresh in
    let kept =
      Received-Stored w.service no_faults event receipt db (is_new event kind db) _ (
        receive_sms-Received w.service no_faults event receipt db (is_new event kind db)
          accepted) in
    rw
      (
        handle_sms-receive_sms w no_faults f temperature gateway e signature body db c,
        service_answer-ok (event_key event) (receive_sms w.service no_faults event receipt db)
            (is_new event kind db) accepted,
        same_key f temperature,
      )
      ((kind, reason, details, refl), kept)
