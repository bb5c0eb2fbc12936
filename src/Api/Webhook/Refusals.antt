-- ===== src/Api/Webhook/Refusals.antt =====
-- Which SMS requests are taken, and what the others leave alone.
use ambagrid.Common.{
  Option-cases, codes, not, ◌||◌, ◌>>◌, ◌∙◌, ap, text_eq, text_eq_iff, refuse_if, >>=-eq-ok,
  ok-injective, subst, is_zero_time, ◌≤◌, ◌≡◌, ◌⊎◌, inl, inr, refl, Bool, true, false, Option, none,
  some, arith, Text, is_empty, take, Result, ok, err, Bool-cases, Float,
}
use ambagrid.Api.Sms.Fields.{
  SmsError, Fields, has_key, split_sms_message, gateway_mismatch, site_mismatch, bad_payload,
}
use ambagrid.Api.Sms.Parse.{
  SmsEnvelope, SmsSender, SmsReceipt, InboundSms, read_inbound, parse_envelope, parse_heartbeat,
  parse_critical_event, critical, heartbeat, parse_sms,
}
use ambagrid.Api.Database.{ApiError, Faults, Db}
use ambagrid.Api.Fallback.Details.{event_key, heartbeat_key}
use ambagrid.Api.Fallback.Receive.{receive_sms}
use ambagrid.Api.Fallback.Outcomes.{receive_sms-refused}
use ambagrid.Api.Heartbeats.Receive.{receive_heartbeat}
use ambagrid.Api.Heartbeats.Recorded.{receive_heartbeat-refused}
use ambagrid.Api.Webhook.Handle.{
  Webhook, Answer, status, decode_hex, error_answer, verify_signature, service_answer, handle_sms,
  handle_inbound,
}

-- What came in is of the sender's site, and a heartbeat of its gateway.
abbrev pub SentBy : SmsSender → InboundSms → Type 0
SentBy sender (critical e receipt) = e.site_id ≡ sender.site_id
SentBy sender (heartbeat h receipt) =
    (h.site_id ≡ sender.site_id) × (h.gateway_id ≡ sender.gateway_id)

-- A request that is genuine: its signature is the MAC of the body in hexadecimal, and the body decodes to
-- an SMS of a registered sender that parses.
pub record Genuine (w : Webhook) (signature body : Text) : Type 0 where
  pub signed : decode_hex signature ≡ some (w.mac (take 65_536 body))
  pub sms : SmsEnvelope
  pub decoded : w.decode (take 65_536 body) ≡ some sms
  pub sender : SmsSender
  pub registered : w.senders sms.from ≡ some sender
  pub inbound : InboundSms
  pub parsed : parse_sms w.read_float w.senders (some sms) ≡ ok inbound
  pub own : SentBy sender inbound

-- A success, or an error that changed nothing.
abbrev Spared : Db → Db × Answer → Type 0
Spared db (db', answer) =
    ((status answer ≡ 200) ⊎ (status answer ≡ 201)) ⊎ ((400 ≤ status answer) × (db' ≡ db))

pub error_answer-status : (x : ApiError) → 400 ≤ status (error_answer x)
unfolding error_answer
error_answer-status x = ground arith

service_answer-Spared :
    (key : Text) (db : Db) (outcome : Db × Result ApiError Bool)
    → ((x : ApiError) → outcome.1 ≡ err x → outcome.0 ≡ db)
    → Spared db (service_answer key outcome)
unfolding service_answer
service_answer-Spared key db (db', err x) h = inr (error_answer-status x, h x refl)
service_answer-Spared key db (db', ok true) h = inl (inr refl)
service_answer-Spared key db (db', ok false) h = inl (inl refl)

handle_inbound-Spared :
    (w : Webhook) (f : Faults) (inbound : InboundSms) (db : Db)
    → Spared db (handle_inbound w f (ok inbound) db)
unfolding handle_inbound
handle_inbound-Spared w f (critical e receipt) db =
    service_answer-Spared (event_key e) db (receive_sms w.service f e receipt db)
      (λ x q. receive_sms-refused w.service f e receipt db x q)
handle_inbound-Spared w f (heartbeat h receipt) db = elim (Bool-cases w.heartbeats_enabled) [
  | inl on ↦ rw on (
      service_answer-Spared (heartbeat_key h) db
        (receive_heartbeat w.service.pricing f h receipt db)
        (λ x q. receive_heartbeat-refused w.service.pricing f h receipt db x q))
  | inr off ↦ rw off (inr (omega arith, refl))
]

read_inbound-SentBy :
    (read_float : Text → Option Float) (sender : SmsSender) (receipt : SmsReceipt) (fields : Fields)
    {inbound : InboundSms}
    → read_inbound read_float sender receipt fields ≡ ok inbound
    → SentBy sender inbound
unfolding read_inbound
read_inbound-SentBy read_float sender receipt fields h =
    elim (Bool-cases (has_key (codes "kind") fields)) [
      | inl beat ↦
          let (p, _, h1) = >>=-eq-ok (parse_heartbeat fields) _ (rw beat at h) in
          let differs =
            not (text_eq sender.site_id p.site_id)
            || not (text_eq sender.gateway_id p.gateway_id) in
          let (_, own, h2) = >>=-eq-ok (refuse_if differs gateway_mismatch) _ h1 in
          subst (SentBy sender) (ok-injective h2) (
            ground (
              arith,
              text_eq_iff sender.site_id p.site_id,
              text_eq_iff sender.gateway_id p.gateway_id,
            ))
      | inr event ↦
          let (e, _, h1) = >>=-eq-ok (parse_critical_event read_float fields) _ (rw event at h) in
          let (_, own, h2) =
            >>=-eq-ok (refuse_if (not (text_eq sender.site_id e.site_id)) site_mismatch) _ h1 in
          subst (SentBy sender) (ok-injective h2)
            (ground (arith, text_eq_iff sender.site_id e.site_id))
    ]

-- What `parse_envelope` does behind the fields.
known_sender :
    (w : Webhook) (sms : SmsEnvelope) (fields : Fields) (found : Option SmsSender)
    {inbound : InboundSms}
    → elim found [
      | none ↦ err site_mismatch
      | some identity ↦
          refuse_if (is_empty identity.gateway_id) site_mismatch
          >> read_inbound w.read_float identity
              (record {
                provider_message_id = sms.message_id;
                sender = sms.from;
                recipient = sms.to;
                received_at = sms.received_at;
                gateway_id = identity.gateway_id;
              })
              fields
    ]
      ≡ ok inbound
    → (sender : SmsSender) × (found ≡ some sender) × SentBy sender inbound
known_sender w sms fields none h = absurd (ground arith)
known_sender w sms fields (some sender) h =
    let (_, _, h1) = >>=-eq-ok (refuse_if (is_empty sender.gateway_id) site_mismatch) _ h in
    (sender, refl, read_inbound-SentBy w.read_float sender _ fields h1)

found_sender :
    (w : Webhook) (sms : SmsEnvelope) {inbound : InboundSms}
    → parse_sms w.read_float w.senders (some sms) ≡ ok inbound
    → (sender : SmsSender) × (w.senders sms.from ≡ some sender) × SentBy sender inbound
unfolding parse_sms parse_envelope
found_sender w sms h =
    let incomplete =
      is_empty sms.message_id
      || (is_empty sms.from || (is_empty sms.to || is_zero_time sms.received_at)) in
    let (_, _, h1) = >>=-eq-ok (refuse_if incomplete bad_payload) _ h in
    let (fields, _, h2) = >>=-eq-ok (split_sms_message sms.body) _ h1 in
    known_sender w sms fields (w.senders sms.from) h2

module _ (w : Webhook) (f : Faults) (signature : Text) (body : Text) (db : Db) where
  same_bytes_iff :
      verify_signature w (take 65_536 body) signature ≡ true
      → decode_hex signature ≡ some (w.mac (take 65_536 body))
  unfolding verify_signature
  same_bytes_iff h = elim (Option-cases (decode_hex signature)) [
    | inl none_read ↦ absurd (ground (arith, rw none_read at h))
    | inr (mac, read) ↦ read ∙ ap some ((text_eq_iff mac _).0 (rw read at h))
  ]

  signed-Spared :
      (sent : Option SmsEnvelope) (inbound : Result SmsError InboundSms)
      → verify_signature w (take 65_536 body) signature ≡ true
      → w.decode (take 65_536 body) ≡ sent
      → parse_sms w.read_float w.senders sent ≡ inbound
      → let (db', answer) = handle_inbound w f inbound db in
        (((status answer ≡ 200) ⊎ (status answer ≡ 201)) × Genuine w signature body)
        ⊎ ((400 ≤ status answer) × (db' ≡ db))
  unfolding handle_inbound parse_sms
  signed-Spared sent (err x) right decoded parsed = inr (omega arith, refl)
  signed-Spared none (ok inbound) right decoded parsed = absurd (ground arith)
  signed-Spared (some sms) (ok inbound) right decoded parsed =
      elim (handle_inbound-Spared w f inbound db) [
        | inl success ↦
            let (sender, registered, own) = found_sender w sms parsed in
            inl (
              success,
              record {
                signed = same_bytes_iff right;
                sms = sms;
                decoded = decoded;
                sender = sender;
                registered = registered;
                inbound = inbound;
                parsed = parsed;
                own = own;
              },
            )
        | inr refused ↦ inr refused
      ]

-- A request that is answered with 200 or 201 was genuine: signed by the provider, and an SMS of a
-- registered sender for its own site that parses. Every other request, and every genuine one that fails
-- in the service, is answered with an error and changes nothing.
pub handle_sms-spares :
    (w : Webhook) (f : Faults) (signature : Text) (body : Option Text) (db : Db)
    → let (db', answer) = handle_sms w f signature body db in
      (((status answer ≡ 200) ⊎ (status answer ≡ 201))
        × ((b : Text) × (body ≡ some b) × Genuine w signature b))
      ⊎ ((400 ≤ status answer) × (db' ≡ db))
unfolding handle_sms
handle_sms-spares w f signature none db = ground arith
handle_sms-spares w f signature (some body) db =
    let sent = take 65_536 body in
    elim (Bool-cases (is_empty signature)) [
      | inl missing ↦ rw missing (inr (omega arith, refl))
      | inr given ↦ elim (Bool-cases (verify_signature w sent signature)) [
        | inl right ↦
            rw (given, right)
              (elim (signed-Spared w f signature body db (w.decode sent) _ right refl refl) [
                | inl (success, genuine) ↦ inl (success, (body, refl, genuine))
                | inr refused ↦ inr refused
              ])
        | inr wrong ↦ rw (given, wrong) (inr (omega arith, refl))
      ]
    ]
