-- ===== src/Api/Samples.antt =====
-- A gateway, its messages and a database, for the tests of the API service.
use ambagrid.Common.{
  ℕ, ◌+◌, ◌*◌, none, some, true, [], ◌∷◌, Option, Text, codes, Float, second, if◌then◌else◌,
  text_eq,
}
use ambagrid.Edge.Fallback.Message.{FallbackEvent, unix_epoch, tamper_detected}
use ambagrid.Edge.Fallback.Heartbeat.{Heartbeat}
use ambagrid.Api.Sms.Parse.{
  SmsEnvelope, SmsSender, SmsReceipt, CriticalFallbackEvent, GatewayHeartbeat,
}
use ambagrid.Api.Sms.RoundTrip.{receipt_of}
use ambagrid.Api.Database.{Db, SmsPricing}
use ambagrid.Api.Fallback.Receive.{FallbackService}
use ambagrid.Api.Webhook.Handle.{Webhook}
use ambagrid.Api.Webhook.Delivery.{read_event}

abbrev pub sent_at : ℕ
sent_at = (unix_epoch + 1_700_000_000) * second + 5

abbrev pub tamper_event : FallbackEvent
tamper_event = record {
  site_id = codes "site-1";
  asset_id = codes "m1";
  sequence = 7;
  code = tamper_detected;
  temperature_c = none;
  occurred_at = sent_at;
}

abbrev pub tamper_text : Text
tamper_text = codes "AMBAGRID|v=1|site=site-1|asset=m1|seq=7|code=TAMPER_DETECTED|ts=1700000000"

abbrev pub sample_heartbeat : Heartbeat
sample_heartbeat = record {
  site_id = codes "site-1";
  gateway_id = codes "gw-1";
  sequence = 3;
  interval = 300 * second;
  sent_at = sent_at;
}

abbrev pub heartbeat_sms : Text
heartbeat_sms = codes "AMBAGRID|v=1|kind=HB|site=site-1|gw=gw-1|seq=3|int=300|ts=1700000000"

abbrev pub envelope : Text → Text → SmsEnvelope
envelope id body = record {
  message_id = id;
  from = codes "+234";
  to = codes "+1";
  body = body;
  received_at = sent_at + 9 * second;
}

abbrev pub sample_gateway : SmsSender
sample_gateway = record { site_id = codes "site-1"; gateway_id = codes "gw-1" }

abbrev pub senders : Text → Option SmsSender
senders number = if text_eq number (codes "+234") then some sample_gateway else none

abbrev pub no_float : Text → Option Float
no_float s = none

abbrev pub sample_pricing : SmsPricing
sample_pricing = record {
  outbound_cost_minor = 4;
  inbound_cost_minor = 1;
  number_rental_minor = 100;
  monthly_budget_minor = 5_000;
  currency = codes "USD";
}

abbrev pub sample_service : FallbackService
sample_service = record { topic = codes "alerts"; pricing = sample_pricing }

-- A keyless code in place of HMAC-SHA256: the signature is the first byte of the body.
abbrev first_byte : Text → Text
first_byte [] = []
first_byte (c ∷ s) = c ∷ []

abbrev pub sample_webhook : Webhook
sample_webhook = record {
  mac = first_byte;
  decode = λ body. some (envelope (codes "msg-1") body);
  read_float = no_float;
  senders = senders;
  service = sample_service;
  heartbeats_enabled = true;
}

abbrev pub sample_tables : Db
sample_tables = record {
  sites = codes "site-1" ∷ [];
  assets =
      record { asset_id = codes "m1"; site_id = codes "site-1"; asset_type = codes "smart_meter" }
      ∷ [];
  alerts = [];
  next_alert = 1;
  outbox = [];
  fallback_events = [];
  fallback_receipts = [];
  heartbeats = [];
  heartbeat_receipts = [];
}

abbrev pub tamper_read : CriticalFallbackEvent
tamper_read = read_event tamper_event none

abbrev pub tamper_receipt : SmsReceipt
tamper_receipt = receipt_of (envelope (codes "msg-1") tamper_text) (codes "gw-1")

abbrev pub heartbeat_read : GatewayHeartbeat
heartbeat_read = record {
  site_id = codes "site-1";
  gateway_id = codes "gw-1";
  sequence = 3;
  interval = 300 * second;
  sent_at = (unix_epoch + 1_700_000_000) * second;
}
