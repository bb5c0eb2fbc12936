-- ===== src/Api/Webhook/Handle.antt =====
-- `handleSMSFallback` of controller/handlers.go, `VerifySignature` of webhook/sms.go, and the statuses
-- of `writeError`.
use ambagrid.Common.{
  ℕ, ◌+◌, ◌-◌, ◌*◌, Bool, true, false, ◌&&◌, Option, none, some, [], ◌∷◌, Text, codes, leb,
  if◌then◌else◌, text_eq, is_empty, take, Result, ok, err, Float,
}
use ambagrid.Api.Sms.Fields.{SmsError}
use ambagrid.Api.Sms.Parse.{
  SmsEnvelope, SmsSender, InboundSms, critical, heartbeat, parse_sms, GatewayHeartbeat, SmsReceipt,
}
use ambagrid.Api.Database.{
  ApiError, conflict, invalid_id, not_found, invalid_data, invalid_request, database, Faults, Db,
}
use ambagrid.Api.Fallback.Details.{event_key, heartbeat_key}
use ambagrid.Api.Fallback.Receive.{FallbackService, receive_sms}
use ambagrid.Api.Heartbeats.Receive.{receive_heartbeat}

-- `encoding/hex`: the value of a digit, and the bytes of a text of pairs of digits.
abbrev hex_digit : ℕ → Option ℕ
hex_digit c =
    if leb b'0' c && leb c b'9'
    then some (c - b'0')
    else if leb b'a' c && leb c b'f'
    then some (c - b'a' + 10)
    else if leb b'A' c && leb c b'F'
    then some (c - b'A' + 10)
    else none

abbrev hex_pair : Option ℕ → Option ℕ → Option Text → Option Text
hex_pair (some a) (some b) (some rest) = some ((a * 16 + b) ∷ rest)
hex_pair _ _ _ = none

unfoldable pub decode_hex : Text → Option Text
decode_hex [] = some []
decode_hex (c ∷ []) = none
decode_hex (c ∷ d ∷ s) = hex_pair (hex_digit c) (hex_digit d) (decode_hex s)

-- The status and the body of an answer: an error code, or the key and whether it is new.
pub data Answer : Type 0 where
  refused : ℕ → Text → Answer
  taken : ℕ → Text → Bool → Answer

abbrev pub status : Answer → ℕ
status (refused n code) = n
status (taken n key created) = n

-- `writeError`. A failed statement is taken for one that met no deadline.
unfoldable pub error_answer : ApiError → Answer
error_answer conflict = refused 409 (codes "conflict")
error_answer not_found = refused 404 (codes "not_found")
error_answer invalid_id = refused 400 (codes "invalid_argument")
error_answer invalid_request = refused 400 (codes "invalid_argument")
error_answer invalid_data = refused 500 (codes "internal")
error_answer database = refused 500 (codes "internal")

abbrev pub max_webhook_body_size : ℕ
max_webhook_body_size = 65_536

-- The webhook with its environment: `mac` is HMAC-SHA256 by body under the secret, `decode` is
-- `json.Unmarshal` into the envelope, `read_float` is `ParseFloat`.
pub record Webhook : Type 0 where
  pub mac : Text → Text
  pub decode : Text → Option SmsEnvelope
  pub read_float : Text → Option Float
  pub senders : Text → Option SmsSender
  pub service : FallbackService
  pub heartbeats_enabled : Bool

abbrev same_bytes : Option Text → Text → Bool
same_bytes none expected = false
same_bytes (some provided) expected = text_eq provided expected

unfoldable pub verify_signature : Webhook → Text → Text → Bool
unfolding decode_hex
verify_signature w body signature = same_bytes (decode_hex signature) (w.mac body)

unfoldable pub taken_answer : Text → Bool → Answer
taken_answer key true = taken 201 key true
taken_answer key false = taken 200 key false

unfoldable pub service_answer : Text → Db × Result ApiError Bool → Db × Answer
unfolding error_answer taken_answer
service_answer key (db, err x) = (db, error_answer x)
service_answer key (db, ok created) = (db, taken_answer key created)

unfoldable pub receive_sms_heartbeat :
    Webhook → Faults → GatewayHeartbeat → SmsReceipt → Db → Db × Answer
unfolding service_answer
receive_sms_heartbeat w f h receipt db =
    if w.heartbeats_enabled
    then service_answer (heartbeat_key h) (receive_heartbeat w.service.pricing f h receipt db)
    else (db, refused 400 (codes "invalid_argument"))

unfoldable pub handle_inbound : Webhook → Faults → Result SmsError InboundSms → Db → Db × Answer
unfolding receive_sms_heartbeat service_answer
handle_inbound w f (err x) db = (db, refused 400 (codes "invalid_argument"))
handle_inbound w f (ok (heartbeat h receipt)) db = receive_sms_heartbeat w f h receipt db
handle_inbound w f (ok (critical e receipt)) db =
    service_answer (event_key e) (receive_sms w.service f e receipt db)

unfoldable pub handle_body : Webhook → Faults → Text → Text → Db → Db × Answer
unfolding handle_inbound verify_signature
handle_body w f signature body db =
    if verify_signature w body signature
    then handle_inbound w f (parse_sms w.read_float w.senders (w.decode body)) db
    else (db, refused 401 (codes "unauthenticated"))

unfoldable pub handle_read : Webhook → Faults → Text → Option Text → Db → Db × Answer
unfolding handle_body
handle_read w f signature none db = (db, refused 400 (codes "invalid_argument"))
handle_read w f signature (some body) db =
    handle_body w f signature (take max_webhook_body_size body) db

-- `none` for a body that cannot be read.
unfoldable pub handle_sms : Webhook → Faults → Text → Option Text → Db → Db × Answer
unfolding handle_read
handle_sms w f signature body db =
    if is_empty signature
    then (db, refused 401 (codes "unauthenticated"))
    else handle_read w f signature body db
