-- ===== src/Api/Payments/Checks.antt =====
-- webhook/paystack.go, and the checks of services/payments.go.
use ambagrid.Common.{
  ℕ, ◌+◌, ◌/◌, ◌%◌, Bool, not, Option, none, some, [], ◌∷◌, Text, codes, ltb, ◌==◌, if◌then◌else◌,
  text_eq, is_empty, is_blank, trim_space, Result, ok, err, ◌>>=◌, ◌>>◌, refuse_if, ℤ, pos, negsuc,
  is_zero_time,
}
use ambagrid.Api.Database.{ApiError, conflict, invalid_id, invalid_request}
use ambagrid.Api.Payments.Tables.{Payment, ApplyPaymentCommand, status_confirmed}

-- The errors of `ParsePayment`, one for each text; the handler answers all of them alike.
pub data PaystackError : Type 0 where
  bad_json unhandled_event not_success missing_reference missing_customer : PaystackError
  bad_amount missing_currency missing_paid_at : PaystackError

pub record PaystackData : Type 0 where
  pub reference : Text
  pub amount : ℤ
  pub currency : Text
  pub status : Text
  pub paid_at : ℕ
  pub customer_id : Text

pub record PaystackEnvelope : Type 0 where
  pub event : Text
  pub payment : PaystackData

abbrev hex_of : ℕ → ℕ
hex_of d = if ltb d 10 then b'0' + d else 87 + d

-- `hex.EncodeToString`.
unfoldable pub encode_hex : Text → Text
encode_hex [] = []
encode_hex (b ∷ s) = hex_of (b / 16) ∷ hex_of (b % 16) ∷ encode_hex s

-- `mac` is HMAC-SHA512 by body under the secret key.
unfoldable pub verify_paystack_signature : (Text → Text) → Text → Text → Bool
unfolding encode_hex
verify_paystack_signature mac body signature = text_eq (encode_hex (mac body)) signature

-- An amount above 0.
abbrev pub positive_amount {ℓ} : {E : Type ℓ} → E → ℤ → Result E ℕ
positive_amount e (pos n) = if n == 0 then err e else ok n
positive_amount e (negsuc n) = err e

unfoldable pub parse_charge : PaystackEnvelope → Result PaystackError ApplyPaymentCommand
parse_charge e = do
  refuse_if (not (text_eq e.event (codes "charge.success"))) unhandled_event
  refuse_if (not (text_eq e.payment.status (codes "success"))) not_success
  refuse_if (is_empty e.payment.reference) missing_reference
  refuse_if (is_empty e.payment.customer_id) missing_customer
  amount ← positive_amount bad_amount e.payment.amount
  refuse_if (is_empty e.payment.currency) missing_currency
  refuse_if (is_zero_time e.payment.paid_at) missing_paid_at
  ok (record {
    provider = codes "paystack";
    external_reference = e.payment.reference;
    customer_id = e.payment.customer_id;
    amount_minor_units = amount;
    currency = e.payment.currency;
    status = status_confirmed;
    confirmed_at = e.payment.paid_at;
  })

-- The JSON of the body, decoded by `encoding/json`; `none` where it does not decode.
unfoldable pub parse_payment : Option PaystackEnvelope → Result PaystackError ApplyPaymentCommand
unfolding parse_charge
parse_payment none = err bad_json
parse_payment (some e) = parse_charge e

unfoldable pub validate_customer_id : Text → Result ApiError Text
unfolding trim_space
validate_customer_id value =
    let trimmed = trim_space value in if is_empty trimmed then err invalid_id else ok trimmed

-- An amount below 0 never gets here: the parsers refuse it like 0.
unfoldable pub validate_payment_command : ApplyPaymentCommand → Result ApiError (Unit {0})
unfolding validate_customer_id
validate_payment_command c = do
  refuse_if (is_blank c.provider) invalid_request
  refuse_if (is_blank c.external_reference) invalid_request
  _ ← validate_customer_id c.customer_id
  refuse_if (c.amount_minor_units == 0) invalid_request
  refuse_if (is_blank c.currency) invalid_request
  refuse_if (not (text_eq c.status status_confirmed)) invalid_request
  refuse_if (is_zero_time c.confirmed_at) invalid_request

unfoldable pub verify_payment_consistency :
    Payment → ApplyPaymentCommand → Result ApiError (Unit {0})
verify_payment_consistency p c = do
  refuse_if (not (text_eq p.customer_id c.customer_id)) conflict
  refuse_if (not (p.amount_minor_units == c.amount_minor_units)) conflict
  refuse_if (not (text_eq p.currency c.currency)) conflict
  refuse_if (not (text_eq p.status c.status)) conflict

pub record ApplyDevPaymentRequest : Type 0 where
  pub customer_id : Text
  pub amount_minor_units : ℤ
  pub currency : Text

-- `reference` is the random reference, `now` the clock.
unfoldable pub dev_command : Text → ℕ → ApplyDevPaymentRequest → Result ApiError ApplyPaymentCommand
unfolding validate_customer_id trim_space
dev_command reference now r = do
  customer ← validate_customer_id r.customer_id
  let currency = trim_space r.currency
  refuse_if (is_empty currency) invalid_request
  amount ← positive_amount invalid_request r.amount_minor_units
  ok (record {
    provider = codes "dev";
    external_reference = reference;
    customer_id = customer;
    amount_minor_units = amount;
    currency = currency;
    status = status_confirmed;
    confirmed_at = now;
  })
