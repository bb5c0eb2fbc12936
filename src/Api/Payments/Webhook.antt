-- ===== src/Api/Payments/Webhook.antt =====
-- `handleWebhookPayment` and `handleApplyDevPayment` of controller/handlers.go.
use ambagrid.Common.{
  ℕ, Option, none, some, Text, codes, is_empty, take, if◌then◌else◌, Result, ok, err,
}
use ambagrid.Api.Database.{ApiError}
use ambagrid.Api.Webhook.Handle.{Answer, refused, error_answer, max_webhook_body_size}
use ambagrid.Api.Payments.Tables
use ambagrid.Api.Payments.Checks
use ambagrid.Api.Payments.Apply

-- An error, or the result: with 200, and with 201 for a development payment.
pub data PaymentAnswer : Type 0 where
  declined : Answer → PaymentAnswer
  applied : Tables.ApplyPaymentResult → PaymentAnswer

-- `mac` is HMAC-SHA512 by body under the secret key, `decode` is `json.Unmarshal` into the envelope.
pub record PaymentWebhook : Type 0 where
  pub mac : Text → Text
  pub decode : Text → Option Checks.PaystackEnvelope

abbrev pub answer_to : Result ApiError Tables.ApplyPaymentResult → PaymentAnswer
answer_to (err e) = declined (error_answer e)
answer_to (ok r) = applied r

unfoldable pub payment_answer :
    Tables.PaymentDb × Result ApiError Tables.ApplyPaymentResult → Tables.PaymentDb × PaymentAnswer
payment_answer out = (out.0, answer_to out.1)

unfoldable pub handle_command :
    Apply.Env
    → Result Checks.PaystackError Tables.ApplyPaymentCommand
    → Tables.PaymentDb
    → Tables.PaymentDb × PaymentAnswer
unfolding payment_answer Apply.apply_webhook_payment
handle_command v (err e) db = (db, declined (refused 400 (codes "invalid_argument")))
handle_command v (ok c) db = payment_answer (Apply.apply_webhook_payment v c db)

unfoldable pub handle_payment_body :
    PaymentWebhook → Apply.Env → Text → Text → Tables.PaymentDb → Tables.PaymentDb × PaymentAnswer
unfolding handle_command Checks.verify_paystack_signature Checks.parse_payment
handle_payment_body w v signature body db =
    if Checks.verify_paystack_signature w.mac body signature
    then handle_command v (Checks.parse_payment (w.decode body)) db
    else (db, declined (refused 401 (codes "unauthenticated")))

unfoldable pub handle_payment_read :
    PaymentWebhook
    → Apply.Env
    → Text
    → Option Text
    → Tables.PaymentDb
    → Tables.PaymentDb × PaymentAnswer
unfolding handle_payment_body
handle_payment_read w v signature none db = (db, declined (refused 400 (codes "invalid_argument")))
handle_payment_read w v signature (some body) db =
    handle_payment_body w v signature (take max_webhook_body_size body) db

-- `none` for a body that cannot be read.
unfoldable pub handle_webhook_payment :
    PaymentWebhook
    → Apply.Env
    → Text
    → Option Text
    → Tables.PaymentDb
    → Tables.PaymentDb × PaymentAnswer
unfolding handle_payment_read
handle_webhook_payment w v signature body db =
    if is_empty signature
    then (db, declined (refused 401 (codes "unauthenticated")))
    else handle_payment_read w v signature body db

-- The body of a development payment is decoded strictly: `none` where it is not one such object.
unfoldable pub handle_apply_dev_payment :
    Apply.Env
    → Text
    → ℕ
    → Option Checks.ApplyDevPaymentRequest
    → Tables.PaymentDb
    → Tables.PaymentDb × PaymentAnswer
unfolding payment_answer Apply.apply_dev_payment
handle_apply_dev_payment v reference clock none db =
    (db, declined (refused 400 (codes "invalid_argument")))
handle_apply_dev_payment v reference clock (some request) db =
    payment_answer (Apply.apply_dev_payment v reference clock request db)
