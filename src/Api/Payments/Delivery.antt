-- ===== src/Api/Payments/Delivery.antt =====
-- Whole webhook requests for payments.
use ambagrid.Common.{
  ◌≤◌, ◌≡◌, inl, inr, refl, true, false, not, some, [], ◌∷◌, arith, Text, codes, ltb, ◌==◌, text_eq,
  is_empty, is_blank, take, Result, ok, err, >>=-eq-ok, refuse_if, max_int64, Bool-cases,
}
use ambagrid.Api.Database.{ApiError, invalid_request}
use ambagrid.Api.Webhook.Handle.{max_webhook_body_size}
use ambagrid.Api.Payments.Tables
use ambagrid.Api.Payments.Checks
use ambagrid.Api.Payments.Writes.{payment_illegal}
use ambagrid.Api.Payments.Apply
use ambagrid.Api.Payments.Books.{Ledger}
use ambagrid.Api.Payments.Repeats.{Earlier, calm, apply_payment-repeats}
use ambagrid.Api.Payments.Webhook

blank-empty : (t : Text) → is_blank t ≡ false → is_empty t ≡ false
unfolding is_blank is_empty
blank-empty [] h = absurd (ground arith)
blank-empty (b ∷ t) h = refl

-- A command that passes the checks of the service is legal for the table.
validated-legal :
    (c : Tables.ApplyPaymentCommand)
    → Checks.validate_payment_command c ≡ ok tt
    → c.amount_minor_units ≤ max_int64
    → payment_illegal c ≡ false
unfolding Checks.validate_payment_command payment_illegal
validated-legal c h fits =
    let (_, q1, h1) = >>=-eq-ok (refuse_if (is_blank c.provider) invalid_request) _ h in
    let (_, q2, h2) = >>=-eq-ok (refuse_if (is_blank c.external_reference) invalid_request) _ h1 in
    let (_, q3, h3) = >>=-eq-ok (Checks.validate_customer_id c.customer_id) _ h2 in
    let (_, q4, h4) = >>=-eq-ok (refuse_if (c.amount_minor_units == 0) invalid_request) _ h3 in
    let (_, q5, h5) = >>=-eq-ok (refuse_if (is_blank c.currency) invalid_request) _ h4 in
    let (_, q6, h6) =
      >>=-eq-ok (refuse_if (not (text_eq c.status Tables.status_confirmed)) invalid_request) _ h5 in
    let provider = blank-empty c.provider (ground arith) in
    let reference = blank-empty c.external_reference (ground arith) in
    let currency = blank-empty c.currency (ground arith) in
    let amount : c.amount_minor_units == 0 ≡ false = ground arith in
    let status : text_eq c.status (codes "confirmed") ≡ true = ground arith in
    let small : ltb max_int64 c.amount_minor_units ≡ false = ground arith in
    rw (provider, reference, currency, amount, status, small) (ground arith)

-- Of every reference, what a call saw first is an earlier state.
abbrev pub Before : Tables.PaymentDb → Tables.PaymentDb → Type 0
Before seen db = (c : Tables.ApplyPaymentCommand) → Earlier c seen db

module _ (v w : Apply.Env) (c : Tables.ApplyPaymentCommand) (db : Tables.PaymentDb)
    (r : Tables.ApplyPaymentResult) where
  answered :
      (x : Result ApiError Tables.ApplyPaymentResult)
      → Webhook.answer_to x ≡ Webhook.applied r
      → x ≡ ok r
  answered (ok y) h = ground arith
  answered (err e) h = absurd (ground arith)

  validated-repeats :
      (valid : Result ApiError (Unit {0}))
      → Checks.validate_payment_command c ≡ valid
      → Ledger db
      → Before v.seen db
      → c.amount_minor_units ≤ max_int64
      → (Webhook.handle_command v (ok c) db).1 ≡ Webhook.applied r
      → Before w.seen (Webhook.handle_command v (ok c) db).0
      → Webhook.handle_command (calm w) (ok c) (Webhook.handle_command v (ok c) db).0
        ≡ ((Webhook.handle_command v (ok c) db).0, Webhook.applied r)
  unfolding Webhook.handle_command Webhook.payment_answer Apply.apply_webhook_payment
  validated-repeats (err e) q b earlier fits h later = absurd (ground (arith, rw q at h))
  validated-repeats (ok tt) q b earlier fits h later =
      let done : (Apply.apply_payment v c db).1 ≡ ok r = answered _ (rw q at h) in
      let later' : Before w.seen (Apply.apply_payment v c db).0 = rw q at later in
      let again =
        apply_payment-repeats v c db w r b (earlier c) (validated-legal c q fits) done (later' c) in
      rw q (rw again refl)

  -- What `handle_webhook_payment` comes to for a signed body.
  pub handle_command-repeats :
      Ledger db
      → Before v.seen db
      → c.amount_minor_units ≤ max_int64
      → (Webhook.handle_command v (ok c) db).1 ≡ Webhook.applied r
      → Before w.seen (Webhook.handle_command v (ok c) db).0
      → Webhook.handle_command (calm w) (ok c) (Webhook.handle_command v (ok c) db).0
        ≡ ((Webhook.handle_command v (ok c) db).0, Webhook.applied r)
  handle_command-repeats = validated-repeats _ refl

module _ (hook : Webhook.PaymentWebhook) (v w : Apply.Env) (signature body : Text)
    (db : Tables.PaymentDb) (c : Tables.ApplyPaymentCommand) (r : Tables.ApplyPaymentResult) where
  -- The provider delivers a payment twice: if the first request is answered with a result, the second
  -- is answered with the same and changes nothing, whether its first statement sees the payment or not.
  -- The body carries the command c, its amount is an int64, the books were kept, what the calls saw
  -- first were earlier states, and no statement of the second call fails.
  pub handle_webhook_payment-repeats :
      Checks.parse_payment (hook.decode (take max_webhook_body_size body)) ≡ ok c
      → c.amount_minor_units ≤ max_int64
      → Ledger db
      → Before v.seen db
      → (Webhook.handle_webhook_payment hook v signature (some body) db).1 ≡ Webhook.applied r
      → let db' = (Webhook.handle_webhook_payment hook v signature (some body) db).0 in
        Before w.seen db'
        → Webhook.handle_webhook_payment hook (calm w) signature (some body) db'
          ≡ (db', Webhook.applied r)
  unfolding Webhook.handle_webhook_payment Webhook.handle_payment_read Webhook.handle_payment_body
  handle_webhook_payment-repeats parsed fits b earlier h later =
      let sent = take 65_536 body in
      elim (Bool-cases (is_empty signature)) [
        | inl missing ↦ absurd (ground (arith, rw missing at h))
        | inr given ↦ elim (Bool-cases (Checks.verify_paystack_signature hook.mac sent signature)) [
          | inl right ↦
              rw (given, right, parsed)
                (handle_command-repeats v w c db r b earlier fits (rw (given, right, parsed) at h)
                  (rw (given, right, parsed) at later))
          | inr wrong ↦ absurd (ground (arith, rw (given, wrong) at h))
        ]
      ]
