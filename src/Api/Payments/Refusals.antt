-- ===== src/Api/Payments/Refusals.antt =====
-- Which payment requests are taken, and what the others leave alone.
use ambagrid.Common.{
  ℕ, ℤ, negsuc, subst, is_zero_time, ◌>>◌, Bool, ◌<◌, ◌∙◌, sym, pos, text_eq_iff, ok-injective, ◌≤◌,
  ◌≡◌, ◌⊎◌, inl, inr, refl, ap, true, false, not, Option, none, some, arith, Text, codes, ◌==◌,
  text_eq, is_empty, take, Result, ok, err, >>=-eq-ok, refuse_if, Bool-cases,
}
use ambagrid.Api.Database.{ApiError}
use ambagrid.Api.Webhook.Handle.{Answer, refused, status, error_answer}
use ambagrid.Api.Webhook.Refusals.{error_answer-status}
use ambagrid.Api.Payments.Tables
use ambagrid.Api.Payments.Checks
use ambagrid.Api.Payments.Apply
use ambagrid.Api.Payments.Outcomes.{apply_payment-refused}
use ambagrid.Api.Payments.Webhook

-- The event of a successful charge, and the command of its payment.
pub record Charge (charge : Checks.PaystackEnvelope) (c : Tables.ApplyPaymentCommand) : Type 0 where
  pub event : charge.event ≡ codes "charge.success"
  pub success : charge.payment.status ≡ codes "success"
  pub reference : c.external_reference ≡ charge.payment.reference
  pub customer : c.customer_id ≡ charge.payment.customer_id
  pub amount : pos c.amount_minor_units ≡ charge.payment.amount
  pub positive : 0 < c.amount_minor_units
  pub currency : c.currency ≡ charge.payment.currency

-- A request that carries a payment: signed with the MAC of its body, which decodes to the event of a
-- successful charge, whose command passes the checks of the service.
pub record Charged (hook : Webhook.PaymentWebhook) (signature body : Text)
    (c : Tables.ApplyPaymentCommand) : Type 0 where
  pub signed : signature ≡ Checks.encode_hex (hook.mac (take 65_536 body))
  pub charge : Checks.PaystackEnvelope
  pub decoded : hook.decode (take 65_536 body) ≡ some charge
  pub says : Charge charge c
  pub checked : Checks.validate_payment_command c ≡ ok tt

positive_amount-pos :
    (x : ℤ) {n : ℕ} → Checks.positive_amount Checks.bad_amount x ≡ ok n → (pos n ≡ x) × (0 < n)
positive_amount-pos (pos m) h = elim (Bool-cases (m == 0)) [
  | inl zero_given ↦ absurd (ground (arith, rw zero_given at h))
  | inr given ↦
      let same = ok-injective (rw given at h) in (ap pos (sym same), rw⁻¹ same (ground arith))
]
positive_amount-pos (negsuc m) h = absurd (ground arith)

passed {ℓ} :
    {A : Type ℓ} (b : Bool) (e : Checks.PaystackError) (k : Result Checks.PaystackError A) {a : A}
    → (refuse_if b e >> k) ≡ ok a
    → (b ≡ false) × (k ≡ ok a)
passed true e k h = absurd (ground arith)
passed false e k h = (refl, h)

parse_charge-Charge :
    (charge : Checks.PaystackEnvelope) {c : Tables.ApplyPaymentCommand}
    → Checks.parse_charge charge ≡ ok c
    → Charge charge c
unfolding Checks.parse_charge
parse_charge-Charge charge h =
    let p = charge.payment in
    let (q1, h1) =
      passed (not (text_eq charge.event (codes "charge.success"))) Checks.unhandled_event _ h in
    let (q2, h2) = passed (not (text_eq p.status (codes "success"))) Checks.not_success _ h1 in
    let (q3, h3) = passed (is_empty p.reference) Checks.missing_reference _ h2 in
    let (q4, h4) = passed (is_empty p.customer_id) Checks.missing_customer _ h3 in
    let (n, q5, h5) = >>=-eq-ok (Checks.positive_amount Checks.bad_amount p.amount) _ h4 in
    let (q6, h6) = passed (is_empty p.currency) Checks.missing_currency _ h5 in
    let (q7, h7) = passed (is_zero_time p.paid_at) Checks.missing_paid_at _ h6 in
    let (same, above) = positive_amount-pos p.amount q5 in
    subst (Charge charge) (ok-injective h7) (record {
      event = (text_eq_iff charge.event (codes "charge.success")).0 (ground arith);
      success = (text_eq_iff p.status (codes "success")).0 (ground arith);
      reference = refl;
      customer = refl;
      amount = same;
      positive = above;
      currency = refl;
    })

-- The tables changed by a genuine payment, or an error that changed nothing.
abbrev pub Spared :
    Webhook.PaymentWebhook
    → Apply.Env
    → Text
    → Option Text
    → Tables.PaymentDb
    → Tables.PaymentDb × Webhook.PaymentAnswer
    → Type 0
Spared hook v signature body db out =
    ((b : Text) × (c : Tables.ApplyPaymentCommand) × (r : Tables.ApplyPaymentResult) × (body
        ≡ some b)
      × Charged hook signature b c
      × (out ≡ ((Apply.apply_payment v c db).0, Webhook.applied r)))
    ⊎ ((a : Answer) × (400 ≤ status a) × (out ≡ (db, Webhook.declined a)))

module _ (hook : Webhook.PaymentWebhook) (v : Apply.Env) (signature body : Text)
    (db : Tables.PaymentDb) where
  applied-Spared :
      (c : Tables.ApplyPaymentCommand) (x : Result ApiError Tables.ApplyPaymentResult)
      → (Apply.apply_payment v c db).1 ≡ x
      → Charged hook signature body c
      → Spared hook v signature (some body) db (Webhook.payment_answer (Apply.apply_payment v c db))
  unfolding Webhook.payment_answer
  applied-Spared c (ok r) q genuine =
      inl (
        body,
        c,
        r,
        refl,
        genuine,
        ap (λ x. ((Apply.apply_payment v c db).0, Webhook.answer_to x)) q,
      )
  applied-Spared c (err e) q genuine = inr (
    error_answer e,
    error_answer-status e,
    ap (λ d. (d, Webhook.answer_to (Apply.apply_payment v c db).1))
          (apply_payment-refused v c db e q)
        ∙ ap (λ x. (db, Webhook.answer_to x)) q,
  )

  charged-Spared :
      (charge : Checks.PaystackEnvelope) (c : Tables.ApplyPaymentCommand)
      (valid : Result ApiError (Unit {0}))
      → Checks.verify_paystack_signature hook.mac (take 65_536 body) signature ≡ true
      → hook.decode (take 65_536 body) ≡ some charge
      → Checks.parse_charge charge ≡ ok c
      → Checks.validate_payment_command c ≡ valid
      → Spared hook v signature (some body) db (Webhook.handle_command v (ok c) db)
  unfolding Webhook.handle_command Webhook.payment_answer Apply.apply_webhook_payment
      Checks.verify_paystack_signature
  charged-Spared charge c (err e) right decoded parsed q =
      rw q (inr (error_answer e, error_answer-status e, refl))
  charged-Spared charge c (ok tt) right decoded parsed q =
      let p = parse_charge-Charge charge parsed in
      rw q (
        applied-Spared c _ refl (record {
          signed = sym ((text_eq_iff _ signature).0 right);
          charge = charge;
          decoded = decoded;
          says = p;
          checked = q;
        }))

  handle_command-Spared :
      (sent : Option Checks.PaystackEnvelope)
      (parsed : Result Checks.PaystackError Tables.ApplyPaymentCommand)
      → Checks.verify_paystack_signature hook.mac (take 65_536 body) signature ≡ true
      → hook.decode (take 65_536 body) ≡ sent
      → Checks.parse_payment sent ≡ parsed
      → Spared hook v signature (some body) db (Webhook.handle_command v parsed db)
  unfolding Webhook.handle_command Checks.parse_payment
  handle_command-Spared sent (err e) right decoded q =
      inr (refused 400 (codes "invalid_argument"), omega arith, refl)
  handle_command-Spared none (ok c) right decoded q = absurd (ground arith)
  handle_command-Spared (some charge) (ok c) right decoded q =
      charged-Spared charge c _ right decoded q refl

  signed_body-Spared :
      Spared hook v signature
        (some body)
        db
        (Webhook.handle_payment_read hook v signature (some body) db)
  unfolding Webhook.handle_payment_read Webhook.handle_payment_body
  signed_body-Spared =
      let sent = take 65_536 body in
      elim (Bool-cases (Checks.verify_paystack_signature hook.mac sent signature)) [
        | inl right ↦ rw right (handle_command-Spared (hook.decode sent) _ right refl refl)
        | inr wrong ↦ rw wrong (inr (refused 401 (codes "unauthenticated"), omega arith, refl))
      ]

module _ (hook : Webhook.PaymentWebhook) (v : Apply.Env) (signature : Text)
    (db : Tables.PaymentDb) where
  payment_read-Spared :
      (body : Option Text)
      → Spared hook v signature body db (Webhook.handle_payment_read hook v signature body db)
  unfolding Webhook.handle_payment_read
  payment_read-Spared none = inr (refused 400 (codes "invalid_argument"), omega arith, refl)
  payment_read-Spared (some body) = signed_body-Spared hook v signature body db

  -- A request that is answered with a result is signed with the MAC of its body, and the body is the
  -- event of a successful charge, with a positive amount, for the command that was applied; the command
  -- passes the checks. Every other request is answered with an error and changes nothing, and so is a
  -- genuine one that fails in the service.
  pub handle_webhook_payment-Spared :
      (body : Option Text)
      → Spared hook v signature body db (Webhook.handle_webhook_payment hook v signature body db)
  unfolding Webhook.handle_webhook_payment
  handle_webhook_payment-Spared body = elim (Bool-cases (is_empty signature)) [
    | inl missing ↦ rw missing (inr (refused 401 (codes "unauthenticated"), omega arith, refl))
    | inr given ↦ rw given (payment_read-Spared body)
  ]
