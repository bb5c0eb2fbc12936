-- ===== src/Api/Payments/Examples.antt =====
-- Tests of the payments and their properties at concrete inputs.
use ambagrid.Api.Payments.Writes.{new_payment, new_command, new_credit}
use ambagrid.Common.{
  exists_where, count_where, select_where, text_eq, is_empty, find_where, ◌≡◌, ◌⊎◌, refl, inl, some,
  codes, arith, ok, trim_space,
}
use ambagrid.Api.Payments.Tables
use ambagrid.Api.Payments.Checks
use ambagrid.Api.Payments.Apply
use ambagrid.Api.Payments.Booked
use ambagrid.Api.Payments.Effects
use ambagrid.Api.Payments.Books
use ambagrid.Api.Payments.Conserved
use ambagrid.Api.Payments.Repeats
use ambagrid.Api.Payments.Webhook
use ambagrid.Api.Payments.Delivery
use ambagrid.Api.Payments.Refusals
use ambagrid.Api.Payments.Samples

abbrev books_after : Tables.PaymentDb
books_after =
    (Apply.apply_payment Samples.payment_env Samples.sample_command Samples.sample_books).0

abbrev books_answered : Tables.PaymentDb
books_answered =
    (Webhook.handle_webhook_payment Samples.sample_hook Samples.payment_env (codes "7b")
      (some (codes "{}")) Samples.sample_books).0

-- The payment grants 200 kWh and reconnects the meter.
payment_taken :
    (Apply.apply_payment Samples.payment_env Samples.sample_command Samples.sample_books).1
    ≡ ok Samples.sample_result
unfolding Apply.apply_payment find_where is_empty text_eq exists_where select_where new_credit
    Apply.kwh_granted Apply.request_reconnect Apply.needs_reconnect new_payment
    Apply.reconnect_command new_command
payment_taken = refl

spaces_trimmed : trim_space (codes "  KES \n") ≡ codes "KES"
unfolding trim_space
spaces_trimmed = refl

sample_books-Ledger : Books.Ledger Samples.sample_books
unfolding exists_where count_where
sample_books-Ledger = record {
  payment_ids = refl;
  credit_ids = refl;
  audit_ids = refl;
  command_ids = refl;
  once_paid = λ provider reference. ground arith;
  once_credited = λ id. ground arith;
  one_balance = λ assignment. ground arith;
}

nothing_seen :
    (c : Tables.ApplyPaymentCommand) (db : Tables.PaymentDb)
    → Repeats.Earlier c Samples.sample_books db
unfolding find_where
nothing_seen c db = inl refl

apply_payment-Effects_example :
    Booked.Replayed Samples.payment_env Samples.sample_command Samples.sample_books
      Samples.sample_result books_after
    ⊎ ((g : Booked.Granted Samples.payment_env Samples.sample_command Samples.sample_books
          Samples.sample_result books_after)
        × Effects.Effects Samples.payment_env Samples.sample_command Samples.sample_books
            Samples.sample_result books_after g.assignment g.tariff)
apply_payment-Effects_example =
    Effects.apply_payment-Effects Samples.payment_env Samples.sample_command Samples.sample_books
      Samples.sample_result payment_taken

apply_payment-Ledger_example : Books.Ledger books_after
apply_payment-Ledger_example =
    Books.apply_payment-Ledger Samples.payment_env Samples.sample_command Samples.sample_books
      sample_books-Ledger

apply_payment-Conserved_example : Conserved.Conserved 4 Samples.sample_books books_after
apply_payment-Conserved_example =
    Conserved.apply_payment-Conserved Samples.payment_env Samples.sample_command
      Samples.sample_books 4 sample_books-Ledger

charge_parsed :
    Checks.parse_payment (Samples.sample_hook.decode (codes "{}")) ≡ ok Samples.sample_command
unfolding Checks.parse_payment text_eq is_empty
charge_parsed = refl

charge_answered :
    (Webhook.handle_webhook_payment Samples.sample_hook Samples.payment_env
      (codes "7b")
      (some (codes "{}"))
      Samples.sample_books).1
    ≡ Webhook.applied Samples.sample_result
unfolding Webhook.handle_webhook_payment is_empty text_eq Checks.validate_payment_command
    Apply.apply_payment find_where exists_where select_where new_credit Apply.kwh_granted
    Apply.request_reconnect Apply.needs_reconnect new_payment Apply.reconnect_command new_command
charge_answered = refl

handle_webhook_payment-repeats_example :
    Webhook.handle_webhook_payment Samples.sample_hook
      (Repeats.calm Samples.payment_env)
      (codes "7b")
      (some (codes "{}"))
      books_answered
    ≡ (books_answered, Webhook.applied Samples.sample_result)
handle_webhook_payment-repeats_example =
    Delivery.handle_webhook_payment-repeats Samples.sample_hook Samples.payment_env
      Samples.payment_env (codes "7b") (codes "{}") Samples.sample_books Samples.sample_command
      Samples.sample_result charge_parsed (ground arith) sample_books-Ledger
      (λ c. nothing_seen c Samples.sample_books) charge_answered
      (λ c. nothing_seen c books_answered)

handle_webhook_payment-Spared_example :
    Refusals.Spared Samples.sample_hook Samples.payment_env
      (codes "7b")
      (some (codes "{}"))
      Samples.sample_books
      (Webhook.handle_webhook_payment Samples.sample_hook Samples.payment_env
        (codes "7b")
        (some (codes "{}"))
        Samples.sample_books)
handle_webhook_payment-Spared_example =
    Refusals.handle_webhook_payment-Spared Samples.sample_hook Samples.payment_env (codes "7b")
      Samples.sample_books (some (codes "{}"))
