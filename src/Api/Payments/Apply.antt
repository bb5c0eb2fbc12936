-- ===== src/Api/Payments/Apply.antt =====
-- services/payments.go over `RunPaymentTx`: a payment in its transaction.
use ambagrid.Common.{
  ℕ, Bool, ◌&&◌, not, Option, none, some, ◌++◌, Text, codes, Float, ltb, ◌==◌, if◌then◌else◌,
  text_eq, Result, ok, err, ◌>>=◌, ◌>>◌, refuse_if, in_tx,
}
use ambagrid.Api.Database.{ApiError, conflict, database, Faults, statement}
use ambagrid.Api.Payments.Tables
use ambagrid.Api.Payments.Checks
use ambagrid.Api.Payments.Queries
use ambagrid.Api.Payments.Writes

-- The environment of a call: the topics of the outbox, the arithmetic of float64, `now()` of its
-- transaction, and how its statements fare. `seen` is the database that its first statement reads:
-- until it inserts the payment, others may commit theirs.
pub record Env : Type 0 where
  pub topics : Tables.OutboxTopics
  pub floats : Tables.FloatOps
  pub now : ℕ
  pub faults : Faults
  pub seen : Tables.PaymentDb

unfoldable pub replay_prior_result :
    Faults → Tables.Payment → Tables.PaymentDb → Result ApiError Tables.ApplyPaymentResult
unfolding Queries.find_credit_by_payment Queries.find_balance_by_assignment
    Queries.find_meter_command_by_payment
replay_prior_result f p db = do
  credit ← Queries.find_credit_by_payment (f 14) p.payment_id db
  balance ← Queries.find_balance_by_assignment (f 15) credit.assignment_id db
  command ← Queries.find_meter_command_by_payment (f 16) p.payment_id db
  ok (record { payment = p; credit = credit; balance = balance; meter_command = command })

unfoldable pub replay_existing :
    Faults
    → Tables.ApplyPaymentCommand
    → Tables.Payment
    → Tables.PaymentDb
    → Result ApiError (Tables.ApplyPaymentResult × Tables.PaymentDb)
unfolding Checks.verify_payment_consistency
replay_existing f c p db = do
  Checks.verify_payment_consistency p c
  r ← replay_prior_result f p db
  ok (r, db)

-- The payment of the transaction that won the race for the reference.
unfoldable pub replay_winner :
    Faults
    → Tables.ApplyPaymentCommand
    → Tables.PaymentDb
    → Result ApiError (Tables.ApplyPaymentResult × Tables.PaymentDb)
unfolding Queries.find_existing_payment
replay_winner f c db = do
  winner ← Queries.find_existing_payment (f 3) c.provider c.external_reference db
  elim winner [ none ↦ err database | some p ↦ replay_existing f c p db ]

-- The energy of an amount: tariffs are priced in major units of the currency.
unfoldable pub kwh_granted : Tables.FloatOps → Tables.TariffPlan → ℕ → Float
kwh_granted o t amount =
    o.divide (o.of_integer amount)
      (o.multiply (o.of_millionths t.price_per_kwh) (o.of_integer t.minor_units_per_major))

unfoldable pub needs_reconnect : Tables.MeterAssignment → ℕ → Tables.CreditBalance → Bool
needs_reconnect a prior b = not a.relay_closed && (prior == 0 && ltb 0 b.remaining_kwh)

abbrev pub by_provider : Tables.ApplyPaymentCommand → Text
by_provider c = codes "provider:" ++ c.provider

unfoldable pub reconnect_command :
    ℕ → Tables.ApplyPaymentCommand → Tables.MeterAssignment → Tables.PaymentDb → Tables.MeterCommand
reconnect_command now c a db =
    Writes.new_command now a.meter_id (codes "reconnect_meter") (by_provider c)
      (codes "balance recharged from zero") db

unfoldable pub request_reconnect :
    Env
    → Tables.ApplyPaymentCommand
    → Tables.MeterAssignment
    → ℕ
    → Tables.CreditBalance
    → Tables.PaymentDb
    → Result ApiError (Option Tables.MeterCommand × Tables.PaymentDb)
unfolding Writes.insert_meter_command Writes.insert_event
request_reconnect v c a prior b db =
    if needs_reconnect a prior b
    then (do
      (command, db1) ← Writes.insert_meter_command (v.faults 11) (reconnect_command v.now c a db) db
      db2 ← Writes.insert_event (v.faults 12) (Writes.command_event v.topics a command) db1
      ok (some command, db2))
    else ok (none, db)

abbrev pub id_of : Option Tables.MeterCommand → Option ℕ
id_of none = none
id_of (some c) = some c.command_id

abbrev type_of : Option Tables.MeterCommand → Option Text
type_of none = none
type_of (some c) = some c.command_type

unfoldable pub applied_audit :
    ℕ
    → Tables.ApplyPaymentCommand
    → Tables.MeterAssignment
    → Text
    → Float
    → Tables.ApplyPaymentResult
    → Tables.AuditEvent
applied_audit now c a tariff kwh r = record {
  site_id = a.site_id;
  actor_id = by_provider c;
  action = codes "payment.applied";
  subject_type = codes "payment";
  subject_id = r.payment.payment_id;
  occurred_at = now;
  metadata = record {
    payment_id = r.payment.payment_id;
    credit_id = r.credit.credit_id;
    assignment_id = a.assignment_id;
    kwh_granted = kwh;
    amount = c.amount_minor_units;
    currency = c.currency;
    tariff_plan_id = tariff;
    remaining_kwh = r.balance.remaining_kwh;
    meter_command_id = id_of r.meter_command;
    meter_command_type = type_of r.meter_command;
  };
}

-- The rows behind the balance: two events, the command if one is needed, the audit.
unfoldable pub record_applied :
    Env
    → Tables.ApplyPaymentCommand
    → Tables.Payment
    → Tables.MeterAssignment
    → Tables.TariffPlan
    → Tables.EnergyCredit
    → ℕ
    → Tables.CreditBalance
    → Tables.PaymentDb
    → Result ApiError (Tables.ApplyPaymentResult × Tables.PaymentDb)
unfolding Writes.insert_event Writes.insert_audit_event
record_applied v c p a t credit prior balance db = do
  db3 ← Writes.insert_event (v.faults 9) (Writes.confirmed_event v.topics p) db
  db4 ← Writes.insert_event (v.faults 10) (Writes.issued_event v.topics credit) db3
  (command, db5) ← request_reconnect v c a prior balance db4
  let r : Tables.ApplyPaymentResult = record {
    payment = p;
    credit = credit;
    balance = balance;
    meter_command = command;
  }
  let kwh = kwh_granted v.floats t c.amount_minor_units
  db6 ← Writes.insert_audit_event (v.faults 13) (applied_audit v.now c a t.tariff_plan_id kwh r) db5
  ok (r, db6)

-- The credit of a payment and the balance with it.
unfoldable pub apply_priced :
    Env
    → Tables.ApplyPaymentCommand
    → Tables.Payment
    → Tables.MeterAssignment
    → Tables.TariffPlan
    → Tables.PaymentDb
    → Result ApiError (Tables.ApplyPaymentResult × Tables.PaymentDb)
unfolding Queries.get_prior_balance Writes.insert_energy_credit Writes.upsert_credit_balance
    record_applied
apply_priced v c p a t db = do
  let granted = v.floats.to_millionths (kwh_granted v.floats t c.amount_minor_units)
  (credit, db1) ←
      Writes.insert_energy_credit (v.faults 6)
        (Writes.new_credit v.now a p.payment_id t.tariff_plan_id granted c.amount_minor_units db) db
  prior ← Queries.get_prior_balance (v.faults 7) a.assignment_id db1
  (balance, db2) ←
      Writes.upsert_credit_balance (v.faults 8) v.now a.assignment_id granted c.amount_minor_units
        db1
  record_applied v c p a t credit prior balance db2

-- What follows the insertion of a new payment.
unfoldable pub apply_new :
    Env
    → Tables.ApplyPaymentCommand
    → Tables.Payment
    → Tables.PaymentDb
    → Result ApiError (Tables.ApplyPaymentResult × Tables.PaymentDb)
unfolding Queries.find_active_assignment Queries.find_active_tariff apply_priced
apply_new v c p db = do
  a ← Queries.find_active_assignment (v.faults 4) c.customer_id db
  t ← Queries.find_active_tariff (v.faults 5) a.site_id c.confirmed_at db
  refuse_if (not (text_eq t.currency c.currency)) conflict
  apply_priced v c p a t db

unfoldable pub apply_inserted :
    Env
    → Tables.ApplyPaymentCommand
    → Option Tables.Payment
    → Tables.PaymentDb
    → Result ApiError (Tables.ApplyPaymentResult × Tables.PaymentDb)
unfolding apply_new replay_winner
apply_inserted v c (some p) db = apply_new v c p db
apply_inserted v c none db = replay_winner v.faults c db

unfoldable pub apply_found :
    Env
    → Tables.ApplyPaymentCommand
    → Option Tables.Payment
    → Tables.PaymentDb
    → Result ApiError (Tables.ApplyPaymentResult × Tables.PaymentDb)
unfolding replay_existing apply_inserted Writes.insert_payment
apply_found v c (some p) db = replay_existing v.faults c p db
apply_found v c none db = do
  (inserted, db') ← Writes.insert_payment (v.faults 2) v.now c db
  apply_inserted v c inserted db'

-- `applyPayment` in `RunPaymentTx`.
unfoldable pub apply_payment :
    Env
    → Tables.ApplyPaymentCommand
    → Tables.PaymentDb
    → Tables.PaymentDb × Result ApiError Tables.ApplyPaymentResult
unfolding Queries.find_existing_payment apply_found
apply_payment v c db = in_tx db (do
  statement (v.faults 0)
  existing ← Queries.find_existing_payment (v.faults 1) c.provider c.external_reference v.seen
  done ← apply_found v c existing db
  statement (v.faults 17)
  ok done)

abbrev when_ok {ℓ} :
    {A : Type ℓ}
    → Result ApiError A
    → (A → Tables.PaymentDb × Result ApiError Tables.ApplyPaymentResult)
    → Tables.PaymentDb
    → Tables.PaymentDb × Result ApiError Tables.ApplyPaymentResult
when_ok (err x) k db = (db, err x)
when_ok (ok a) k db = k a

unfoldable pub apply_webhook_payment :
    Env
    → Tables.ApplyPaymentCommand
    → Tables.PaymentDb
    → Tables.PaymentDb × Result ApiError Tables.ApplyPaymentResult
apply_webhook_payment v c db =
    when_ok (Checks.validate_payment_command c) (λ _. apply_payment v c db) db

unfoldable pub apply_dev_payment :
    Env
    → Text
    → ℕ
    → Checks.ApplyDevPaymentRequest
    → Tables.PaymentDb
    → Tables.PaymentDb × Result ApiError Tables.ApplyPaymentResult
apply_dev_payment v reference clock request db =
    when_ok (Checks.dev_command reference clock request) (λ c. apply_payment v c db) db
