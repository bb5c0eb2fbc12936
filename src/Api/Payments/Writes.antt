-- ===== src/Api/Payments/Writes.antt =====
-- repository/postgres/payments.go: the INSERT statements of a payment transaction, with the
-- constraints of their tables that may fail.
use ambagrid.Common.{
  ℕ, ◌+◌, ◌^◌, Bool, true, false, ◌||◌, not, Option, none, some, List, [], ◌∷◌, ◌++◌, Text, codes,
  ltb, leb, ◌==◌, if◌then◌else◌, text_eq, is_empty, Result, ok, ◌>>◌, refuse_if, exists_where,
  find_where, update_where, max_int64,
}
use ambagrid.Api.Database.{ApiError, database, statement}
use ambagrid.Api.Payments.Tables
use ambagrid.Api.Payments.Queries.{payment_at, balance_of}

unfoldable pub new_payment : ℕ → Tables.ApplyPaymentCommand → Tables.PaymentDb → Tables.Payment
new_payment now c db = record {
  payment_id = db.next_payment;
  provider = c.provider;
  external_reference = c.external_reference;
  customer_id = c.customer_id;
  amount_minor_units = c.amount_minor_units;
  currency = c.currency;
  status = c.status;
  confirmed_at = some c.confirmed_at;
  created_at = now;
}

abbrev payment_status : Text → Bool
payment_status s =
    text_eq s (codes "pending")
    || (text_eq s (codes "confirmed")
        || (text_eq s (codes "failed") || text_eq s (codes "reversed")))

-- The checks of the table payments and the range of bigint.
unfoldable pub payment_illegal : Tables.ApplyPaymentCommand → Bool
payment_illegal c =
    is_empty c.provider
    || (is_empty c.external_reference
        || ((c.amount_minor_units == 0 || ltb max_int64 c.amount_minor_units)
            || (is_empty c.currency || not (payment_status c.status))))

unfoldable pub add_payment : Tables.Payment → Tables.PaymentDb → Tables.PaymentDb
add_payment p db = record db {
  payments = db.payments ++ p ∷ [];
  next_payment = db.next_payment + 1;
}

-- ON CONFLICT (provider, external_reference) DO NOTHING: no row. A row that goes in names a customer.
unfoldable pub place_payment :
    ℕ
    → Tables.ApplyPaymentCommand
    → Tables.PaymentDb
    → Bool
    → Result ApiError (Option Tables.Payment × Tables.PaymentDb)
unfolding add_payment
place_payment now c db true = ok (none, db)
place_payment now c db false = do
  refuse_if (not (exists_where (λ x. text_eq x c.customer_id) db.customers)) database
  ok (some (new_payment now c db), add_payment (new_payment now c db) db)

unfoldable pub insert_payment :
    Bool
    → ℕ
    → Tables.ApplyPaymentCommand
    → Tables.PaymentDb
    → Result ApiError (Option Tables.Payment × Tables.PaymentDb)
unfolding payment_illegal place_payment
insert_payment fails now c db = do
  statement fails
  refuse_if (payment_illegal c) database
  place_payment now c db (exists_where (payment_at c.provider c.external_reference) db.payments)

unfoldable pub new_credit :
    ℕ → Tables.MeterAssignment → ℕ → Text → ℕ → ℕ → Tables.PaymentDb → Tables.EnergyCredit
new_credit now a payment tariff kwh money db = record {
  credit_id = db.next_credit;
  site_id = a.site_id;
  assignment_id = a.assignment_id;
  payment_id = some payment;
  tariff_plan_id = some tariff;
  source_type = codes "payment";
  source_id = payment;
  kwh_granted = kwh;
  money_value_minor_units = some money;
  created_at = now;
}

-- numeric(18, 6) holds fewer millionths than this.
abbrev pub numeric_limit : ℕ
numeric_limit = 10 ^ 18

unfoldable pub add_credit : Tables.EnergyCredit → Tables.PaymentDb → Tables.PaymentDb
add_credit c db = record db { credits = db.credits ++ c ∷ []; next_credit = db.next_credit + 1 }

-- The other constraints hold: the payment, the assignment and the tariff were read in the transaction,
-- and the assignment is one of the customer who pays.
unfoldable pub insert_energy_credit :
    Bool
    → Tables.EnergyCredit
    → Tables.PaymentDb
    → Result ApiError (Tables.EnergyCredit × Tables.PaymentDb)
unfolding add_credit
insert_energy_credit fails c db = do
  statement fails
  refuse_if (c.kwh_granted == 0 || leb numeric_limit c.kwh_granted) database
  ok (c, add_credit c db)

abbrev pub raised : ℕ → ℕ → ℕ → Tables.CreditBalance → Tables.CreditBalance
raised now kwh money b = record b {
  remaining_kwh = b.remaining_kwh + kwh;
  remaining_money_value_minor_units = b.remaining_money_value_minor_units + money;
  updated_at = now;
}

-- The row of the balance behind the upsert.
abbrev pub upserted : ℕ → ℕ → ℕ → ℕ → Option Tables.CreditBalance → Tables.CreditBalance
upserted now assignment kwh money none = record {
  assignment_id = assignment;
  remaining_kwh = kwh;
  remaining_money_value_minor_units = money;
  updated_at = now;
}
upserted now assignment kwh money (some b) = raised now kwh money b

unfoldable pub put_balance : ℕ → ℕ → ℕ → ℕ → List Tables.CreditBalance → List Tables.CreditBalance
put_balance now assignment kwh money rows =
    if exists_where (balance_of assignment) rows
    then update_where (balance_of assignment) (raised now kwh money) rows
    else rows ++ upserted now assignment kwh money none ∷ []

unfoldable pub upsert_credit_balance :
    Bool
    → ℕ
    → ℕ
    → ℕ
    → ℕ
    → Tables.PaymentDb
    → Result ApiError (Tables.CreditBalance × Tables.PaymentDb)
unfolding put_balance
upsert_credit_balance fails now assignment kwh money db = do
  statement fails
  let b = upserted now assignment kwh money (find_where (balance_of assignment) db.balances)
  refuse_if (leb numeric_limit b.remaining_kwh || ltb max_int64 b.remaining_money_value_minor_units)
      database
  ok (b, record db { balances = put_balance now assignment kwh money db.balances })

unfoldable pub new_command : ℕ → Text → Text → Text → Text → Tables.PaymentDb → Tables.MeterCommand
new_command now meter command_type requested_by reason db = record {
  command_id = db.next_command;
  meter_id = meter;
  command_type = command_type;
  status = codes "requested";
  requested_by = requested_by;
  reason = reason;
  requested_at = now;
  sent_at = none;
  acknowledged_at = none;
  failure_reason = none;
}

unfoldable pub add_command : Tables.MeterCommand → Tables.PaymentDb → Tables.PaymentDb
add_command c db = record db {
  commands = db.commands ++ c ∷ [];
  next_command = db.next_command + 1;
}

unfoldable pub insert_meter_command :
    Bool
    → Tables.MeterCommand
    → Tables.PaymentDb
    → Result ApiError (Tables.MeterCommand × Tables.PaymentDb)
unfolding add_command
insert_meter_command fails c db = do statement fails; ok (c, add_command c db)

unfoldable pub insert_event :
    Bool → Tables.OutboxEvent → Tables.PaymentDb → Result ApiError Tables.PaymentDb
insert_event fails e db = do statement fails; ok (record db { outbox = db.outbox ++ e ∷ [] })

unfoldable pub confirmed_event : Tables.OutboxTopics → Tables.Payment → Tables.OutboxEvent
confirmed_event topics p = record {
  topic = topics.payment_confirmed;
  event_type = codes "payment.confirmed";
  aggregate_type = codes "payment";
  aggregate_id = p.payment_id;
  payload = Tables.payment_confirmed p;
}

unfoldable pub issued_event : Tables.OutboxTopics → Tables.EnergyCredit → Tables.OutboxEvent
issued_event topics c = record {
  topic = topics.credit_issued;
  event_type = codes "credit.issued";
  aggregate_type = codes "energy_credit";
  aggregate_id = c.credit_id;
  payload = Tables.credit_issued c;
}

unfoldable pub command_event :
    Tables.OutboxTopics → Tables.MeterAssignment → Tables.MeterCommand → Tables.OutboxEvent
command_event topics a c = record {
  topic = topics.meter_command_requested;
  event_type = codes "meter.command.requested";
  aggregate_type = codes "meter_command";
  aggregate_id = c.command_id;
  payload = Tables.meter_command_requested c a.site_id a.assignment_id;
}

unfoldable pub insert_audit_event :
    Bool → Tables.AuditEvent → Tables.PaymentDb → Result ApiError Tables.PaymentDb
insert_audit_event fails a db = do statement fails; ok (record db { audit = db.audit ++ a ∷ [] })
