-- ===== src/Api/Payments/Booked.antt =====
-- What a payment leaves in the tables: a new one, and one that was there.
use ambagrid.Common.{
  ℕ, ◌+◌, ◌≡◌, ◌⊎◌, Bool, true, false, Option, none, some, List, [], ◌∷◌, ◌++◌, text_eq, ok,
  exists_where, find_where,
}
use ambagrid.Api.Payments.Tables
use ambagrid.Api.Payments.Checks.{verify_payment_consistency}
use ambagrid.Api.Payments.Queries
use ambagrid.Api.Payments.Writes
use ambagrid.Api.Payments.Apply
use ambagrid.Api.Payments.Steps

abbrev pub granted_millionths : Apply.Env → Tables.ApplyPaymentCommand → Tables.TariffPlan → ℕ
granted_millionths v c t =
    v.floats.to_millionths (Apply.kwh_granted v.floats t c.amount_minor_units)

-- The rows of a command that may be there.
abbrev pub issued : Option Tables.MeterCommand → List Tables.MeterCommand
issued none = []
issued (some c) = c ∷ []

abbrev pub after_command : ℕ → Option Tables.MeterCommand → ℕ
after_command n none = n
after_command n (some c) = n + 1

abbrev pub announced_command :
    Tables.OutboxTopics
    → Tables.MeterAssignment
    → Option Tables.MeterCommand
    → List Tables.OutboxEvent
announced_command topics a none = []
announced_command topics a (some c) = Writes.command_event topics a c ∷ []

-- The tables behind a new payment with this result: one payment, its credit, the balance raised by
-- it, the command if there is one, an event for each of them, and an audit row.
abbrev pub booked :
    Apply.Env
    → Tables.ApplyPaymentCommand
    → Tables.MeterAssignment
    → Tables.TariffPlan
    → Tables.ApplyPaymentResult
    → Tables.PaymentDb
    → Tables.PaymentDb
booked v c a t r db = record db {
  payments = db.payments ++ r.payment ∷ [];
  next_payment = db.next_payment + 1;
  credits = db.credits ++ r.credit ∷ [];
  next_credit = db.next_credit + 1;
  balances =
      Writes.put_balance v.now a.assignment_id (granted_millionths v c t) c.amount_minor_units
        db.balances;
  commands = db.commands ++ issued r.meter_command;
  next_command = after_command db.next_command r.meter_command;
  outbox =
      db.outbox
      ++ (Writes.confirmed_event v.topics r.payment
          ∷ Writes.issued_event v.topics r.credit
          ∷ announced_command v.topics a r.meter_command);
  audit =
      db.audit
      ++ Apply.applied_audit v.now c a t.tariff_plan_id
          (Apply.kwh_granted v.floats t c.amount_minor_units) r
        ∷ [];
}

abbrev pub reconnected :
    Apply.Env
    → Tables.ApplyPaymentCommand
    → Tables.MeterAssignment
    → Tables.PaymentDb
    → Bool
    → Option Tables.MeterCommand
reconnected v c a db false = none
reconnected v c a db true = some (Apply.reconnect_command v.now c a db)

-- A new payment: its reference was free, its customer has an active assignment with a tariff in its
-- currency; the credit is the energy of the amount at that tariff, the balance rises by both, and the
-- meter is reconnected exactly if its relay is open and the balance leaves zero.
pub record Granted (v : Apply.Env) (c : Tables.ApplyPaymentCommand) (db : Tables.PaymentDb)
    (r : Tables.ApplyPaymentResult) (db' : Tables.PaymentDb) : Type 0 where
  pub assignment : Tables.MeterAssignment
  pub tariff : Tables.TariffPlan
  pub unpaid : exists_where (Queries.payment_at c.provider c.external_reference) db.payments ≡ false
  pub assigned : Queries.find_active_assignment false c.customer_id db ≡ ok assignment
  pub priced : Queries.find_active_tariff false assignment.site_id c.confirmed_at db ≡ ok tariff
  pub same_currency : text_eq tariff.currency c.currency ≡ true
  pub payment : r.payment ≡ Writes.new_payment v.now c db
  pub credit :
      r.credit
      ≡ Writes.new_credit v.now assignment db.next_payment tariff.tariff_plan_id
          (granted_millionths v c tariff)
          c.amount_minor_units
          db
  pub balance :
      r.balance
      ≡ Steps.balance_after v.now assignment.assignment_id
          (granted_millionths v c tariff)
          c.amount_minor_units
          db
  pub command :
      r.meter_command
      ≡ reconnected v c assignment db (
          Apply.needs_reconnect assignment
            (Queries.kwh_of (find_where (Queries.balance_of assignment.assignment_id) db.balances))
            r.balance)
  pub tables : db' ≡ booked v c assignment tariff r db

-- A payment that was there already: with the customer, amount, currency and status of the command. Its
-- credit and its command are those of the tables, the balance is the present one.
pub record Replayed (v : Apply.Env) (c : Tables.ApplyPaymentCommand) (db : Tables.PaymentDb)
    (r : Tables.ApplyPaymentResult) (db' : Tables.PaymentDb) : Type 0 where
  pub found :
      (find_where (Queries.payment_at c.provider c.external_reference) v.seen.payments
        ≡ some r.payment)
      ⊎ (find_where (Queries.payment_at c.provider c.external_reference) db.payments
          ≡ some r.payment)
  pub consistent : verify_payment_consistency r.payment c ≡ ok tt
  pub credit : find_where (Queries.credit_for r.payment.payment_id) db.credits ≡ some r.credit
  pub balance : find_where (Queries.balance_of r.credit.assignment_id) db.balances ≡ some r.balance
  pub command :
      find_where (Queries.command_for r.payment.payment_id db.audit) db.commands ≡ r.meter_command
  pub tables : db' ≡ db
