-- ===== src/Api/Payments/Steps.antt =====
-- What the statements of a payment transaction have done where they succeed.
use ambagrid.Common.{
  ℕ, ◌+◌, ◌≡◌, refl, Bool, true, false, Option, none, some, [], ◌∷◌, ◌++◌, arith, Text, ok,
  exists_where, find_where, if◌then◌else◌,
}
use ambagrid.Api.Payments.Tables
use ambagrid.Api.Payments.Queries
use ambagrid.Api.Payments.Writes
use ambagrid.Api.Payments.Apply.{Env, request_reconnect, needs_reconnect, reconnect_command}

pub find_existing_payment-find_where :
    (fails : Bool) (provider reference : Text) (db : Tables.PaymentDb)
    {found : Option Tables.Payment}
    → Queries.find_existing_payment fails provider reference db ≡ ok found
    → find_where (Queries.payment_at provider reference) db.payments ≡ found
unfolding Queries.find_existing_payment
find_existing_payment-find_where fails provider reference db h = ground arith

pub find_active_assignment-read :
    (fails : Bool) (customer : Text) (db : Tables.PaymentDb) {a : Tables.MeterAssignment}
    → Queries.find_active_assignment fails customer db ≡ ok a
    → Queries.find_active_assignment false customer db ≡ ok a
unfolding Queries.find_active_assignment
find_active_assignment-read false customer db h = h
find_active_assignment-read true customer db h = ground arith

pub find_active_tariff-read :
    (fails : Bool) (site : Text) (at : ℕ) (db : Tables.PaymentDb) {t : Tables.TariffPlan}
    → Queries.find_active_tariff fails site at db ≡ ok t
    → Queries.find_active_tariff false site at db ≡ ok t
unfolding Queries.find_active_tariff
find_active_tariff-read false site at db h = h
find_active_tariff-read true site at db h = ground arith

pub get_prior_balance-kwh_of :
    (fails : Bool) (assignment : ℕ) (db : Tables.PaymentDb) {kwh : ℕ}
    → Queries.get_prior_balance fails assignment db ≡ ok kwh
    → kwh ≡ Queries.kwh_of (find_where (Queries.balance_of assignment) db.balances)
unfolding Queries.get_prior_balance
get_prior_balance-kwh_of fails assignment db h = ground arith

pub insert_energy_credit-add_credit :
    (fails : Bool) (c : Tables.EnergyCredit) (db : Tables.PaymentDb)
    {done : Tables.EnergyCredit × Tables.PaymentDb}
    → Writes.insert_energy_credit fails c db ≡ ok done
    → done ≡ (c, Writes.add_credit c db)
unfolding Writes.insert_energy_credit
insert_energy_credit-add_credit fails c db h = ground arith

pub insert_event-append :
    (fails : Bool) (e : Tables.OutboxEvent) (db : Tables.PaymentDb) {db' : Tables.PaymentDb}
    → Writes.insert_event fails e db ≡ ok db'
    → db' ≡ record db { outbox = db.outbox ++ e ∷ [] }
unfolding Writes.insert_event
insert_event-append fails e db h = ground arith

pub insert_audit_event-append :
    (fails : Bool) (a : Tables.AuditEvent) (db : Tables.PaymentDb) {db' : Tables.PaymentDb}
    → Writes.insert_audit_event fails a db ≡ ok db'
    → db' ≡ record db { audit = db.audit ++ a ∷ [] }
unfolding Writes.insert_audit_event
insert_audit_event-append fails a db h = ground arith

abbrev pub balance_after : ℕ → ℕ → ℕ → ℕ → Tables.PaymentDb → Tables.CreditBalance
balance_after now assignment kwh money db =
    Writes.upserted now assignment kwh money
      (find_where (Queries.balance_of assignment) db.balances)

pub upsert_credit_balance-put_balance :
    (fails : Bool) (now assignment kwh money : ℕ) (db : Tables.PaymentDb)
    {done : Tables.CreditBalance × Tables.PaymentDb}
    → Writes.upsert_credit_balance fails now assignment kwh money db ≡ ok done
    → done ≡ (
      balance_after now assignment kwh money db,
      record db { balances = Writes.put_balance now assignment kwh money db.balances },
    )
unfolding Writes.upsert_credit_balance
upsert_credit_balance-put_balance fails now assignment kwh money db h = ground arith

pub place_payment-add_payment :
    (now : ℕ) (c : Tables.ApplyPaymentCommand) (db : Tables.PaymentDb) (there : Bool)
    {done : Option Tables.Payment × Tables.PaymentDb}
    → Writes.place_payment now c db there ≡ ok done
    → done ≡ (
        if there then (none, db) else (
          some (Writes.new_payment now c db),
          Writes.add_payment (Writes.new_payment now c db) db,
        ))
unfolding Writes.place_payment
place_payment-add_payment now c db true h = ground arith
place_payment-add_payment now c db false h = ground arith

pub insert_payment-place_payment :
    (fails : Bool) (now : ℕ) (c : Tables.ApplyPaymentCommand) (db : Tables.PaymentDb)
    {done : Option Tables.Payment × Tables.PaymentDb}
    → Writes.insert_payment fails now c db ≡ ok done
    → Writes.place_payment now c db
        (exists_where (Queries.payment_at c.provider c.external_reference) db.payments)
      ≡ ok done
unfolding Writes.insert_payment
insert_payment-place_payment fails now c db h = ground arith

-- The command of a reconnect and its event, or nothing.
abbrev pub commanded :
    Env
    → Tables.ApplyPaymentCommand
    → Tables.MeterAssignment
    → Tables.PaymentDb
    → Bool
    → Option Tables.MeterCommand × Tables.PaymentDb
commanded v c a db false = (none, db)
commanded v c a db true =
    let command = reconnect_command v.now c a db in
    (
      some command,
      record db {
        commands = db.commands ++ command ∷ [];
        next_command = db.next_command + 1;
        outbox = db.outbox ++ Writes.command_event v.topics a command ∷ [];
      },
    )

request_reconnect_decided :
    (v : Env) (c : Tables.ApplyPaymentCommand) (a : Tables.MeterAssignment) (prior : ℕ)
    (b : Tables.CreditBalance) (db : Tables.PaymentDb) (needed : Bool)
    {done : Option Tables.MeterCommand × Tables.PaymentDb}
    → needs_reconnect a prior b ≡ needed
    → request_reconnect v c a prior b db ≡ ok done
    → done ≡ commanded v c a db needed
unfolding request_reconnect Writes.insert_meter_command Writes.insert_event Writes.add_command
request_reconnect_decided v c a prior b db true q h = let h' = rw q at h in ground arith
request_reconnect_decided v c a prior b db false q h = let h' = rw q at h in ground arith

pub request_reconnect-commanded :
    (v : Env) (c : Tables.ApplyPaymentCommand) (a : Tables.MeterAssignment) (prior : ℕ)
    (b : Tables.CreditBalance) (db : Tables.PaymentDb)
    {done : Option Tables.MeterCommand × Tables.PaymentDb}
    → request_reconnect v c a prior b db ≡ ok done
    → done ≡ commanded v c a db (needs_reconnect a prior b)
request_reconnect-commanded v c a prior b db h =
    request_reconnect_decided v c a prior b db (needs_reconnect a prior b) refl h

pub find_credit_by_payment-find_where :
    (fails : Bool) (payment : ℕ) (db : Tables.PaymentDb) {credit : Tables.EnergyCredit}
    → Queries.find_credit_by_payment fails payment db ≡ ok credit
    → find_where (Queries.credit_for payment) db.credits ≡ some credit
unfolding Queries.find_credit_by_payment
find_credit_by_payment-find_where fails payment db h = ground arith

pub find_balance_by_assignment-find_where :
    (fails : Bool) (assignment : ℕ) (db : Tables.PaymentDb) {balance : Tables.CreditBalance}
    → Queries.find_balance_by_assignment fails assignment db ≡ ok balance
    → find_where (Queries.balance_of assignment) db.balances ≡ some balance
unfolding Queries.find_balance_by_assignment
find_balance_by_assignment-find_where fails assignment db h = ground arith

pub find_meter_command_by_payment-find_where :
    (fails : Bool) (payment : ℕ) (db : Tables.PaymentDb) {command : Option Tables.MeterCommand}
    → Queries.find_meter_command_by_payment fails payment db ≡ ok command
    → find_where (Queries.command_for payment db.audit) db.commands ≡ command
unfolding Queries.find_meter_command_by_payment
find_meter_command_by_payment-find_where fails payment db h = ground arith
