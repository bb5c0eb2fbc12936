-- ===== src/Api/Payments/Effects.antt =====
-- A payment that is applied, told by the amounts and the rows it leaves and not by the code's functions.
use ambagrid.Api.Payments.Tariffs.{InForce, priced-latest}
use ambagrid.Common.{
  ℕ, ◌+◌, ◌<◌, ◌≡◌, ◌⊎◌, inl, inr, refl, sym, ap, Bool, true, false, Option, none, some, List,
  arith, codes, ◌==◌, text_eq_iff, ok, All, find_where,
}
use ambagrid.Api.Payments.Tables
use ambagrid.Api.Payments.Queries
use ambagrid.Api.Payments.Writes
use ambagrid.Api.Payments.Apply
use ambagrid.Api.Payments.Booked
use ambagrid.Api.Payments.Booked.{Granted, Replayed}
use ambagrid.Api.Payments.Balances.{put_balance-found}
use ambagrid.Api.Payments.Outcomes.{apply_payment-Applied}

-- The balance of an assignment in a table, where a missing row holds nothing.
abbrev pub row_of : ℕ → List Tables.CreditBalance → Option Tables.CreditBalance
row_of id rows = find_where (λ b. b.assignment_id == id) rows

abbrev pub energy : Option Tables.CreditBalance → ℕ
energy none = 0
energy (some b) = b.remaining_kwh

abbrev pub money : Option Tables.CreditBalance → ℕ
money none = 0
money (some b) = b.remaining_money_value_minor_units

-- The meter is reconnected: its relay is open, and its energy was 0 and is not any longer.
abbrev pub Recharged : Tables.MeterAssignment → ℕ → ℕ → Type 0
Recharged a before after = (a.relay_closed ≡ false) × (before ≡ 0) × (0 < after)

abbrev pub Reconnects : Tables.MeterAssignment → ℕ → ℕ → Option Tables.MeterCommand → Type 0
Reconnects a before after none = ¬ Recharged a before after
Reconnects a before after (some m) =
    Recharged a before after
    × (m.meter_id ≡ a.meter_id)
    × (m.command_type ≡ codes "reconnect_meter")
    × (m.status ≡ codes "requested")

-- A new payment in its amounts: the payment is that of the command; its credit is the energy that the
-- amount buys at the tariff, which is one of the site in the currency of the command and in force; the
-- balance of the assignment holds that much more than before, in the answer and in the table.
pub record Effects (v : Apply.Env) (c : Tables.ApplyPaymentCommand) (db : Tables.PaymentDb)
    (r : Tables.ApplyPaymentResult) (db' : Tables.PaymentDb) (a : Tables.MeterAssignment)
    (t : Tables.TariffPlan) : Type 0 where
  pub payer :
      (r.payment.customer_id ≡ c.customer_id)
      × (r.payment.provider ≡ c.provider)
      × (r.payment.external_reference ≡ c.external_reference)
  pub paid :
      (r.payment.amount_minor_units ≡ c.amount_minor_units)
      × (r.payment.currency ≡ c.currency)
      × (r.payment.status ≡ c.status)
  pub tariff_currency : t.currency ≡ c.currency
  pub tariff_in_force : InForce a.site_id c.confirmed_at t
  pub tariff_latest :
      All
        (λ u. ¬ (InForce a.site_id c.confirmed_at u × (t.effective_from < u.effective_from)))
        db.tariffs
  pub credit_of :
      (r.credit.payment_id ≡ some r.payment.payment_id)
      × (r.credit.assignment_id ≡ a.assignment_id)
      × (r.credit.tariff_plan_id ≡ some t.tariff_plan_id)
  pub credit_money : r.credit.money_value_minor_units ≡ some c.amount_minor_units
  pub credit_energy :
      r.credit.kwh_granted
      ≡ v.floats.to_millionths (
          v.floats.divide (v.floats.of_integer c.amount_minor_units) (
            v.floats.multiply
              (v.floats.of_millionths t.price_per_kwh)
              (v.floats.of_integer t.minor_units_per_major)))
  pub energy_rises :
      r.balance.remaining_kwh ≡ energy (row_of a.assignment_id db.balances) + r.credit.kwh_granted
  pub money_rises :
      r.balance.remaining_money_value_minor_units
      ≡ money (row_of a.assignment_id db.balances) + c.amount_minor_units
  pub balance_kept : row_of a.assignment_id db'.balances ≡ some r.balance
  pub reconnects :
      Reconnects a
        (energy (row_of a.assignment_id db.balances))
        r.balance.remaining_kwh
        r.meter_command

module _ (v : Apply.Env) (c : Tables.ApplyPaymentCommand) (db : Tables.PaymentDb)
    (r : Tables.ApplyPaymentResult) (db' : Tables.PaymentDb) where
  reconnected-Reconnects :
      (a : Tables.MeterAssignment) (prior : ℕ) (b : Tables.CreditBalance) (needed : Bool)
      → Apply.needs_reconnect a prior b ≡ needed
      → Reconnects a prior b.remaining_kwh (Booked.reconnected v c a db needed)
  unfolding Apply.needs_reconnect Apply.reconnect_command Writes.new_command
  reconnected-Reconnects a prior b true h = (ground arith, refl, refl, refl)
  reconnected-Reconnects a prior b false h = λ k. ground arith

  raised_energy :
      (kwh amount k : ℕ) (before : Option Tables.CreditBalance)
      → (Writes.upserted v.now k kwh amount before).remaining_kwh ≡ energy before + kwh
  raised_energy kwh amount k none = omega arith
  raised_energy kwh amount k (some b) = refl

  raised_money :
      (kwh amount k : ℕ) (before : Option Tables.CreditBalance)
      → (Writes.upserted v.now k kwh amount before).remaining_money_value_minor_units
        ≡ money before + amount
  raised_money kwh amount k none = omega arith
  raised_money kwh amount k (some b) = refl

  same_energy : (before : Option Tables.CreditBalance) → Queries.kwh_of before ≡ energy before
  same_energy none = refl
  same_energy (some b) = refl

  Granted-Effects : (g : Granted v c db r db') → Effects v c db r db' g.assignment g.tariff
  unfolding Writes.new_payment Writes.new_credit Apply.kwh_granted
  Granted-Effects g =
      let a = g.assignment in
      let before = row_of a.assignment_id db.balances in
      let priced = priced-latest a.site_id c.confirmed_at db g.priced in
      let granted = Booked.granted_millionths v c g.tariff in
      record {
        payer = rw g.payment (refl, refl, refl);
        paid = rw g.payment (refl, refl, refl);
        tariff_currency = (text_eq_iff g.tariff.currency c.currency).0 g.same_currency;
        tariff_in_force = priced.0;
        tariff_latest = priced.1;
        credit_of = rw (g.credit, g.payment) (refl, refl, refl);
        credit_money = rw g.credit refl;
        credit_energy = rw g.credit refl;
        energy_rises =
            rw (g.balance, g.credit)
              (raised_energy granted c.amount_minor_units a.assignment_id before);
        money_rises =
            rw g.balance (raised_money granted c.amount_minor_units a.assignment_id before);
        balance_kept =
            rw (g.tables, g.balance)
              (put_balance-found v.now granted c.amount_minor_units a.assignment_id db.balances);
        reconnects = rw g.command (
            reconnected-Reconnects a (energy before) r.balance _
              (ap (λ n. Apply.needs_reconnect a n r.balance) (sym (same_energy before))));
      }

module _ (v : Apply.Env) (c : Tables.ApplyPaymentCommand) (db : Tables.PaymentDb) where
  -- A call that succeeds has done one of two things. Either the reference was paid before, by a payment
  -- that says the same, and the tables are as they were: the answer tells that payment, its credit, the
  -- present balance and its command. Or the reference was free, and the payment of the command, its
  -- credit, their events and the audit row are new. The credit is what the amount buys at the latest
  -- tariff of the site in force, in the currency of the command; the balance of the assignment rises by
  -- just that energy and amount, and a command to reconnect the meter is issued exactly if its relay is
  -- open and its energy was zero and is not any longer.
  pub apply_payment-Effects :
      (r : Tables.ApplyPaymentResult)
      → (Apply.apply_payment v c db).1 ≡ ok r
      → let db' = (Apply.apply_payment v c db).0 in
        Replayed v c db r db'
        ⊎ ((g : Granted v c db r db') × Effects v c db r db' g.assignment g.tariff)
  apply_payment-Effects r h = elim (apply_payment-Applied v c db r h) [
    | inl replayed ↦ inl replayed
    | inr granted ↦ inr (granted, Granted-Effects v c db r _ granted)
  ]
