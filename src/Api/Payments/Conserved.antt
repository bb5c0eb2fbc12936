-- ===== src/Api/Payments/Conserved.antt =====
-- Balances against credits: a payment raises both by the same.
use ambagrid.Common.{
  ℕ, ◌+◌, ◌≡◌, refl, sym, subst, inl, inr, Bool, Option, none, some, arith, ◌==◌, if◌then◌else◌,
  Result, ok, err, sum_where, sum_where-append,
}
use ambagrid.Api.Database.{ApiError}
use ambagrid.Api.Payments.Tables
use ambagrid.Api.Payments.Queries
use ambagrid.Api.Payments.Writes
use ambagrid.Api.Payments.Apply
use ambagrid.Api.Payments.Balances.{put_balance-sum}
use ambagrid.Api.Payments.Booked.{Granted, granted_millionths}
use ambagrid.Api.Payments.Outcomes.{apply_payment-Applied, apply_payment-refused}
use ambagrid.Api.Payments.Books.{Ledger}

abbrev pub of_assignment : ℕ → Tables.EnergyCredit → Bool
of_assignment assignment c = c.assignment_id == assignment

abbrev pub or_zero : Option ℕ → ℕ
or_zero none = 0
or_zero (some n) = n

-- The money and the energy that the balance of an assignment holds.
abbrev pub money_held : ℕ → Tables.PaymentDb → ℕ
money_held assignment db =
    sum_where (Queries.balance_of assignment) (λ b. b.remaining_money_value_minor_units) db.balances

abbrev pub kwh_held : ℕ → Tables.PaymentDb → ℕ
kwh_held assignment db =
    sum_where (Queries.balance_of assignment) (λ b. b.remaining_kwh) db.balances

-- What all credits of an assignment have given it.
abbrev pub money_credited : ℕ → Tables.PaymentDb → ℕ
money_credited assignment db =
    sum_where (of_assignment assignment) (λ c. or_zero c.money_value_minor_units) db.credits

abbrev pub kwh_credited : ℕ → Tables.PaymentDb → ℕ
kwh_credited assignment db = sum_where (of_assignment assignment) (λ c. c.kwh_granted) db.credits

abbrev pub Conserved : ℕ → Tables.PaymentDb → Tables.PaymentDb → Type 0
Conserved assignment db db' =
    (money_held assignment db' + money_credited assignment db
      ≡ money_held assignment db + money_credited assignment db')
    × (kwh_held assignment db' + kwh_credited assignment db
        ≡ kwh_held assignment db + kwh_credited assignment db')

balanced :
    (held held' credited credited' rise : ℕ)
    → held' ≡ held + rise
    → credited' ≡ credited + rise
    → held' + credited ≡ held + credited'
balanced held held' credited credited' rise h c = omega arith

module _ (v : Apply.Env) (c : Tables.ApplyPaymentCommand) (db : Tables.PaymentDb) where
  Granted-Conserved :
      (r : Tables.ApplyPaymentResult) (db' : Tables.PaymentDb) (o : ℕ)
      → Granted v c db r db'
      → Ledger db
      → Conserved o db db'
  unfolding Writes.new_credit
  Granted-Conserved r db' o g b =
      let k = g.assignment.assignment_id in
      let kwh = granted_millionths v c g.tariff in
      let money = c.amount_minor_units in
      let once = b.one_balance k in
      subst (Conserved o db) (sym g.tables) (
        balanced _ _ _ _ (if k == o then money else 0)
            (put_balance-sum v.now kwh money (λ x. x.remaining_money_value_minor_units) money k o
              db.balances (λ x. refl) refl once)
            (rw
              (
                sum_where-append (of_assignment o) (λ x. or_zero x.money_value_minor_units)
                    db.credits r.credit,
                g.credit,
              )
              refl),
        balanced _ _ _ _ (if k == o then kwh else 0)
            (put_balance-sum v.now kwh money (λ x. x.remaining_kwh) kwh k o db.balances (λ x. refl)
              refl once)
            (rw
              (
                sum_where-append (of_assignment o) (λ x. x.kwh_granted) db.credits r.credit,
                g.credit,
              )
              refl),
      )

  -- Whatever comes of a payment, the balance of every assignment rises by what its credits rise by, in
  -- minor units and in millionths of a kWh, if the books were kept before.
  pub apply_payment-Conserved : (o : ℕ) → Ledger db → Conserved o db (Apply.apply_payment v c db).0
  apply_payment-Conserved o b = settled (Apply.apply_payment v c db).1 refl
    where
      settled :
          (r : Result ApiError Tables.ApplyPaymentResult)
          → (Apply.apply_payment v c db).1 ≡ r
          → Conserved o db (Apply.apply_payment v c db).0
      settled (err e) q = rw (apply_payment-refused v c db e q) (refl, refl)
      settled (ok r) q = elim (apply_payment-Applied v c db r q) [
        | inl again ↦ subst (Conserved o db) (sym again.tables) (refl, refl)
        | inr new ↦ Granted-Conserved r _ o new b
      ]
