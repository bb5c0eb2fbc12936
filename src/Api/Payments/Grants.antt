-- ===== src/Api/Payments/Grants.antt =====
-- A new payment that is applied leaves its rows.
use ambagrid.Common.{
  ℕ, ◌≡◌, refl, sym, ap, Bool, true, false, not, List, [], ◌∷◌, ◌++◌, arith, text_eq, ok, refuse_if,
  >>=-eq-ok, >>=-known, ok-injective, subst, exists_where, find_where, append_assoc, append-nil,
}
use ambagrid.Api.Database.{conflict}
use ambagrid.Api.Payments.Tables
use ambagrid.Api.Payments.Queries
use ambagrid.Api.Payments.Writes
use ambagrid.Api.Payments.Apply
use ambagrid.Api.Payments.Steps
use ambagrid.Api.Payments.Booked.{booked, granted_millionths, reconnected, Granted}

append_three {ℓ} :
    {A : Type ℓ} (xs : List A) (a b c : A)
    → ((xs ++ a ∷ []) ++ b ∷ []) ++ c ∷ [] ≡ xs ++ (a ∷ b ∷ c ∷ [])
append_three [] a b c = refl
append_three (x ∷ xs) a b c = ap (λ l. x ∷ l) (append_three xs a b c)

module _ (v : Apply.Env) (c : Tables.ApplyPaymentCommand) (db : Tables.PaymentDb) where
  abbrev paid : Tables.Payment
  paid = Writes.new_payment v.now c db

  abbrev credited : Tables.MeterAssignment → Tables.TariffPlan → Tables.EnergyCredit
  credited a t =
      Writes.new_credit v.now a db.next_payment t.tariff_plan_id (granted_millionths v c t)
        c.amount_minor_units db

  -- The tables before the command.
  abbrev announced : Tables.MeterAssignment → Tables.TariffPlan → Tables.PaymentDb
  announced a t = record (Writes.add_credit (credited a t) (Writes.add_payment paid db)) {
    balances =
        Writes.put_balance v.now a.assignment_id (granted_millionths v c t) c.amount_minor_units
          db.balances;
    outbox =
        (db.outbox ++ Writes.confirmed_event v.topics paid ∷ [])
        ++ Writes.issued_event v.topics (credited a t) ∷ [];
  }

  abbrev raised_balance : Tables.MeterAssignment → Tables.TariffPlan → Tables.CreditBalance
  raised_balance a t =
      Steps.balance_after v.now a.assignment_id (granted_millionths v c t) c.amount_minor_units db

  abbrev result : Tables.MeterAssignment → Tables.TariffPlan → Bool → Tables.ApplyPaymentResult
  result a t needed = record {
    payment = paid;
    credit = credited a t;
    balance = raised_balance a t;
    meter_command = (Steps.commanded v c a (announced a t) needed).0;
  }

  abbrev audited :
      Tables.MeterAssignment → Tables.TariffPlan → Bool → Tables.PaymentDb → Tables.PaymentDb
  audited a t needed d = record d {
    audit =
        d.audit
        ++ Apply.applied_audit v.now c a t.tariff_plan_id
            (Apply.kwh_granted v.floats t c.amount_minor_units) (result a t needed)
          ∷ [];
  }

  audited-booked :
      (a : Tables.MeterAssignment) (t : Tables.TariffPlan) (needed : Bool)
      → audited a t needed (Steps.commanded v c a (announced a t) needed).1
        ≡ booked v c a t (result a t needed) db
  unfolding Writes.add_credit Writes.add_payment Apply.reconnect_command Writes.new_command
  audited-booked a t false =
      rw
        (
          append_assoc db.outbox (Writes.confirmed_event v.topics paid ∷ [])
              (Writes.issued_event v.topics (credited a t) ∷ []),
          append-nil db.commands,
        )
        refl
  audited-booked a t true =
      let command = Apply.reconnect_command v.now c a db in
      ap (λ rows. record (booked v c a t (result a t true) db) { outbox = rows })
        (append_three db.outbox (Writes.confirmed_event v.topics paid)
          (Writes.issued_event v.topics (credited a t)) (Writes.command_event v.topics a command))

  commanded-reconnected :
      (a : Tables.MeterAssignment) (t : Tables.TariffPlan) (needed : Bool)
      → (Steps.commanded v c a (announced a t) needed).0 ≡ reconnected v c a db needed
  unfolding Apply.reconnect_command Writes.new_command Writes.add_credit Writes.add_payment
  commanded-reconnected a t false = refl
  commanded-reconnected a t true = refl

  granted :
      (a : Tables.MeterAssignment) (t : Tables.TariffPlan)
      → exists_where (Queries.payment_at c.provider c.external_reference) db.payments ≡ false
      → Queries.find_active_assignment false c.customer_id db ≡ ok a
      → Queries.find_active_tariff false a.site_id c.confirmed_at db ≡ ok t
      → text_eq t.currency c.currency ≡ true
      → let needed =
          Apply.needs_reconnect a
            (Queries.kwh_of (find_where (Queries.balance_of a.assignment_id) db.balances))
            (raised_balance a t) in
        Granted v c db
          (result a t needed)
          (audited a t needed (Steps.commanded v c a (announced a t) needed).1)
  granted a t unpaid assigned priced same = record {
    assignment = a;
    tariff = t;
    unpaid = unpaid;
    assigned = assigned;
    priced = priced;
    same_currency = same;
    payment = refl;
    credit = refl;
    balance = refl;
    command = commanded-reconnected a t _;
    tables = audited-booked a t _;
  }

  record_applied-done :
      (a : Tables.MeterAssignment) (t : Tables.TariffPlan) (prior : ℕ) (db2 : Tables.PaymentDb)
      {done : Tables.ApplyPaymentResult × Tables.PaymentDb}
      → Apply.record_applied v c paid a t (credited a t) prior (raised_balance a t) db2 ≡ ok done
      → let db4 = record db2 {
        outbox =
            (db2.outbox ++ Writes.confirmed_event v.topics paid ∷ [])
            ++ Writes.issued_event v.topics (credited a t) ∷ [];
      } in
        let commanded =
          Steps.commanded v c a db4 (Apply.needs_reconnect a prior (raised_balance a t)) in
        done ≡ (
          record {
            payment = paid;
            credit = credited a t;
            balance = raised_balance a t;
            meter_command = commanded.0;
          },
          record commanded.1 {
            audit =
                commanded.1.audit
                ++ Apply.applied_audit v.now c a t.tariff_plan_id
                    (Apply.kwh_granted v.floats t c.amount_minor_units)
                    (record {
                      payment = paid;
                      credit = credited a t;
                      balance = raised_balance a t;
                      meter_command = commanded.0;
                    })
                  ∷ [];
          },
        )
  unfolding Apply.record_applied
  record_applied-done a t prior db2 h =
      let h1 =
        >>=-known (Writes.insert_event (v.faults 9) (Writes.confirmed_event v.topics paid) db2) _
          (λ _ q.
            Steps.insert_event-append (v.faults 9) (Writes.confirmed_event v.topics paid) db2 q)
          h in
      let h2 =
        >>=-known
          (Writes.insert_event (v.faults 10) (Writes.issued_event v.topics (credited a t)) _) _
          (λ _ q.
            Steps.insert_event-append (v.faults 10) (Writes.issued_event v.topics (credited a t)) _
              q)
          h1 in
      let h3 =
        >>=-known (Apply.request_reconnect v c a prior (raised_balance a t) _) _
          (λ _ q. Steps.request_reconnect-commanded v c a prior (raised_balance a t) _ q) h2 in
      let h4 =
        >>=-known (Writes.insert_audit_event (v.faults 13) _ _) _
          (λ _ q. Steps.insert_audit_event-append (v.faults 13) _ _ q) h3 in
      sym (ok-injective h4)

  apply_priced-done :
      (a : Tables.MeterAssignment) (t : Tables.TariffPlan)
      {done : Tables.ApplyPaymentResult × Tables.PaymentDb}
      → Apply.apply_priced v c paid a t (Writes.add_payment paid db) ≡ ok done
      → let needed =
          Apply.needs_reconnect a
            (Queries.kwh_of (find_where (Queries.balance_of a.assignment_id) db.balances))
            (raised_balance a t) in
        done
        ≡ (result a t needed, audited a t needed (Steps.commanded v c a (announced a t) needed).1)
  unfolding Apply.apply_priced Writes.add_payment Writes.new_payment Writes.new_credit
      Writes.add_credit
  apply_priced-done a t h =
      let mid = Writes.add_payment paid db in
      let h1 =
        >>=-known (Writes.insert_energy_credit (v.faults 6) (credited a t) mid) _
          (λ _ q. Steps.insert_energy_credit-add_credit (v.faults 6) (credited a t) mid q) h in
      let d = Writes.add_credit (credited a t) mid in
      let h2 =
        >>=-known (Queries.get_prior_balance (v.faults 7) a.assignment_id d) _
          (λ _ q. Steps.get_prior_balance-kwh_of (v.faults 7) a.assignment_id d q) h1 in
      let h3 =
        >>=-known
          (Writes.upsert_credit_balance (v.faults 8) v.now a.assignment_id
            (granted_millionths v c t) c.amount_minor_units d)
          _
          (λ _ q.
            Steps.upsert_credit_balance-put_balance (v.faults 8) v.now a.assignment_id
              (granted_millionths v c t) c.amount_minor_units d q)
          h2 in
      record_applied-done a t _ _ h3

  apply_priced-Granted :
      (a : Tables.MeterAssignment) (t : Tables.TariffPlan) (r : Tables.ApplyPaymentResult)
      (db' : Tables.PaymentDb)
      → exists_where (Queries.payment_at c.provider c.external_reference) db.payments ≡ false
      → Queries.find_active_assignment false c.customer_id db ≡ ok a
      → Queries.find_active_tariff false a.site_id c.confirmed_at db ≡ ok t
      → text_eq t.currency c.currency ≡ true
      → Apply.apply_priced v c paid a t (Writes.add_payment paid db) ≡ ok (r, db')
      → Granted v c db r db'
  apply_priced-Granted a t r db' unpaid assigned priced same h =
      let done = apply_priced-done a t h in
      subst (λ (x : Tables.ApplyPaymentResult × Tables.PaymentDb). Granted v c db x.0 x.1)
        (sym done) (granted a t unpaid assigned priced same)

  pub apply_new-Granted :
      (r : Tables.ApplyPaymentResult) (db' : Tables.PaymentDb)
      → exists_where (Queries.payment_at c.provider c.external_reference) db.payments ≡ false
      → Apply.apply_new v c paid (Writes.add_payment paid db) ≡ ok (r, db')
      → Granted v c db r db'
  unfolding Apply.apply_new Writes.add_payment Queries.find_active_assignment
      Queries.find_active_tariff
  apply_new-Granted r db' unpaid h =
      let mid = Writes.add_payment paid db in
      let (a, assigned, h1) =
        >>=-eq-ok (Queries.find_active_assignment (v.faults 4) c.customer_id mid) _ h in
      let (t, priced, h2) =
        >>=-eq-ok (Queries.find_active_tariff (v.faults 5) a.site_id c.confirmed_at mid) _ h1 in
      let (_, same, h3) =
        >>=-eq-ok (refuse_if (not (text_eq t.currency c.currency)) conflict) _ h2 in
      apply_priced-Granted a t r db' unpaid
        (Steps.find_active_assignment-read (v.faults 4) c.customer_id mid assigned)
        (Steps.find_active_tariff-read (v.faults 5) a.site_id c.confirmed_at mid priced)
        (ground arith) h3
