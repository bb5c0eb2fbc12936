-- ===== src/Api/Payments/Outcomes.antt =====
-- What a payment that is applied has changed.
use ambagrid.Common.{
  ◌≡◌, ◌⊎◌, inl, inr, refl, ◌∙◌, ap, Bool, true, false, Option, none, some, arith, Result, ok, err,
  >>=-eq-ok, in_tx-eq-ok, in_tx_atomic, ok-injective, subst, exists_where, find_where,
}
use ambagrid.Api.Database.{ApiError, database, statement}
use ambagrid.Api.Payments.Tables
use ambagrid.Api.Payments.Checks.{verify_payment_consistency}
use ambagrid.Api.Payments.Queries
use ambagrid.Api.Payments.Writes
use ambagrid.Api.Payments.Apply
use ambagrid.Api.Payments.Steps
use ambagrid.Api.Payments.Booked.{Granted, Replayed}
use ambagrid.Api.Payments.Grants.{apply_new-Granted}

ok_unit : (m : Result ApiError (Unit {0})) {u : Unit {0}} → m ≡ ok u → m ≡ ok tt
ok_unit m h = h

module _ (v : Apply.Env) (c : Tables.ApplyPaymentCommand) (db : Tables.PaymentDb) where
  replay_existing-Replayed :
      (p : Tables.Payment) (r : Tables.ApplyPaymentResult) (db' : Tables.PaymentDb)
      → (find_where (Queries.payment_at c.provider c.external_reference) v.seen.payments ≡ some p)
        ⊎ (find_where (Queries.payment_at c.provider c.external_reference) db.payments ≡ some p)
      → Apply.replay_existing v.faults c p db ≡ ok (r, db')
      → Replayed v c db r db'
  unfolding Apply.replay_existing Apply.replay_prior_result
  replay_existing-Replayed p r db' found h =
      let (_, same, h1) = >>=-eq-ok (verify_payment_consistency p c) _ h in
      let (r0, replayed, h2) = >>=-eq-ok (Apply.replay_prior_result v.faults p db) _ h1 in
      let (credit, q1, k1) =
        >>=-eq-ok (Queries.find_credit_by_payment (v.faults 14) p.payment_id db) _ replayed in
      let (balance, q2, k2) =
        >>=-eq-ok (Queries.find_balance_by_assignment (v.faults 15) credit.assignment_id db) _ k1 in
      let (command, q3, k3) =
        >>=-eq-ok (Queries.find_meter_command_by_payment (v.faults 16) p.payment_id db) _ k2 in
      let r1 : Tables.ApplyPaymentResult = record {
        payment = p;
        credit = credit;
        balance = balance;
        meter_command = command;
      } in
      let made : Replayed v c db r1 db = record {
        found = found;
        consistent = ok_unit (verify_payment_consistency p c) same;
        credit = Steps.find_credit_by_payment-find_where (v.faults 14) p.payment_id db q1;
        balance =
            Steps.find_balance_by_assignment-find_where (v.faults 15) credit.assignment_id db q2;
        command = Steps.find_meter_command_by_payment-find_where (v.faults 16) p.payment_id db q3;
        tables = refl;
      } in
      subst (λ (x : Tables.ApplyPaymentResult × Tables.PaymentDb). Replayed v c db x.0 x.1)
        (ap (λ x. (x, db)) (ok-injective k3) ∙ ok-injective h2) made

  winner-Replayed :
      (r : Tables.ApplyPaymentResult) (db' : Tables.PaymentDb) (winner : Option Tables.Payment)
      → find_where (Queries.payment_at c.provider c.external_reference) db.payments ≡ winner
      → elim winner [ none ↦ err database | some p ↦ Apply.replay_existing v.faults c p db ]
        ≡ ok (r, db')
      → Replayed v c db r db'
  winner-Replayed r db' none found h = absurd (ground arith)
  winner-Replayed r db' (some p) found h = replay_existing-Replayed p r db' (inr found) h

  apply_inserted-Applied :
      (there : Bool) (inserted : Option Tables.Payment × Tables.PaymentDb)
      (r : Tables.ApplyPaymentResult) (db' : Tables.PaymentDb)
      → exists_where (Queries.payment_at c.provider c.external_reference) db.payments ≡ there
      → Writes.place_payment v.now c db there ≡ ok inserted
      → Apply.apply_inserted v c inserted.0 inserted.1 ≡ ok (r, db')
      → Replayed v c db r db' ⊎ Granted v c db r db'
  unfolding Apply.apply_inserted Apply.replay_winner
  apply_inserted-Applied false inserted r db' unpaid placed h =
      let placed' = Steps.place_payment-add_payment v.now c db false placed in
      inr (apply_new-Granted v c db r db' unpaid (rw placed' at h))
  apply_inserted-Applied true inserted r db' paid_before placed h =
      let placed' = Steps.place_payment-add_payment v.now c db true placed in
      let h' : Apply.replay_winner v.faults c db ≡ ok (r, db') = rw placed' at h in
      let (winner, q, h1) =
        >>=-eq-ok (Queries.find_existing_payment (v.faults 3) c.provider c.external_reference db) _
          h' in
      inl (
        winner-Replayed r db' winner
          (Steps.find_existing_payment-find_where (v.faults 3) c.provider c.external_reference db q)
          h1)

  apply_found-Applied :
      (existing : Option Tables.Payment) (r : Tables.ApplyPaymentResult) (db' : Tables.PaymentDb)
      → find_where (Queries.payment_at c.provider c.external_reference) v.seen.payments ≡ existing
      → Apply.apply_found v c existing db ≡ ok (r, db')
      → Replayed v c db r db' ⊎ Granted v c db r db'
  unfolding Apply.apply_found
  apply_found-Applied none r db' found h =
      let (inserted, q, h1) = >>=-eq-ok (Writes.insert_payment (v.faults 2) v.now c db) _ h in
      apply_inserted-Applied _ inserted r db' refl
        (Steps.insert_payment-place_payment (v.faults 2) v.now c db q) h1
  apply_found-Applied (some p) r db' found h = inl (replay_existing-Replayed p r db' (inl found) h)

  -- A call that succeeds has done one of two things. Either the reference was paid before, by a payment
  -- that says the same, and the tables are as they were: the answer tells that payment, its credit, the
  -- present balance and its command. Or the reference was free, and the payment, its credit, the raised
  -- balance, their events and the audit row are new, with a command to reconnect the meter exactly if
  -- its relay is open and the balance leaves zero.
  pub apply_payment-Applied :
      (r : Tables.ApplyPaymentResult)
      → (Apply.apply_payment v c db).1 ≡ ok r
      → Replayed v c db r (Apply.apply_payment v c db).0
        ⊎ Granted v c db r (Apply.apply_payment v c db).0
  unfolding Apply.apply_payment
  apply_payment-Applied r h =
      let committed = in_tx-eq-ok db _ h in
      let (_, _, h1) = >>=-eq-ok (statement (v.faults 0)) _ committed in
      let (existing, q, h2) =
        >>=-eq-ok
          (Queries.find_existing_payment (v.faults 1) c.provider c.external_reference v.seen) _
          h1 in
      let (done, body, h3) = >>=-eq-ok (Apply.apply_found v c existing db) _ h2 in
      let (_, _, h4) = >>=-eq-ok (statement (v.faults 17)) _ h3 in
      apply_found-Applied existing r _
        (Steps.find_existing_payment-find_where (v.faults 1) c.provider c.external_reference v.seen
          q)
        (body ∙ h4)

  -- A call that fails changes nothing.
  pub apply_payment-refused :
      (e : ApiError) → (Apply.apply_payment v c db).1 ≡ err e → (Apply.apply_payment v c db).0 ≡ db
  unfolding Apply.apply_payment
  apply_payment-refused e h = in_tx_atomic db _ h
