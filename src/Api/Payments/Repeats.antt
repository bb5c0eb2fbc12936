-- ===== src/Api/Payments/Repeats.antt =====
-- A payment that is told again: the provider repeats its webhook, or two deliveries race.
use ambagrid.Common.{
  ℕ, ◌≡◌, ◌⊎◌, refl, sym, ◌∙◌, ap, subst, inl, inr, Bool, true, false, Option, none, some, List, [],
  ◌∷◌, ◌++◌, arith, codes, ◌==◌, text_eq, text_eq_refl, ok, exists_where, find_where,
  find_where-new, find-exists, exists_where-narrow, exists_where-last, find_where-never, append-nil,
}
use ambagrid.Api.Database.{no_faults}
use ambagrid.Api.Payments.Tables
use ambagrid.Api.Payments.Checks.{verify_payment_consistency}
use ambagrid.Api.Payments.Queries
use ambagrid.Api.Payments.Writes
use ambagrid.Api.Payments.Apply
use ambagrid.Api.Payments.Balances.{put_balance-found}
use ambagrid.Api.Payments.Booked
use ambagrid.Api.Payments.Outcomes
use ambagrid.Api.Payments.Books

-- The result of a payment stands in the tables, as a later call reads it.
pub record Told (c : Tables.ApplyPaymentCommand) (r : Tables.ApplyPaymentResult)
    (db : Tables.PaymentDb) : Type 0 where
  pub payment :
      find_where (Queries.payment_at c.provider c.external_reference) db.payments ≡ some r.payment
  pub consistent : verify_payment_consistency r.payment c ≡ ok tt
  pub credit : find_where (Queries.credit_for r.payment.payment_id) db.credits ≡ some r.credit
  pub balance : find_where (Queries.balance_of r.credit.assignment_id) db.balances ≡ some r.balance
  pub command :
      find_where (Queries.command_for r.payment.payment_id db.audit) db.commands ≡ r.meter_command

-- What a call saw first is an earlier state: the payment was not there, or it was this one.
abbrev pub Earlier : Tables.ApplyPaymentCommand → Tables.PaymentDb → Tables.PaymentDb → Type 0
Earlier c seen db =
    (find_where (Queries.payment_at c.provider c.external_reference) seen.payments ≡ none)
    ⊎ (find_where (Queries.payment_at c.provider c.external_reference) seen.payments
        ≡ find_where (Queries.payment_at c.provider c.external_reference) db.payments)

-- A call whose statements all succeed.
abbrev pub calm : Apply.Env → Apply.Env
calm v = record v { faults = no_faults }

module _ (w : Apply.Env) (c : Tables.ApplyPaymentCommand) (r : Tables.ApplyPaymentResult)
    (db : Tables.PaymentDb) where
  Told-replayed : Told c r db → Apply.replay_existing no_faults c r.payment db ≡ ok (r, db)
  unfolding Apply.replay_existing Apply.replay_prior_result Queries.find_credit_by_payment
      Queries.find_balance_by_assignment Queries.find_meter_command_by_payment
  Told-replayed t = rw (t.consistent, t.credit, t.balance, t.command) refl

  apply_payment-Told :
      Told c r db
      → Earlier c w.seen db
      → Writes.payment_illegal c ≡ false
      → Apply.apply_payment (calm w) c db ≡ (db, ok r)
  unfolding Apply.apply_payment Apply.apply_found Apply.apply_inserted Apply.replay_winner
      Queries.find_existing_payment Writes.insert_payment Writes.place_payment
  apply_payment-Told t (inl unseen) legal =
      let there =
        find-exists (Queries.payment_at c.provider c.external_reference) db.payments r.payment
          t.payment in
      rw (unseen, legal, there, t.payment, Told-replayed t) refl
  apply_payment-Told t (inr same) legal = rw (same, t.payment, Told-replayed t) refl

-- Behind the audit rows of earlier payments, the row of this one names its command.
command_for-named :
    (payment : ℕ) (audit : List Tables.AuditEvent) (a : Tables.AuditEvent) (m : Tables.MeterCommand)
    → exists_where (Books.audit_from payment) audit ≡ false
    → text_eq a.subject_type (codes "payment") ≡ true
    → a.subject_id ≡ payment
    → Queries.command_for payment (audit ++ a ∷ []) m
      ≡ Queries.is_id m.command_id a.metadata.meter_command_id
command_for-named payment audit a m h kind e =
    let fresh =
      exists_where-narrow (Queries.names_command payment m.command_id) (Books.audit_from payment)
        audit (λ x q. ground arith) h in
    rw (exists_where-last (Queries.names_command payment m.command_id) audit a fresh, kind, e)
      (ground arith)

command_for-issued :
    (payment next : ℕ) (audit : List Tables.AuditEvent) (a : Tables.AuditEvent)
    (rows : List Tables.MeterCommand) (command : Option Tables.MeterCommand)
    → ((m : Tables.MeterCommand)
        → Queries.command_for payment (audit ++ a ∷ []) m
          ≡ Queries.is_id m.command_id (Apply.id_of command))
    → (command ≡ none) ⊎ ((m : Tables.MeterCommand) × (command ≡ some m) × (m.command_id ≡ next))
    → exists_where (Books.command_from next) rows ≡ false
    → find_where (Queries.command_for payment (audit ++ a ∷ [])) (rows ++ Booked.issued command)
      ≡ command
command_for-issued payment next audit a rows command named (inl nothing) h =
    rw (nothing, append-nil rows)
      (find_where-never (Queries.command_for payment (audit ++ a ∷ [])) rows
        (λ m. named m ∙ ap (λ x. Queries.is_id m.command_id (Apply.id_of x)) nothing))
command_for-issued payment next audit a rows command named (inr (m, given, e)) h = rw given (
    find_where-new (Queries.command_for payment (audit ++ a ∷ [])) rows m
      (exists_where-narrow (Queries.command_for payment (audit ++ a ∷ [])) (Books.command_from next)
        rows older h)
      (decided m (ground arith)))
  where
    decided :
        (x : Tables.MeterCommand) {b : Bool}
        → (m.command_id == x.command_id) ≡ b
        → Queries.command_for payment (audit ++ a ∷ []) x ≡ b
    decided x q = named x ∙ (ap (λ y. Queries.is_id x.command_id (Apply.id_of y)) given ∙ q)

    older :
        (x : Tables.MeterCommand)
        → Books.command_from next x ≡ false
        → Queries.command_for payment (audit ++ a ∷ []) x ≡ false
    older x q = decided x (ground arith)

module _ (v : Apply.Env) (c : Tables.ApplyPaymentCommand) (db : Tables.PaymentDb) where
  read_before :
      {p : Tables.Payment}
      → (find_where (Queries.payment_at c.provider c.external_reference) v.seen.payments ≡ some p)
        ⊎ (find_where (Queries.payment_at c.provider c.external_reference) db.payments ≡ some p)
      → Earlier c v.seen db
      → find_where (Queries.payment_at c.provider c.external_reference) db.payments ≡ some p
  read_before (inr found) earlier = found
  read_before (inl found) (inl unseen) = absurd (ground arith)
  read_before (inl found) (inr same) = sym same ∙ found

  new_payment-consistent : verify_payment_consistency (Writes.new_payment v.now c db) c ≡ ok tt
  unfolding verify_payment_consistency Writes.new_payment
  new_payment-consistent =
      rw (text_eq_refl c.customer_id, text_eq_refl c.currency, text_eq_refl c.status) (ground arith)

  new_payment-found :
      exists_where (Queries.payment_at c.provider c.external_reference) db.payments ≡ false
      → find_where
          (Queries.payment_at c.provider c.external_reference)
          (db.payments ++ Writes.new_payment v.now c db ∷ [])
        ≡ some (Writes.new_payment v.now c db)
  unfolding Writes.new_payment
  new_payment-found free =
      find_where-new (Queries.payment_at c.provider c.external_reference) db.payments _ free
        (rw (text_eq_refl c.provider, text_eq_refl c.external_reference) refl)

  Replayed-Told :
      (r : Tables.ApplyPaymentResult) (db' : Tables.PaymentDb)
      → Earlier c v.seen db
      → Booked.Replayed v c db r db'
      → Told c r db'
  Replayed-Told r db' earlier g = subst (Told c r) (sym g.tables) (record {
    payment = read_before g.found earlier;
    consistent = g.consistent;
    credit = g.credit;
    balance = g.balance;
    command = g.command;
  })

  Granted-Told :
      (r : Tables.ApplyPaymentResult) (db' : Tables.PaymentDb)
      → Booked.Granted v c db r db'
      → Books.Ledger db
      → Told c r db'
  unfolding Writes.new_payment Writes.new_credit Apply.applied_audit
  Granted-Told r db' g b =
      let number : r.payment.payment_id ≡ db.next_payment = ap (λ p. p.payment_id) g.payment in
      let credited : r.credit.payment_id ≡ some db.next_payment = ap (λ p. p.payment_id) g.credit in
      let assigned : r.credit.assignment_id ≡ g.assignment.assignment_id =
        ap (λ p. p.assignment_id) g.credit in
      let audit =
        Apply.applied_audit v.now c g.assignment g.tariff.tariff_plan_id
          (Apply.kwh_granted v.floats g.tariff c.amount_minor_units) r in
      subst (Told c r) (sym g.tables) (record {
        payment = rw g.payment (new_payment-found g.unpaid);
        consistent = rw g.payment new_payment-consistent;
        credit = rw number (
            find_where-new (Queries.credit_for db.next_payment) db.credits r.credit
              (Books.credit_ids-credit_for db.next_payment db.credits b.credit_ids)
              (rw credited (ground arith)));
        balance =
            rw (assigned, g.balance)
              (put_balance-found v.now (Booked.granted_millionths v c g.tariff) c.amount_minor_units
                g.assignment.assignment_id db.balances);
        command =
            command_for-issued r.payment.payment_id db.next_command db.audit audit db.commands
              r.meter_command
              (λ m.
                command_for-named r.payment.payment_id db.audit audit m (rw number b.audit_ids)
                  (text_eq_refl (codes "payment")) refl)
              (Books.reconnected-numbered v c db g.assignment _ r.meter_command g.command)
              b.command_ids;
      })

  -- A payment that was applied, told again: the second call answers with the very result of the first
  -- and changes nothing, whether it sees the payment at once or loses the race for its reference. The
  -- command is legal for the table, the books were kept, what the calls saw first were earlier states,
  -- and no statement of the second call fails.
  pub apply_payment-repeats :
      (w : Apply.Env) (r : Tables.ApplyPaymentResult)
      → Books.Ledger db
      → Earlier c v.seen db
      → Writes.payment_illegal c ≡ false
      → (Apply.apply_payment v c db).1 ≡ ok r
      → let db' = (Apply.apply_payment v c db).0 in
        Earlier c w.seen db' → Apply.apply_payment (calm w) c db' ≡ (db', ok r)
  apply_payment-repeats w r b earlier legal h later =
      let db' = (Apply.apply_payment v c db).0 in
      let told : Told c r db' = elim (Outcomes.apply_payment-Applied v c db r h) [
        | inl again ↦ Replayed-Told r db' earlier again
        | inr new ↦ Granted-Told r db' new b
      ] in
      apply_payment-Told w c r db' told later legal
