-- ===== src/Api/Payments/Books.antt =====
-- The books of the payments: every reference is paid once, and every payment credited once.
use ambagrid.Common.{
  ℕ, ◌+◌, ◌≤◌, ◌≡◌, ◌⊎◌, inl, inr, refl, sym, ap, subst, Bool, true, false, ◌&&◌, Option, none,
  some, List, [], ◌∷◌, ◌++◌, arith, Text, codes, ◌==◌, leb, if◌then◌else◌, text_eq, text_eq_iff,
  Result, ok, err, exists_where, count_where, exists_where-append, exists_where-narrow,
  count_where-append, count_where-none, Option-cases, append-nil,
}
use ambagrid.Api.Database.{ApiError}
use ambagrid.Api.Payments.Tables
use ambagrid.Api.Payments.Queries
use ambagrid.Api.Payments.Writes
use ambagrid.Api.Payments.Apply
use ambagrid.Api.Payments.Balances.{put_balance-once}
use ambagrid.Api.Payments.Booked.{Granted, granted_millionths, reconnected, issued, after_command}
use ambagrid.Api.Payments.Outcomes.{apply_payment-Applied, apply_payment-refused}

abbrev pub payment_from : ℕ → Tables.Payment → Bool
payment_from n p = leb n p.payment_id

abbrev pub credit_from : ℕ → Tables.EnergyCredit → Bool
credit_from n c = elim c.payment_id [ none ↦ false | some id ↦ leb n id ]

abbrev pub audit_from : ℕ → Tables.AuditEvent → Bool
audit_from n a = text_eq a.subject_type (codes "payment") && leb n a.subject_id

abbrev pub command_from : ℕ → Tables.MeterCommand → Bool
command_from n c = leb n c.command_id

-- The next IDs are new: no row has or names one at or behind them. A reference is paid once, a payment
-- credited once, and an assignment has one balance.
pub record Ledger (db : Tables.PaymentDb) : Type 0 where
  pub payment_ids : exists_where (payment_from db.next_payment) db.payments ≡ false
  pub credit_ids : exists_where (credit_from db.next_payment) db.credits ≡ false
  pub audit_ids : exists_where (audit_from db.next_payment) db.audit ≡ false
  pub command_ids : exists_where (command_from db.next_command) db.commands ≡ false
  pub once_paid :
      (provider reference : Text)
      → count_where (Queries.payment_at provider reference) db.payments ≤ 1
  pub once_credited : (id : ℕ) → count_where (Queries.credit_for id) db.credits ≤ 1
  pub one_balance : (assignment : ℕ) → count_where (Queries.balance_of assignment) db.balances ≤ 1

pub credit_ids-credit_for :
    (n : ℕ) (rows : List Tables.EnergyCredit)
    → exists_where (credit_from n) rows ≡ false
    → exists_where (Queries.credit_for n) rows ≡ false
credit_ids-credit_for n rows h =
    exists_where-narrow (Queries.credit_for n) (credit_from n) rows narrow h
  where
    narrow : (c : Tables.EnergyCredit) → credit_from n c ≡ false → Queries.credit_for n c ≡ false
    narrow c e = elim (Option-cases c.payment_id) [
      | inl missing ↦ rw missing refl
      | inr (id, given) ↦ rw given (ground (arith, rw given at e))
    ]

payment_from-next :
    (n : ℕ) (rows : List Tables.Payment) (p : Tables.Payment)
    → p.payment_id ≡ n
    → exists_where (payment_from n) rows ≡ false
    → exists_where (payment_from (n + 1)) (rows ++ p ∷ []) ≡ false
payment_from-next n rows p e h =
    exists_where-append (payment_from (n + 1)) rows p
      (exists_where-narrow (payment_from (n + 1)) (payment_from n) rows (λ x q. ground arith) h)
      (ground arith)

audit_from-next :
    (n : ℕ) (rows : List Tables.AuditEvent) (a : Tables.AuditEvent)
    → a.subject_id ≡ n
    → exists_where (audit_from n) rows ≡ false
    → exists_where (audit_from (n + 1)) (rows ++ a ∷ []) ≡ false
audit_from-next n rows a e h =
    exists_where-append (audit_from (n + 1)) rows a
      (exists_where-narrow (audit_from (n + 1)) (audit_from n) rows (λ x q. ground arith) h)
      (ground arith)

command_from-next :
    (n : ℕ) (rows : List Tables.MeterCommand) (command : Option Tables.MeterCommand)
    → (command ≡ none) ⊎ ((c : Tables.MeterCommand) × (command ≡ some c) × (c.command_id ≡ n))
    → exists_where (command_from n) rows ≡ false
    → exists_where (command_from (after_command n command)) (rows ++ issued command) ≡ false
command_from-next n rows command (inl nothing) h = rw (nothing, append-nil rows) h
command_from-next n rows command (inr (c, given, e)) h = rw given (
    exists_where-append (command_from (n + 1)) rows c
      (exists_where-narrow (command_from (n + 1)) (command_from n) rows (λ x q. ground arith) h)
      (ground arith))

credit_from-next :
    (n : ℕ) (rows : List Tables.EnergyCredit) (c : Tables.EnergyCredit)
    → c.payment_id ≡ some n
    → exists_where (credit_from n) rows ≡ false
    → exists_where (credit_from (n + 1)) (rows ++ c ∷ []) ≡ false
credit_from-next n rows c e h =
    exists_where-append (credit_from (n + 1)) rows c
      (exists_where-narrow (credit_from (n + 1)) (credit_from n) rows narrow h)
      (rw e (ground arith))
  where
    narrow : (x : Tables.EnergyCredit) → credit_from n x ≡ false → credit_from (n + 1) x ≡ false
    narrow x q = elim (Option-cases x.payment_id) [
      | inl missing ↦ rw missing refl
      | inr (id, given) ↦ let below = rw given at q in rw given (ground arith)
    ]

once_more :
    (n added : ℕ) (meant : Bool)
    → ((meant ≡ true) → n ≡ 0)
    → n ≤ 1
    → n + (if meant then 1 else 0) ≤ 1
once_more n added true none_before h = omega (arith, none_before refl)
once_more n added false none_before h = omega (arith, h)

once_paid-next :
    (provider reference : Text) (rows : List Tables.Payment) (p : Tables.Payment)
    → exists_where (Queries.payment_at p.provider p.external_reference) rows ≡ false
    → count_where (Queries.payment_at provider reference) rows ≤ 1
    → count_where (Queries.payment_at provider reference) (rows ++ p ∷ []) ≤ 1
once_paid-next provider reference rows p free h =
    rw (count_where-append (Queries.payment_at provider reference) rows p)
      (once_more _ 0 (Queries.payment_at provider reference p) absent h)
  where
    absent :
        Queries.payment_at provider reference p ≡ true
        → count_where (Queries.payment_at provider reference) rows ≡ 0
    absent e =
        let same_provider : p.provider ≡ provider =
          (text_eq_iff p.provider provider).0 (ground arith) in
        let same_reference : p.external_reference ≡ reference =
          (text_eq_iff p.external_reference reference).0 (ground arith) in
        count_where-none (Queries.payment_at provider reference) rows
          (rw (same_provider, same_reference) at free)

once_credited-next :
    (id : ℕ) (rows : List Tables.EnergyCredit) (c : Tables.EnergyCredit) (n : ℕ)
    → c.payment_id ≡ some n
    → exists_where (credit_from n) rows ≡ false
    → count_where (Queries.credit_for id) rows ≤ 1
    → count_where (Queries.credit_for id) (rows ++ c ∷ []) ≤ 1
once_credited-next id rows c n e fresh h =
    rw (count_where-append (Queries.credit_for id) rows c)
      (once_more _ 0 (Queries.credit_for id c) absent h)
  where
    absent : Queries.credit_for id c ≡ true → count_where (Queries.credit_for id) rows ≡ 0
    absent q =
        let same : n == id ≡ true = rw e at q in
        let i : n ≡ id = ground arith in
        count_where-none (Queries.credit_for id) rows (rw i at (credit_ids-credit_for n rows fresh))

module _ (v : Apply.Env) (c : Tables.ApplyPaymentCommand) (db : Tables.PaymentDb) where
  pub reconnected-numbered :
      (a : Tables.MeterAssignment) (needed : Bool) (command : Option Tables.MeterCommand)
      → command ≡ reconnected v c a db needed
      → (command ≡ none)
        ⊎ ((m : Tables.MeterCommand) × (command ≡ some m) × (m.command_id ≡ db.next_command))
  unfolding Apply.reconnect_command Writes.new_command
  reconnected-numbered a false command e = inl e
  reconnected-numbered a true command e = inr (Apply.reconnect_command v.now c a db, e, refl)

  Granted-Ledger :
      (r : Tables.ApplyPaymentResult) (db' : Tables.PaymentDb)
      → Granted v c db r db'
      → Ledger db
      → Ledger db'
  unfolding Writes.new_payment Writes.new_credit Apply.applied_audit
  Granted-Ledger r db' g b =
      let number : r.payment.payment_id ≡ db.next_payment = ap (λ p. p.payment_id) g.payment in
      let credited : r.credit.payment_id ≡ some db.next_payment = ap (λ p. p.payment_id) g.credit in
      subst Ledger (sym g.tables) (record {
        payment_ids = payment_from-next db.next_payment db.payments r.payment number b.payment_ids;
        credit_ids = credit_from-next db.next_payment db.credits r.credit credited b.credit_ids;
        audit_ids = audit_from-next db.next_payment db.audit _ number b.audit_ids;
        command_ids =
            command_from-next db.next_command db.commands r.meter_command
              (reconnected-numbered g.assignment _ r.meter_command g.command) b.command_ids;
        once_paid = λ provider reference.
            once_paid-next provider reference db.payments r.payment (rw g.payment g.unpaid)
              (b.once_paid provider reference);
        once_credited = λ id.
            once_credited-next id db.credits r.credit db.next_payment credited b.credit_ids
              (b.once_credited id);
        one_balance = λ o.
            put_balance-once v.now (granted_millionths v c g.tariff) c.amount_minor_units
              g.assignment.assignment_id o db.balances (b.one_balance o);
      })

  -- Every payment, whether it succeeds, is replayed or fails, keeps the books: the next IDs are new, a
  -- reference is paid once, a payment credited once, and an assignment has one balance.
  pub apply_payment-Ledger : Ledger db → Ledger (Apply.apply_payment v c db).0
  apply_payment-Ledger b = settled (Apply.apply_payment v c db).1 refl
    where
      settled :
          (r : Result ApiError Tables.ApplyPaymentResult)
          → (Apply.apply_payment v c db).1 ≡ r
          → Ledger (Apply.apply_payment v c db).0
      settled (err e) q = rw (apply_payment-refused v c db e q) b
      settled (ok r) q = elim (apply_payment-Applied v c db r q) [
        | inl again ↦ subst Ledger (sym again.tables) b
        | inr new ↦ Granted-Ledger r _ new b
      ]
