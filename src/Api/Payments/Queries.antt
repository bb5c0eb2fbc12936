-- ===== src/Api/Payments/Queries.antt =====
-- repository/postgres/payments.go: the SELECT statements of a payment transaction.
use ambagrid.Common.{
  ℕ, Bool, true, false, ◌&&◌, Option, none, some, List, [], ◌∷◌, Text, codes, ltb, leb, ◌==◌,
  if◌then◌else◌, text_eq, Result, ok, err, ◌>>◌, refuse_if, exists_where, find_where, select_where,
}
use ambagrid.Api.Database.{ApiError, not_found, invalid_data, database, statement}
use ambagrid.Api.Payments.Tables

-- ORDER BY a time DESC LIMIT 1: of two rows with one time, the first.
abbrev later {ℓ} : {A : Type ℓ} → (A → ℕ) → A → Option A → Option A
later time x none = some x
later time x (some y) = if ltb (time x) (time y) then some y else some x

unfoldable pub latest_by {ℓ} : {A : Type ℓ} → (A → ℕ) → List A → Option A
latest_by time [] = none
latest_by time (x ∷ xs) = later time x (latest_by time xs)

abbrev pub payment_at : Text → Text → Tables.Payment → Bool
payment_at provider reference p =
    text_eq p.provider provider && text_eq p.external_reference reference

unfoldable pub find_existing_payment :
    Bool → Text → Text → Tables.PaymentDb → Result ApiError (Option Tables.Payment)
find_existing_payment fails provider reference db = do
  statement fails
  ok (find_where (payment_at provider reference) db.payments)

abbrev pub is_id : ℕ → Option ℕ → Bool
is_id n none = false
is_id n (some m) = m == n

abbrev pub credit_for : ℕ → Tables.EnergyCredit → Bool
credit_for payment c = is_id payment c.payment_id

-- A row that is not there is an error of the replay.
unfoldable pub find_credit_by_payment :
    Bool → ℕ → Tables.PaymentDb → Result ApiError Tables.EnergyCredit
find_credit_by_payment fails payment db = do
  statement fails
  elim (find_where (credit_for payment) db.credits) [ none ↦ err database | some c ↦ ok c ]

abbrev pub balance_of : ℕ → Tables.CreditBalance → Bool
balance_of assignment b = b.assignment_id == assignment

unfoldable pub find_balance_by_assignment :
    Bool → ℕ → Tables.PaymentDb → Result ApiError Tables.CreditBalance
find_balance_by_assignment fails assignment db = do
  statement fails
  elim (find_where (balance_of assignment) db.balances) [ none ↦ err database | some b ↦ ok b ]

-- The join of a command with the audit events of a payment.
abbrev pub names_command : ℕ → ℕ → Tables.AuditEvent → Bool
names_command payment command a =
    (text_eq a.subject_type (codes "payment") && a.subject_id == payment)
    && is_id command a.metadata.meter_command_id

abbrev pub command_for : ℕ → List Tables.AuditEvent → Tables.MeterCommand → Bool
command_for payment audit c = exists_where (names_command payment c.command_id) audit

unfoldable pub find_meter_command_by_payment :
    Bool → ℕ → Tables.PaymentDb → Result ApiError (Option Tables.MeterCommand)
find_meter_command_by_payment fails payment db = do
  statement fails
  ok (find_where (command_for payment db.audit) db.commands)

abbrev is_none {ℓ} : {A : Type ℓ} → Option A → Bool
is_none none = true
is_none (some a) = false

abbrev relay_or_closed : Option Bool → Bool
relay_or_closed none = true
relay_or_closed (some closed) = closed

abbrev assignment_read : Tables.AssignmentRow → Tables.MeterAssignment
assignment_read a = record {
  assignment_id = a.assignment_id;
  site_id = a.site_id;
  meter_id = a.meter_id;
  relay_closed = relay_or_closed a.relay_closed;
}

abbrev assigned_to : Text → Tables.AssignmentRow → Bool
assigned_to customer a = text_eq a.customer_id customer && is_none a.ended_at

unfoldable pub find_active_assignment :
    Bool → Text → Tables.PaymentDb → Result ApiError Tables.MeterAssignment
unfolding latest_by
find_active_assignment fails customer db = do
  statement fails
  elim (latest_by (λ (a : Tables.AssignmentRow). a.started_at)
      (select_where (assigned_to customer) db.assignments)) [
        | none ↦ err not_found
        | some a ↦ ok (assignment_read a)
      ]

abbrev ends_after : ℕ → Option ℕ → Bool
ends_after at none = true
ends_after at (some end) = ltb at end

abbrev pub in_force : Text → ℕ → Tables.TariffPlan → Bool
in_force site at t =
    text_eq t.site_id site && (leb t.effective_from at && ends_after at t.effective_to)

unfoldable pub find_active_tariff :
    Bool → Text → ℕ → Tables.PaymentDb → Result ApiError Tables.TariffPlan
unfolding latest_by
find_active_tariff fails site at db = do
  statement fails
  elim (latest_by (λ (t : Tables.TariffPlan). t.effective_from)
      (select_where (in_force site at) db.tariffs)) [
        | none ↦ err not_found
        | some t ↦ do
          refuse_if (t.price_per_kwh == 0) invalid_data
          refuse_if (t.minor_units_per_major == 0) invalid_data
          ok t
      ]

abbrev pub kwh_of : Option Tables.CreditBalance → ℕ
kwh_of none = 0
kwh_of (some b) = b.remaining_kwh

unfoldable pub get_prior_balance : Bool → ℕ → Tables.PaymentDb → Result ApiError ℕ
get_prior_balance fails assignment db = do
  statement fails
  ok (kwh_of (find_where (balance_of assignment) db.balances))
