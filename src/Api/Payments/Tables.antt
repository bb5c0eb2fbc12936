-- ===== src/Api/Payments/Tables.antt =====
-- domain/payment.go, and the PostgreSQL tables of payments, credits, balances and meter commands.
use ambagrid.Common.{ℕ, Bool, Option, List, Text, codes, Float}

-- An ID that the database draws is a number.
pub record Payment : Type 0 where
  pub payment_id : ℕ
  pub provider : Text
  pub external_reference : Text
  pub customer_id : Text
  pub amount_minor_units : ℕ
  pub currency : Text
  pub status : Text
  pub confirmed_at : Option ℕ
  pub created_at : ℕ

-- An amount of energy is a column numeric(18, 6): `kwh` counts its millionths. `source_id` is the
-- number of the payment, for a credit of a payment.
pub record EnergyCredit : Type 0 where
  pub credit_id : ℕ
  pub site_id : Text
  pub assignment_id : ℕ
  pub payment_id : Option ℕ
  pub tariff_plan_id : Option Text
  pub source_type : Text
  pub source_id : ℕ
  pub kwh_granted : ℕ
  pub money_value_minor_units : Option ℕ
  pub created_at : ℕ

pub record CreditBalance : Type 0 where
  pub assignment_id : ℕ
  pub remaining_kwh : ℕ
  pub remaining_money_value_minor_units : ℕ
  pub updated_at : ℕ

pub record MeterCommand : Type 0 where
  pub command_id : ℕ
  pub meter_id : Text
  pub command_type : Text
  pub status : Text
  pub requested_by : Text
  pub reason : Text
  pub requested_at : ℕ
  pub sent_at : Option ℕ
  pub acknowledged_at : Option ℕ
  pub failure_reason : Option Text

-- The keys of the metadata of `payment.applied`.
pub record AuditMetadata : Type 0 where
  pub payment_id : ℕ
  pub credit_id : ℕ
  pub assignment_id : ℕ
  pub kwh_granted : Float
  pub amount : ℕ
  pub currency : Text
  pub tariff_plan_id : Text
  pub remaining_kwh : ℕ
  pub meter_command_id : Option ℕ
  pub meter_command_type : Option Text

-- `subject_id` is the number of the payment, for the subject type `payment`.
pub record AuditEvent : Type 0 where
  pub site_id : Text
  pub actor_id : Text
  pub action : Text
  pub subject_type : Text
  pub subject_id : ℕ
  pub occurred_at : ℕ
  pub metadata : AuditMetadata

pub record TariffPlan : Type 0 where
  pub tariff_plan_id : Text
  pub site_id : Text
  pub price_per_kwh : ℕ
  pub currency : Text
  pub minor_units_per_major : ℕ
  pub effective_from : ℕ
  pub effective_to : Option ℕ

-- A row of meter_assignments, joined with the state of its meter: `relay_closed` is `none` without
-- telemetry.
pub record AssignmentRow : Type 0 where
  pub assignment_id : ℕ
  pub site_id : Text
  pub meter_id : Text
  pub customer_id : Text
  pub started_at : ℕ
  pub ended_at : Option ℕ
  pub relay_closed : Option Bool

pub record MeterAssignment : Type 0 where
  pub assignment_id : ℕ
  pub site_id : Text
  pub meter_id : Text
  pub relay_closed : Bool

pub data EventPayload : Type 0 where
  payment_confirmed : Payment → EventPayload
  credit_issued : EnergyCredit → EventPayload
  meter_command_requested : MeterCommand → Text → ℕ → EventPayload

-- A row of command_event_outbox: `aggregate_id` is the number of the payment, credit or command.
pub record OutboxEvent : Type 0 where
  pub topic : Text
  pub event_type : Text
  pub aggregate_type : Text
  pub aggregate_id : ℕ
  pub payload : EventPayload

pub record OutboxTopics : Type 0 where
  pub payment_confirmed : Text
  pub credit_issued : Text
  pub meter_command_requested : Text

-- `next_payment`, `next_credit` and `next_command` are IDs that no row has yet.
pub record PaymentDb : Type 0 where
  pub customers : List Text
  pub assignments : List AssignmentRow
  pub tariffs : List TariffPlan
  pub payments : List Payment
  pub next_payment : ℕ
  pub credits : List EnergyCredit
  pub next_credit : ℕ
  pub balances : List CreditBalance
  pub commands : List MeterCommand
  pub next_command : ℕ
  pub outbox : List OutboxEvent
  pub audit : List AuditEvent

pub record ApplyPaymentCommand : Type 0 where
  pub provider : Text
  pub external_reference : Text
  pub customer_id : Text
  pub amount_minor_units : ℕ
  pub currency : Text
  pub status : Text
  pub confirmed_at : ℕ

pub record ApplyPaymentResult : Type 0 where
  pub payment : Payment
  pub credit : EnergyCredit
  pub balance : CreditBalance
  pub meter_command : Option MeterCommand

abbrev pub status_confirmed : Text
status_confirmed = codes "confirmed"

-- float64 arithmetic, and the conversions between float64, integers and millionths in numeric(18, 6).
pub record FloatOps : Type 0 where
  pub of_integer : ℕ → Float
  pub of_millionths : ℕ → Float
  pub to_millionths : Float → ℕ
  pub multiply : Float → Float → Float
  pub divide : Float → Float → Float
