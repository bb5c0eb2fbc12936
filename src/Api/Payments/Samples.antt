-- ===== src/Api/Payments/Samples.antt =====
-- A site with one customer, whose meter is cut off, and a payment of 500.00 at 2.50 for a kWh.
use ambagrid.Common.{ℕ, ◌*◌, ◌/◌, ◌^◌, false, none, some, [], ◌∷◌, Text, codes, pos}
use ambagrid.Api.Database.{no_faults}
use ambagrid.Api.Payments.Tables
use ambagrid.Api.Payments.Checks.{PaystackEnvelope}
use ambagrid.Api.Payments.Apply.{Env}
use ambagrid.Api.Payments.Webhook.{PaymentWebhook}

abbrev pub paid_at : ℕ
paid_at = 63_900_000_000 * 10 ^ 9

abbrev pub paying_customer : Text
paying_customer = codes "C1"

abbrev pub sample_books : Tables.PaymentDb
sample_books = record {
  customers = paying_customer ∷ [];
  assignments =
      record {
        assignment_id = 4;
        site_id = codes "s1";
        meter_id = codes "M1";
        customer_id = paying_customer;
        started_at = 1;
        ended_at = none;
        relay_closed = some false;
      }
      ∷ [];
  tariffs =
      record {
        tariff_plan_id = codes "T1";
        site_id = codes "s1";
        price_per_kwh = 2_500_000;
        currency = codes "KES";
        minor_units_per_major = 100;
        effective_from = 1;
        effective_to = none;
      }
      ∷ [];
  payments = [];
  next_payment = 0;
  credits = [];
  next_credit = 0;
  balances = [];
  commands = [];
  next_command = 0;
  outbox = [];
  audit = [];
}

-- Arithmetic in millionths stands for float64.
abbrev pub exact_floats : Tables.FloatOps
exact_floats = record {
  of_integer = λ n. n;
  of_millionths = λ n. n;
  to_millionths = λ n. n;
  multiply = λ m n. m * n;
  divide = λ m n. m * 10 ^ 12 / n;
}

abbrev pub sample_topics : Tables.OutboxTopics
sample_topics = record {
  payment_confirmed = codes "payments";
  credit_issued = codes "credits";
  meter_command_requested = codes "commands";
}

-- The transaction of the first delivery, and that of a second which saw nothing of it at first.
abbrev pub payment_env : Env
payment_env = record {
  topics = sample_topics;
  floats = exact_floats;
  now = paid_at;
  faults = no_faults;
  seen = sample_books;
}

abbrev pub sample_command : Tables.ApplyPaymentCommand
sample_command = record {
  provider = codes "paystack";
  external_reference = codes "R1";
  customer_id = paying_customer;
  amount_minor_units = 50_000;
  currency = codes "KES";
  status = codes "confirmed";
  confirmed_at = paid_at;
}

abbrev pub sample_payment : Tables.Payment
sample_payment = record {
  payment_id = 0;
  provider = codes "paystack";
  external_reference = codes "R1";
  customer_id = paying_customer;
  amount_minor_units = 50_000;
  currency = codes "KES";
  status = codes "confirmed";
  confirmed_at = some paid_at;
  created_at = paid_at;
}

abbrev pub sample_result : Tables.ApplyPaymentResult
sample_result = record {
  payment = sample_payment;
  credit = record {
    credit_id = 0;
    site_id = codes "s1";
    assignment_id = 4;
    payment_id = some 0;
    tariff_plan_id = some (codes "T1");
    source_type = codes "payment";
    source_id = 0;
    kwh_granted = 200_000_000;
    money_value_minor_units = some 50_000;
    created_at = paid_at;
  };
  balance = record {
    assignment_id = 4;
    remaining_kwh = 200_000_000;
    remaining_money_value_minor_units = 50_000;
    updated_at = paid_at;
  };
  meter_command = some (record {
    command_id = 0;
    meter_id = codes "M1";
    command_type = codes "reconnect_meter";
    status = codes "requested";
    requested_by = codes "provider:paystack";
    reason = codes "balance recharged from zero";
    requested_at = paid_at;
    sent_at = none;
    acknowledged_at = none;
    failure_reason = none;
  });
}

-- A charge as Paystack reports it, and a webhook whose MAC is the body's first byte.
abbrev pub sample_charge : PaystackEnvelope
sample_charge = record {
  event = codes "charge.success";
  payment = record {
    reference = codes "R1";
    amount = pos 50_000;
    currency = codes "KES";
    status = codes "success";
    paid_at = paid_at;
    customer_id = paying_customer;
  };
}

abbrev first_byte : Text → Text
first_byte [] = []
first_byte (b ∷ t) = b ∷ []

abbrev pub sample_hook : PaymentWebhook
sample_hook = record { mac = first_byte; decode = λ body. some sample_charge }
