-- ===== src/Api/Sms/Values.antt =====
-- What sms.go reads from the values that the edge agent writes: numbers, times, identifiers.
use ambagrid.Common.{
  ℕ, ◌-◌, ◌*◌, ◌/◌, ◌%◌, ◌≤◌, ◌<◌, ◌≡◌, ◌≢◌, refl, true, false, [], ◌∷◌, arith, Text, codes, ltb,
  ◌==◌, is_empty, ok, second, minute, hour, contains_byte, decimal, decimal-ne-nil, decimal-IsDigit,
  parse_uint-decimal, parse_int-decimal, max_uint64, max_int64,
}
use ambagrid.Edge.Fallback.Message
use ambagrid.Edge.Fallback.Message.{FallbackEvent, unix_epoch, unix_text, gsm_septets}
use ambagrid.Api.Sms.Parse.{
  read_sequence, read_timestamp, read_interval, valid_sms_token, valid_sms_bytes,
}
use ambagrid.Api.Sms.Render.{Printable, invalid_token-free, digits-free}

pub given : (s : Text) → s ≢ [] → is_empty s ≡ false
unfolding is_empty
given [] h = absurd (h refl)
given (c ∷ s) h = refl

pub decimal-given : (n : ℕ) → is_empty (decimal n) ≡ false
decimal-given n = given (decimal n) (decimal-ne-nil n)

-- The time of an SMS, from its first positive second on.
abbrev pub Sendable : ℕ → Type 0
Sendable t = (unix_epoch < t / second) × (t / second - unix_epoch ≤ max_int64)

pub unix_text-decimal : (t : ℕ) → Sendable t → unix_text t ≡ decimal (t / second - unix_epoch)
unfolding unix_text
unix_text-decimal t h = ground (arith, h.0)

pub read_sequence-decimal :
    (n : ℕ) → (n == 0) ≡ false → n ≤ max_uint64 → read_sequence (decimal n) ≡ ok n
unfolding read_sequence
read_sequence-decimal n h fits = ground (arith, parse_uint-decimal n fits)

pub read_timestamp-decimal :
    (t : ℕ)
    → Sendable t
    → read_timestamp (decimal (t / second - unix_epoch)) ≡ ok (t / second * second)
unfolding read_timestamp
read_timestamp-decimal t h = ground (arith, parse_int-decimal (t / second - unix_epoch) h.1)

pub read_interval-decimal :
    (d : ℕ)
    → ltb d minute ≡ false
    → ltb (24 * hour) d ≡ false
    → (d % second == 0) ≡ true
    → read_interval (decimal (d / second)) ≡ ok d
unfolding read_interval
read_interval-decimal d lo hi whole = ground (arith, parse_int-decimal (d / second) (ground arith))

all_token_bytes-valid : (s : Text) → Message.all_token_bytes s ≡ true → valid_sms_bytes s ≡ true
unfolding Message.all_token_bytes valid_sms_bytes Message.token_byte
all_token_bytes-valid [] h = refl
all_token_bytes-valid (c ∷ s) h = ground (arith, all_token_bytes-valid s)

pub invalid_token-valid : (s : Text) → Message.invalid_token s ≡ false → valid_sms_token s ≡ true
unfolding Message.invalid_token valid_sms_token
invalid_token-valid s h = ground (arith, all_token_bytes-valid s)

pub invalid_token-given : (s : Text) → Message.invalid_token s ≡ false → is_empty s ≡ false
unfolding Message.invalid_token
invalid_token-given s h = ground arith

pub token-Printable :
    (k s : Text)
    → is_empty k ≡ false
    → contains_byte b'=' k ≡ false
    → contains_byte b'|' k ≡ false
    → Message.invalid_token s ≡ false
    → Printable (k, s)
token-Printable k s given plain free h = record {
  key_given = given;
  value_given = invalid_token-given s h;
  key_plain = plain;
  key_free = free;
  value_free = invalid_token-free s h;
}

pub number-Printable :
    (k : Text) (n : ℕ)
    → is_empty k ≡ false
    → contains_byte b'=' k ≡ false
    → contains_byte b'|' k ≡ false
    → Printable (k, decimal n)
number-Printable k n given plain free = record {
  key_given = given;
  value_given = decimal-given n;
  key_plain = plain;
  key_free = free;
  value_free = digits-free (decimal n) (decimal-IsDigit n);
}

abbrev pub version_field : Text × Text
version_field = (codes "v", codes "1")

pub version_field-Printable : Printable version_field
unfolding contains_byte is_empty
version_field-Printable = record {
  key_given = refl;
  value_given = refl;
  key_plain = refl;
  key_free = refl;
  value_free = refl;
}
