-- ===== src/Api/Sms/CriticalTrip.antt =====
-- The critical event that the edge agent formats (internal/fallback/message.go), read by sms.go.
use ambagrid.Common.{
  ℕ, ◌+◌, ◌-◌, ◌*◌, ◌/◌, ◌%◌, ◌≤◌, ◌≡◌, join_with, refl, sym, Bool, true, false, Option, none, some,
  [], ◌∷◌, ◌++◌, arith, Text, codes, Float, ltb, ◌==◌, text_eq, text_eq_iff, is_empty, All, ok,
  second, contains_byte, decimal, decimal-IsDigit, max_uint64, format_tenths, is_nan, is_inf,
}
use ambagrid.Edge.Fallback.Message
use ambagrid.Edge.Fallback.Message.{FallbackEvent, unix_epoch, unix_text, gsm_septets}
use ambagrid.Api.Sms.Fields.{Fields, value_of, split_sms_message}
use ambagrid.Api.Sms.Parse.{parse_critical_event}
use ambagrid.Api.Sms.Render.{
  Printable, Fresh, rendered, split_sms_message-rendered, digits-free, contains_byte-append,
}
use ambagrid.Api.Sms.Fields.{has_key}
use ambagrid.Api.Sms.Values.{
  Sendable, unix_text-decimal, read_sequence-decimal, read_timestamp-decimal, invalid_token-valid,
  token-Printable, number-Printable, version_field-Printable,
}
use ambagrid.Common.{tenths, inl, inr, ◌⊎◌, length}
use ambagrid.Api.Sms.Values.{decimal-given}
use ambagrid.Api.Sms.Parse.{critical_code_valid, read_temperature}

format_tenths-free : (x : Float) → contains_byte b'|' (format_tenths x) ≡ false
unfolding format_tenths contains_byte
format_tenths-free x =
    let whole = digits-free (decimal (tenths x / 10)) (decimal-IsDigit (tenths x / 10)) in
    let both =
      contains_byte-append b'|' (decimal (tenths x / 10)) (b'.' ∷ (b'0' + tenths x % 10) ∷ []) whole
        (ground arith) in
    ground (arith, both)

append-given : (s t : Text) → is_empty s ≡ false → is_empty (s ++ t) ≡ false
unfolding is_empty
append-given [] t h = absurd (ground arith)
append-given (c ∷ s) t h = refl

format_tenths-given : (x : Float) → is_empty (format_tenths x) ≡ false
unfolding format_tenths is_empty
format_tenths-given x = ground (
  arith,
  append-given (decimal (tenths x / 10)) (b'.' ∷ (b'0' + tenths x % 10) ∷ [])
      (decimal-given (tenths x / 10)),
)

abbrev OneOfFour : Text → Type 0
OneOfFour c =
    (c ≡ Message.battery_overheat)
    ⊎ ((c ≡ Message.inverter_failure) ⊎ ((c ≡ Message.tamper_detected) ⊎ (c ≡ Message.site_outage)))

code_valid_cases : (c : Text) → Message.code_valid c ≡ true → OneOfFour c
unfolding Message.code_valid
code_valid_cases c h = ground (
  arith,
  text_eq_iff c Message.battery_overheat,
  text_eq_iff c Message.inverter_failure,
  text_eq_iff c Message.tamper_detected,
  text_eq_iff c Message.site_outage,
)

code_valid-free : (c : Text) → OneOfFour c → contains_byte b'|' c ≡ false
unfolding contains_byte
code_valid-free c (inl e) = rw e refl
code_valid-free c (inr (inl e)) = rw e refl
code_valid-free c (inr (inr (inl e))) = rw e refl
code_valid-free c (inr (inr (inr e))) = rw e refl

code_valid-given : (c : Text) → OneOfFour c → is_empty c ≡ false
unfolding is_empty
code_valid-given c (inl e) = rw e refl
code_valid-given c (inr (inl e)) = rw e refl
code_valid-given c (inr (inr (inl e))) = rw e refl
code_valid-given c (inr (inr (inr e))) = rw e refl

tail_fields : Option Float → ℕ → Fields
tail_fields none ts = (codes "ts", decimal ts) ∷ []
tail_fields (some x) ts = (codes "temp", format_tenths x) ∷ (codes "ts", decimal ts) ∷ []

fields_of : FallbackEvent → Option Float → Fields
unfolding tail_fields
fields_of e temperature =
    (codes "v", codes "1")
    ∷ (codes "site", e.site_id)
    ∷ (codes "asset", e.asset_id)
    ∷ (codes "seq", decimal e.sequence)
    ∷ (codes "code", e.code)
    ∷ tail_fields temperature (e.occurred_at / second - unix_epoch)

pub critical_fields : FallbackEvent → Fields
unfolding fields_of
critical_fields e = fields_of e e.temperature_c

-- An event that the edge agent may send, as `format` checks it.
pub record Sent (e : FallbackEvent) : Type 0 where
  pub known_code : Message.code_valid e.code ≡ true
  pub site_valid : Message.invalid_token e.site_id ≡ false
  pub asset_valid : Message.invalid_token e.asset_id ≡ false
  pub numbered : (e.sequence == 0) ≡ false
  pub heated : Message.has_value e.temperature_c ≡ text_eq e.code Message.battery_overheat
  pub outage : text_eq e.code Message.site_outage ≡ text_eq e.asset_id Message.site_asset
  pub one_segment : ltb 160 (gsm_septets (Message.message_text e)) ≡ false

pub format-Sent :
    (e : FallbackEvent) {m : Text} → Message.format e ≡ ok m → Sent e × (m ≡ Message.message_text e)
unfolding Message.format Message.validate_event
format-Sent e h = ground arith

tail_fields-Printable : (t : Option Float) (ts : ℕ) → All Printable (tail_fields t ts)
unfolding tail_fields contains_byte is_empty
tail_fields-Printable none ts = (number-Printable (codes "ts") ts refl refl refl, tt)
tail_fields-Printable (some x) ts = (
  record {
    key_given = refl;
    value_given = format_tenths-given x;
    key_plain = refl;
    key_free = refl;
    value_free = format_tenths-free x;
  },
  (number-Printable (codes "ts") ts refl refl refl, tt),
)

critical_fields-Printable : (e : FallbackEvent) → Sent e → All Printable (critical_fields e)
unfolding critical_fields contains_byte is_empty
critical_fields-Printable e v =
    let site = token-Printable (codes "site") e.site_id refl refl refl v.site_valid in
    let asset = token-Printable (codes "asset") e.asset_id refl refl refl v.asset_valid in
    let seq = number-Printable (codes "seq") e.sequence refl refl refl in
    let known = code_valid_cases e.code v.known_code in
    let code : Printable (codes "code", e.code) = record {
      key_given = refl;
      value_given = code_valid-given e.code known;
      key_plain = refl;
      key_free = refl;
      value_free = code_valid-free e.code known;
    } in
    let rest = tail_fields-Printable e.temperature_c (e.occurred_at / second - unix_epoch) in
    (version_field-Printable, (site, (asset, (seq, (code, rest)))))

tail_fields-Fresh :
    (seen : Fields) (t : Option Float) (ts : ℕ)
    → has_key (codes "temp") seen ≡ false
    → has_key (codes "ts") seen ≡ false
    → Fresh seen (tail_fields t ts)
unfolding tail_fields has_key
tail_fields-Fresh seen none ts h k = (k, tt)
tail_fields-Fresh seen (some x) ts h k = (h, (k, tt))

critical_fields-Fresh : (e : FallbackEvent) → Fresh [] (critical_fields e)
unfolding critical_fields has_key
critical_fields-Fresh e =
    let rest =
      tail_fields-Fresh _ e.temperature_c (e.occurred_at / second - unix_epoch) refl refl in
    (refl, (refl, (refl, (refl, (refl, rest)))))

text_rendered :
    (e : FallbackEvent) (t : Option Float)
    → e.temperature_c ≡ t
    → Sendable e.occurred_at
    → Message.message_text e ≡ rendered (critical_fields e)
unfolding Message.message_text critical_fields tail_fields Message.join join_with
text_rendered e none h t = rw (h, unix_text-decimal e.occurred_at t) refl
text_rendered e (some x) h t = rw (h, unix_text-decimal e.occurred_at t) refl

message_text-rendered :
    (e : FallbackEvent)
    → Sendable e.occurred_at
    → Message.message_text e ≡ rendered (critical_fields e)
message_text-rendered e t = text_rendered e e.temperature_c refl t

length-tail_fields : (t : Option Float) (ts : ℕ) → 1 ≤ length (tail_fields t ts)
unfolding tail_fields
length-tail_fields none ts = omega arith
length-tail_fields (some x) ts = omega arith

-- The fields of an event's text.
pub split_sms_message-critical :
    (e : FallbackEvent)
    → Sent e
    → Sendable e.occurred_at
    → split_sms_message (Message.message_text e) ≡ ok (critical_fields e)
unfolding critical_fields value_of join_with is_empty
split_sms_message-critical e v t =
    let same = message_text-rendered e t in
    let count = length-tail_fields e.temperature_c (e.occurred_at / second - unix_epoch) in
    rw same (
      split_sms_message-rendered (critical_fields e) (critical_fields-Printable e v)
        (critical_fields-Fresh e) (omega (arith, count)) refl refl (rw same at v.one_segment))

-- How `ParseFloat` reads the temperature that was written, if one was.
abbrev pub ReadBack : (Text → Option Float) → Option Float → Option Float → Type 0
ReadBack parse_float none y = y ≡ none
ReadBack parse_float (some x) none = ⊥
ReadBack parse_float (some x) (some y) =
    (parse_float (format_tenths x) ≡ some y) × (is_nan y ≡ false) × (is_inf y ≡ false)

code_valid_same : (c : Text) → Message.code_valid c ≡ true → critical_code_valid c ≡ true
unfolding Message.code_valid critical_code_valid
code_valid_same c h = h

read_temperature-some :
    (parse_float : Text → Option Float) (x y : Float)
    → ReadBack parse_float (some x) (some y)
    → read_temperature parse_float (format_tenths x) ≡ ok (some y)
unfolding read_temperature
read_temperature-some pf x y (reads, number, finite) =
    rw (format_tenths-given x, reads, number, finite) refl

pub bool_ne_self : (b : Bool) → Message.bool_ne b b ≡ false
bool_ne_self true = refl
bool_ne_self false = refl

read_temperature-nil :
    (parse_float : Text → Option Float) → read_temperature parse_float [] ≡ ok none
unfolding read_temperature is_empty
read_temperature-nil pf = refl

parse_read :
    (parse_float : Text → Option Float) (e : FallbackEvent) (x y : Option Float)
    → Message.has_value x ≡ text_eq e.code Message.battery_overheat
    → Sent e
    → Sendable e.occurred_at
    → e.sequence ≤ max_uint64
    → ReadBack parse_float x y
    → parse_critical_event parse_float (fields_of e x)
      ≡ ok (record {
        site_id = e.site_id;
        asset_id = e.asset_id;
        sequence = e.sequence;
        code = e.code;
        temperature_c = y;
        occurred_at = e.occurred_at / second * second;
      })
unfolding parse_critical_event fields_of join_with text_eq
parse_read pf e none y heated v t fits back =
    let calm : text_eq e.code Message.battery_overheat ≡ false = sym heated in
    rw
      (
        read_sequence-decimal e.sequence v.numbered fits,
        read_timestamp-decimal e.occurred_at t,
        code_valid_same e.code v.known_code,
        invalid_token-valid e.site_id v.site_valid,
        invalid_token-valid e.asset_id v.asset_valid,
        calm,
        read_temperature-nil pf,
        back,
        v.outage,
        bool_ne_self,
      )
      refl
parse_read pf e (some x) none heated v t fits back = absurd back
parse_read pf e (some x) (some y) heated v t fits back =
    let hot : text_eq e.code Message.battery_overheat ≡ true = sym heated in
    rw
      (
        read_sequence-decimal e.sequence v.numbered fits,
        read_timestamp-decimal e.occurred_at t,
        code_valid_same e.code v.known_code,
        invalid_token-valid e.site_id v.site_valid,
        invalid_token-valid e.asset_id v.asset_valid,
        read_temperature-some pf x y back,
        hot,
        v.outage,
        bool_ne_self,
      )
      refl

pub parse_critical_event-fields :
    (parse_float : Text → Option Float) (e : FallbackEvent) (y : Option Float)
    → Sent e
    → Sendable e.occurred_at
    → e.sequence ≤ max_uint64
    → ReadBack parse_float e.temperature_c y
    → parse_critical_event parse_float (critical_fields e)
      ≡ ok (record {
        site_id = e.site_id;
        asset_id = e.asset_id;
        sequence = e.sequence;
        code = e.code;
        temperature_c = y;
        occurred_at = e.occurred_at / second * second;
      })
unfolding critical_fields
parse_critical_event-fields pf e y v = parse_read pf e e.temperature_c y v.heated v

pub critical_fields-kind : (e : FallbackEvent) → has_key (codes "kind") (critical_fields e) ≡ false
unfolding critical_fields fields_of has_key
critical_fields-kind e =
    elim e.temperature_c as (λ x. has_key (codes "kind") (fields_of e x) ≡ false) [
      | none ↦ refl
      | some x ↦ refl
    ]
