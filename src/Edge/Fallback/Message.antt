-- ===== src/Edge/Fallback/Message.antt =====
-- message.go: the critical event and its one-segment SMS text.
use ambagrid.Common.{
  ℕ, ◌+◌, ◌-◌, ◌/◌, Bool, true, false, ◌&&◌, ◌||◌, not, Option, none, some, List, [], ◌∷◌, ◌++◌,
  Text, codes, Float, is_nan, is_inf, format_tenths, ltb, leb, ◌==◌, if◌then◌else◌, text_eq,
  is_empty, Result, ok, ◌>>◌, refuse_if, is_zero_time, second, decimal,
}
use ambagrid.Edge.Errors.{Error, message_invalid, message_too_long}

-- `type Code string`.
abbrev pub battery_overheat : Text
battery_overheat = codes "BATTERY_OVERHEAT"

abbrev pub inverter_failure : Text
inverter_failure = codes "INVERTER_FAILURE"

abbrev pub tamper_detected : Text
tamper_detected = codes "TAMPER_DETECTED"

abbrev pub site_outage : Text
site_outage = codes "SITE_OUTAGE"

abbrev pub site_asset : Text
site_asset = codes "site"

unfoldable pub code_valid : Text → Bool
code_valid c =
    text_eq c battery_overheat
    || (text_eq c inverter_failure || (text_eq c tamper_detected || text_eq c site_outage))

-- `Event` of the fallback package.
pub record FallbackEvent : Type 0 where
  pub site_id : Text
  pub asset_id : Text
  pub sequence : ℕ
  pub code : Text
  pub temperature_c : Option Float
  pub occurred_at : ℕ

pub record DebounceCondition : Type 0 where
  pub asset_id : Text
  pub code : Text
  pub active_since : ℕ
  pub opened : Bool

pub record Candidate : Type 0 where
  pub event : FallbackEvent
  pub opened_at : ℕ
  pub upload_failures : ℕ
  pub last_upload_success : Option ℕ
  pub attempts : ℕ
  pub attempts_last_hour : ℕ
  pub attempts_last_day : ℕ
  pub next_attempt_at : Option ℕ

pub record AttemptResult : Type 0 where
  pub event_key : Text
  pub attempted_at : ℕ
  pub succeeded : Bool
  pub failure_reason : Text
  pub next_attempt_at : Option ℕ

-- The characters of an identifier. The loop of the source walks runes; a byte above 127, or a
-- rune made of such bytes, is no token character either way.
unfoldable pub token_byte : ℕ → Bool
token_byte c =
    (leb b'a' c && leb c b'z')
    || ((leb b'A' c && leb c b'Z') || ((leb b'0' c && leb c b'9') || (c == b'-' || c == b'_')))

unfoldable pub all_token_bytes : Text → Bool
unfolding token_byte
all_token_bytes [] = true
all_token_bytes (c ∷ s) = token_byte c && all_token_bytes s

-- `ContainsAny(value, "|=")` is subsumed: neither is a token character.
unfoldable pub invalid_token : Text → Bool
unfolding all_token_bytes
invalid_token s = is_empty s || not (all_token_bytes s)

-- The septets of a text in UTF-8: a byte that continues a rune counts nothing, and the characters
-- of the GSM-7 extension table, "^{}\\[~]|€", count twice ("€" is 226 130 172).
abbrev pub extension_byte : ℕ → Bool
extension_byte c =
    (c == b'^' || (c == b'{' || (c == b'}' || c == 92)))
    || (c == b'[' || (c == b'~' || (c == b']' || c == b'|')))

abbrev euro_tail : Text → Bool
euro_tail (b ∷ c ∷ s) = b == 130 && c == 172
euro_tail _ = false

septets_at : ℕ → Text → ℕ
septets_at c s =
    if leb 128 c && ltb c 192
    then 0
    else if extension_byte c || (c == 226 && euro_tail s)
    then 2
    else 1

unfoldable pub gsm_septets : Text → ℕ
unfolding septets_at
gsm_septets [] = 0
gsm_septets (c ∷ s) = septets_at c s + gsm_septets s

-- Seconds from the zero time to the Unix epoch.
abbrev pub unix_epoch : ℕ
unix_epoch = 62_135_596_800

-- `strconv.FormatInt(t.UTC().Unix(), 10)`.
unfoldable pub unix_text : ℕ → Text
unix_text t =
    let s = t / second in
    if ltb s unix_epoch then b'-' ∷ decimal (unix_epoch - s) else decimal (s - unix_epoch)

unfoldable pub join : Text → List Text → Text
join separator [] = []
join separator (part ∷ []) = part
join separator (part ∷ next ∷ rest) = part ++ (separator ++ join separator (next ∷ rest))

abbrev pub temperature_part : Option Float → List Text
temperature_part none = []
temperature_part (some x) = (codes "temp=" ++ format_tenths x) ∷ []

unfoldable pub message_text : FallbackEvent → Text
unfolding join unix_text
message_text e = join (codes "|") (
    codes "AMBAGRID"
    ∷ codes "v=1"
    ∷ (codes "site=" ++ e.site_id)
    ∷ (codes "asset=" ++ e.asset_id)
    ∷ (codes "seq=" ++ decimal e.sequence)
    ∷ (codes "code=" ++ e.code)
    ∷ (temperature_part e.temperature_c ++ (codes "ts=" ++ unix_text e.occurred_at) ∷ []))

abbrev pub has_value {ℓ} : {A : Type ℓ} → Option A → Bool
has_value none = false
has_value (some a) = true

abbrev pub not_finite : Option Float → Bool
not_finite none = false
not_finite (some x) = is_nan x || is_inf x

abbrev pub bool_ne : Bool → Bool → Bool
bool_ne true b = not b
bool_ne false b = b

-- The tests of `Format` before it writes the text.
unfoldable pub validate_event : FallbackEvent → Result Error (Unit {0})
unfolding code_valid invalid_token
validate_event e = do
  refuse_if (not (code_valid e.code)) message_invalid
  refuse_if (invalid_token e.site_id || invalid_token e.asset_id) message_invalid
  refuse_if (e.sequence == 0 || is_zero_time e.occurred_at) message_invalid
  refuse_if (text_eq e.code battery_overheat && not (has_value e.temperature_c)) message_invalid
  refuse_if (not_finite e.temperature_c) message_invalid
  refuse_if (not (text_eq e.code battery_overheat) && has_value e.temperature_c) message_invalid
  refuse_if (bool_ne (text_eq e.code site_outage) (text_eq e.asset_id site_asset)) message_invalid

unfoldable pub format : FallbackEvent → Result Error Text
unfolding validate_event message_text gsm_septets
format e = do
  validate_event e
  refuse_if (ltb 160 (gsm_septets (message_text e)))
      (message_too_long (gsm_septets (message_text e)))
  ok (message_text e)
