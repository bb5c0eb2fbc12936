-- ===== src/Common/Digits.antt =====
-- `strconv.ParseUint(s, 10, 64)` and `strconv.ParseInt(s, 10, 64)`, and what they read back from a
-- decimal text.
use Prim.Native.Nat.{ℕ, zero, suc, ◌+◌, ◌-◌, ◌*◌, ◌/◌, ◌%◌, ◌≤◌, ◌<◌}
use mathlib.Core.Path.{◌≡◌, refl, ◌∙◌}
use mathlib.Core.Logic.{◌≢◌}
use mathlib.Core.Bool.{Bool, ◌&&◌}
use mathlib.Core.Option.{Option, none, some}
use mathlib.Core.List.{[], ◌∷◌}
use native.Mathlib.Omega.{arith}
use ambagrid.Common.Tests.{leb, ◌==◌, if◌then◌else◌}
use ambagrid.Common.Lists.{All}
use ambagrid.Common.Bytes.{Text}
use ambagrid.Common.Decimal.{decimal_loop, decimal}
use ambagrid.Common.Integers.{ℤ, pos, negsuc}

abbrev pub max_uint64 : ℕ
max_uint64 = 18_446_744_073_709_551_615

abbrev pub max_int64 : ℕ
max_int64 = 9_223_372_036_854_775_807

abbrev pub is_digit : ℕ → Bool
is_digit c = leb b'0' c && leb c b'9'

-- The digits of `s` behind the number `n`; `none` for another byte and for an overflow.
unfoldable pub read_digits : ℕ → Text → Option ℕ
read_digits n [] = some n
read_digits n (c ∷ s) =
    let m = n * 10 + (c - b'0') in
    let rest = read_digits m s in if is_digit c && leb m max_uint64 then rest else none

unfoldable pub parse_uint : Text → Option ℕ
unfolding read_digits
parse_uint [] = none
parse_uint (c ∷ s) = read_digits 0 (c ∷ s)

abbrev positive_int : Option ℕ → Option ℤ
positive_int none = none
positive_int (some n) = if leb n max_int64 then some (pos n) else none

abbrev negative_int : Option ℕ → Option ℤ
negative_int none = none
negative_int (some zero) = some (pos 0)
negative_int (some (suc n)) = if leb n max_int64 then some (negsuc n) else none

-- One sign may stand before the digits.
unfoldable pub parse_int : Text → Option ℤ
unfolding parse_uint
parse_int [] = none
parse_int (c ∷ s) =
    if c == b'-'
    then negative_int (parse_uint s)
    else if c == b'+'
    then positive_int (parse_uint s)
    else positive_int (parse_uint (c ∷ s))

abbrev pub IsDigit : ℕ → Type 0
IsDigit c = (b'0' ≤ c) × (c ≤ b'9')

read_digits-decimal_loop :
    (fuel n : ℕ) (out : Text)
    → n < fuel
    → n ≤ max_uint64
    → read_digits 0 (decimal_loop fuel n out) ≡ read_digits n out
unfolding read_digits decimal_loop
read_digits-decimal_loop zero n out h fits = absurd (omega arith)
read_digits-decimal_loop (suc fuel) n out h fits =
    ground (arith, read_digits-decimal_loop fuel (n / 10) ((b'0' + n % 10) ∷ out))

decimal_loop-ne-nil : (fuel n c : ℕ) (out : Text) → decimal_loop fuel n (c ∷ out) ≢ []
unfolding decimal_loop
decimal_loop-ne-nil zero n c out = ground arith
decimal_loop-ne-nil (suc fuel) n c out =
    ground (arith, decimal_loop-ne-nil fuel (n / 10) (b'0' + n % 10) (c ∷ out))

pub decimal-ne-nil : (n : ℕ) → decimal n ≢ []
unfolding decimal decimal_loop
decimal-ne-nil n = ground (arith, decimal_loop-ne-nil n (n / 10) (b'0' + n % 10) [])

decimal_loop-IsDigit :
    (fuel n : ℕ) (out : Text) → All IsDigit out → All IsDigit (decimal_loop fuel n out)
unfolding decimal_loop
decimal_loop-IsDigit zero n out h = h
decimal_loop-IsDigit (suc fuel) n out h =
    ground (arith, decimal_loop-IsDigit fuel (n / 10) ((b'0' + n % 10) ∷ out))

pub decimal-IsDigit : (n : ℕ) → All IsDigit (decimal n)
unfolding decimal
decimal-IsDigit n = decimal_loop-IsDigit (suc n) n [] tt

parse_uint-read_digits : (s : Text) → s ≢ [] → parse_uint s ≡ read_digits 0 s
unfolding parse_uint
parse_uint-read_digits [] h = absurd (h refl)
parse_uint-read_digits (c ∷ s) h = refl

-- Every uint64 is read back from its decimal text.
pub parse_uint-decimal : (n : ℕ) → n ≤ max_uint64 → parse_uint (decimal n) ≡ some n
unfolding decimal read_digits
parse_uint-decimal n h =
    parse_uint-read_digits (decimal n) (decimal-ne-nil n)
    ∙ read_digits-decimal_loop (suc n) n [] (omega arith) h

parse_int-digits : (s : Text) → All IsDigit s → s ≢ [] → parse_int s ≡ positive_int (parse_uint s)
unfolding parse_int
parse_int-digits [] d h = absurd (h refl)
parse_int-digits (c ∷ s) d h = ground arith

-- Every int64 that is not negative is read back from its decimal text.
pub parse_int-decimal : (n : ℕ) → n ≤ max_int64 → parse_int (decimal n) ≡ some (pos n)
parse_int-decimal n h = ground (
  arith,
  parse_int-digits (decimal n) (decimal-IsDigit n) (decimal-ne-nil n),
  parse_uint-decimal n,
)
