-- ===== src/Common/Float64.antt =====
-- A Go `float64` is its IEEE 754 bit pattern, a number below 2 ^ 64.
use Prim.Native.Nat.{ℕ, ◌+◌, ◌*◌, ◌/◌, ◌%◌, ◌^◌}
use mathlib.Core.Bool.{Bool, false, not, ◌&&◌, ◌||◌}
use mathlib.Core.List.{[], ◌∷◌, ◌++◌}
use ambagrid.Common.Tests.{◌==◌, ltb, leb, if◌then◌else◌}
use ambagrid.Common.Bytes.{Text}
use ambagrid.Common.Decimal.{decimal}
use Prim.Native.Nat.{◌-◌}

abbrev pub Float : Type 0
Float = ℕ

abbrev magnitude : Float → ℕ
magnitude x = x % 2 ^ 63

abbrev negative : Float → Bool
negative x = leb (2 ^ 63) x

unfoldable pub is_nan : Float → Bool
is_nan x = ltb (2047 * 2 ^ 52) (x % 2 ^ 63)

unfoldable pub is_inf : Float → Bool
is_inf x = x % 2 ^ 63 == 2047 * 2 ^ 52

-- `a < b`: false where either is NaN; the two zeros are equal.
unfoldable pub float_lt : Float → Float → Bool
unfolding is_nan
float_lt a b =
    not (is_nan a)
    && not (is_nan b)
    && (if negative a
        then (if negative b
            then ltb (magnitude b) (magnitude a)
            else not (magnitude a == 0 && magnitude b == 0))
        else (if negative b then false else ltb (magnitude a) (magnitude b)))

-- `a >= b`.
unfoldable pub float_ge : Float → Float → Bool
unfolding is_nan float_lt
float_ge a b = not (is_nan a) && not (is_nan b) && not (float_lt a b)

-- The rounded quotient of two numbers, with ties to even.
unfoldable pub div_even : ℕ → ℕ → ℕ
div_even num den =
    let q = num / den in
    let r = num % den in if ltb den (2 * r) || (2 * r == den && q % 2 == 1) then q + 1 else q

-- The magnitude of a finite double in tenths, rounded: its fraction times a power of two.
unfoldable pub tenths : Float → ℕ
unfolding div_even
tenths x =
    let exponent = (x / 2 ^ 52) % 2048 in
    let fraction = x % 2 ^ 52 in
    let m = (if exponent == 0 then fraction else fraction + 2 ^ 52) in
    let e = (if exponent == 0 then 1 else exponent) in
    if leb 1075 e then m * 2 ^ (e - 1075) * 10 else div_even (m * 10) (2 ^ (1075 - e))

-- `strconv.FormatFloat(x, 'f', 1, 64)` of a finite double.
unfoldable pub format_tenths : Float → Text
unfolding tenths decimal
format_tenths x =
    let digits = decimal (tenths x / 10) ++ (b'.' ∷ (b'0' + tenths x % 10) ∷ []) in
    if negative x then b'-' ∷ digits else digits
