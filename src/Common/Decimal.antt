-- ===== src/Common/Decimal.antt =====
-- `strconv.FormatUint(n, 10)`, and `'...' || n` in SQL: the decimal digits of a number.
use Prim.Native.Nat.{ℕ, zero, suc, ◌+◌, ◌/◌, ◌%◌}
use mathlib.Core.List.{[], ◌∷◌}
use ambagrid.Common.Tests.{ltb, if◌then◌else◌}
use ambagrid.Common.Bytes.{Text}

-- The digits of `n` before `out`; one round for each digit, so `n + 1` rounds are enough.
unfoldable pub decimal_loop : ℕ → ℕ → Text → Text
decimal_loop zero n out = out
decimal_loop (suc fuel) n out =
    let digit = b'0' + n % 10 in
    let rest = decimal_loop fuel (n / 10) (digit ∷ out) in if ltb n 10 then digit ∷ out else rest

unfoldable pub decimal : ℕ → Text
unfolding decimal_loop
decimal n = decimal_loop (suc n) n []
