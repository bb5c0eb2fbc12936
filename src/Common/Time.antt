-- ===== src/Common/Time.antt =====
-- A Go `time.Time` is the number of nanoseconds from its zero value (1 January of year 1), so that
-- `IsZero` is a test for 0. `UnixMilli` is kept as the milliseconds from that same instant: the
-- Unix epoch lies a whole number of seconds after it, so this shifts every stored number by one
-- constant and leaves all comparisons as they are. A `time.Duration` is its nanoseconds.
use Prim.Native.Nat.{ℕ, ◌*◌, ◌/◌}
use mathlib.Core.Bool.{Bool}
use ambagrid.Common.Tests.{◌==◌}

abbrev pub millisecond : ℕ
millisecond = 1_000_000

abbrev pub second : ℕ
second = 1_000_000_000

abbrev pub minute : ℕ
minute = 60_000_000_000

abbrev pub hour : ℕ
hour = 3_600_000_000_000

abbrev pub is_zero_time : ℕ → Bool
is_zero_time t = t == 0

-- `t.UnixMilli()` and `time.UnixMilli(ms)`.
abbrev pub to_ms : ℕ → ℕ
to_ms t = t / millisecond

abbrev pub from_ms : ℕ → ℕ
from_ms m = m * millisecond
