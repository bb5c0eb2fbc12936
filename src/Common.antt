-- ===== src/Common.antt =====
-- Names that every other module shares: the libraries', passed on, and those of the children
-- below (tests on numbers, lists, SQL-style tables, Go strings as bytes, Go times, IEEE doubles).
mod Tests
mod Lists
mod Table
mod Bytes
mod Time
mod Float64
mod Outcome
mod Decimal
mod Digits
mod Space
mod Integers
mod Split
mod Lookup
pub use Tests.*
pub use Lists.*
unfoldable pub use Table.*
unfoldable pub use Bytes.*
unfoldable pub use Time.*
unfoldable pub use Float64.*
unfoldable pub use Decimal.*
unfoldable pub use Digits.*
unfoldable pub use Space.{is_blank, trim_right, trim_space}
pub use Outcome.*
pub use Integers.*
unfoldable pub use Split.*
pub use Lookup.*
pub use Prim.Native.Nat.{ℕ, zero, suc, ◌+◌, ◌-◌, ◌*◌, ◌/◌, ◌%◌, ◌^◌, ◌≤◌, ◌<◌}
pub use mathlib.Core.Path.{◌≡◌, refl, sym, ap, ◌∙◌, subst}
pub use mathlib.Core.Logic.{◌≢◌, ◌↔◌, ◌⊎◌, inl, inr}
pub use mathlib.Core.Bool.{Bool, true, false, not, ◌&&◌, ◌||◌}
pub use mathlib.Core.Option.{Option, none, some}
pub use mathlib.Core.List.{List, [], ◌∷◌, ◌++◌, map, append_assoc, append-nil}
pub use native.Mathlib.Omega.{arith}
