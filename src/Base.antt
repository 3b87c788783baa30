-- ===== src/Base.antt =====
-- The names that the other modules share: library names passed on, tests on the native numbers,
-- signed integers, and the results of Python functions that may raise.
mod Tests
mod Int
mod Results
mod Lists
mod Money
mod Texts
pub use Tests.*
pub use Int.*
pub use Results.*
pub use Lists.*
pub use Money.*
pub use Texts.*
unfoldable pub use Money.{round_half_even}
pub use Prim.Native.Nat.{ℕ, zero, suc, ◌+◌, ◌-◌, ◌*◌, ◌/◌, ◌%◌, ◌≤◌, ◌<◌, min, max}
pub use mathlib.Core.Path.{◌≡◌, refl, sym, ap, ◌∙◌}
pub use mathlib.Core.Logic.{◌≢◌, ◌↔◌, ◌⊎◌, inl, inr}
pub use mathlib.Core.Bool.{Bool, true, false, not, ◌&&◌, ◌||◌}
pub use mathlib.Core.Option.{Option, none, some}
pub use mathlib.Core.List.{List, [], ◌∷◌, ◌++◌, map}
pub use native.Mathlib.Omega.{arith}
unfoldable pub use Int.{◌+ℤ◌, ◌-ℤ◌}
