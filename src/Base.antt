-- ===== src/Base.antt =====
-- The names that the other modules share: the libraries', passed on, and those of the children.
-- `int` values that may be negative are the integers of Base/Int.antt.
mod Tests
mod Lists
mod Counting
mod Int
mod Search
mod Results
mod Memory
mod Sums
mod Words
unfoldable pub use Tests.*
unfoldable pub use Lists.*
unfoldable pub use Counting.*
unfoldable pub use Int.*
unfoldable pub use Search.*
unfoldable pub use Results.*
unfoldable pub use Memory.*
unfoldable pub use Sums.*
unfoldable pub use Words.*
pub use Prim.Native.Nat.{ℕ, zero, suc, ◌+◌, ◌-◌, ◌*◌, ◌/◌, ◌%◌, ◌^◌, ◌≤◌, ◌<◌}
pub use mathlib.Core.Path.{◌≡◌, refl, sym, ap, ap₂, ◌∙◌, subst}
pub use mathlib.Core.Logic.{◌≢◌, ◌↔◌, ◌⊎◌, inl, inr}
pub use mathlib.Core.Bool.{Bool, true, false, ◌&&◌, ◌||◌, not}
pub use mathlib.Core.Option.{Option, none, some}
pub use mathlib.Core.List.{List, [], ◌∷◌, ◌++◌, map}
pub use native.Mathlib.Omega.{arith}
unfoldable pub use native.Mathlib.Decide.{dec_lt, ℕ_discrete}
