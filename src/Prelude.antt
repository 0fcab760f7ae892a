-- ===== src/Prelude.antt =====
-- The names that all components share: the libraries', passed on, the Boolean tests and list
-- functions over the native numbers, and sums over an indexed family of threads.
mod Tests
mod Lists
mod Totals
pub mod Int
pub mod Options
pub use Tests.*
pub use Lists.{length, length-append, length-map, drop, weigh-append}
unfoldable pub use Lists.{weigh}
pub use Totals.{
  total-change, le-total, add-le-total, total-pos, total-zero, total-zero_with, change-change,
  change_same, change_at,
}
unfoldable pub use Totals.{change, total}
pub use Prim.Native.Nat.{ℕ, zero, suc, ◌+◌, ◌-◌, ◌*◌, ◌/◌, ◌%◌, ◌^◌, ◌≤◌, ◌<◌}
pub use mathlib.Core.Path.{◌≡◌, refl, sym, ap, ◌∙◌}
pub use mathlib.Core.Logic.{◌≢◌, ◌↔◌, ◌⊎◌, inl, inr}
pub use mathlib.Core.Bool.{Bool, true, false, not, ◌&&◌, ◌||◌}
pub use mathlib.Core.Option.{Option, none, some}
pub use mathlib.Core.List.{List, [], ◌∷◌, ◌++◌, map}
pub use native.Mathlib.Omega.{arith}
