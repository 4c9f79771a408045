-- ===== src/Base.antt =====
-- The names that the other modules share: the libraries' names passed on, machine sizes, tests on
-- numbers, lists measured by native numbers, and signed integers.
mod Tests
mod Lists
mod Sizes
pub mod Budget
pub mod Bytes
pub mod Arrays
pub mod Counts
pub use Tests.*
pub use Lists.*
pub use Sizes.*
pub use Prim.Native.Nat.{ℕ, zero, suc, ◌+◌, ◌-◌, ◌*◌, ◌/◌, ◌%◌, ◌^◌, ◌≤◌, ◌<◌, min}
pub use mathlib.Core.Path.{◌≡◌, refl, sym, ap, ◌∙◌}
pub use mathlib.Core.Logic.{◌≢◌, ◌↔◌, ◌⊎◌, inl, inr}
pub use mathlib.Core.Bool.{Bool, true, false, not, ◌&&◌, ◌||◌}
pub use mathlib.Core.Option.{Option, none, some}
pub use mathlib.Core.List.{List, [], ◌∷◌, ◌++◌, map, reverse, Mem, Perm}
pub use native.Mathlib.Omega.{arith}
