-- ===== src/Base.antt =====
-- The names that the other modules share: numbers, tests, lists, byte strings and Go's maps.
mod Tests
mod Lists
mod Positions
mod Strings
mod Maps
pub mod Int64
pub mod Format
pub mod Sort
pub mod Wire
pub use Tests.*
unfoldable pub use Tests.{check_range}
pub use Lists.*
pub use Positions.*
pub use Strings.*
pub use Maps.*
pub use Prim.Native.Nat.{ℕ, zero, suc, ◌+◌, ◌-◌, ◌*◌, ◌/◌, ◌%◌, ◌^◌, ◌≤◌, ◌<◌}
pub use mathlib.Core.Path.{◌≡◌, refl, sym, ap, ◌∙◌}
pub use mathlib.Core.Logic.{◌≢◌, ◌↔◌, ◌⊎◌, inl, inr}
pub use mathlib.Core.Bool.{Bool, true, false, not, ◌&&◌, ◌||◌}
pub use mathlib.Core.Option.{Option, none, some}
pub use mathlib.Core.List.{List, [], ◌∷◌, ◌++◌, map}
pub use native.Mathlib.Omega.{arith}
