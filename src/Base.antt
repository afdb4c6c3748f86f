-- ===== src/Base.antt =====
-- The names that the other modules share: the libraries', passed on, and those of the children.
mod Tests
mod Lists
mod Sorting
mod Equality
mod Outcome
mod Bounded
pub mod Dict
mod Shelves
pub mod Text
pub mod Float
pub mod Int
pub use Tests.*
pub use Lists.*
unfoldable pub use Sorting.*
pub use Equality.*
unfoldable pub use Bounded.*
pub use Shelves.*
pub use Outcome.*
pub use Prim.Native.Nat.{ℕ, zero, suc, ◌+◌, ◌-◌, ◌*◌, ◌/◌, ◌%◌, ◌≤◌, ◌<◌, min, max}
pub use mathlib.Core.Path.{◌≡◌, refl, sym, ap, ◌∙◌, subst}
pub use mathlib.Core.Logic.{◌≢◌, ◌↔◌, ◌⊎◌, inl, inr}
pub use mathlib.Core.Bool.{Bool, true, false, ◌&&◌, ◌||◌, not}
pub use mathlib.Core.Option.{Option, none, some}
pub use mathlib.Core.List.{List, [], ◌∷◌, ◌++◌, map, reverse, Perm}
pub use native.Mathlib.Omega.{arith}
