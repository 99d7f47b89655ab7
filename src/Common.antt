-- ===== src/Common.antt =====
-- The names that the other modules share: the libraries', passed on, and those of seven children.
pub mod Tests
pub mod Lists
pub mod Errors
pub mod Maps
pub mod Keyed
pub mod Entries
pub mod ConstantTime
pub use Tests.*
pub use Lists.*
pub use Errors.*
pub use Maps.*
pub use Keyed.*
pub use Entries.*
unfoldable pub use ConstantTime.*
pub use Prim.Native.Nat.{ℕ, zero, suc, ◌+◌, ◌-◌, ◌*◌, ◌/◌, ◌%◌, ◌^◌, ◌≤◌, ◌<◌, max, min}
pub use Prim.Native.String.{String}
pub use mathlib.Core.Path.{◌≡◌, refl, sym, ap, ap₂, ◌∙◌, subst}
pub use mathlib.Core.Logic.{◌≢◌, ◌↔◌, ◌⊎◌, inl, inr}
pub use mathlib.Core.Bool.{Bool, true, false, ◌&&◌, ◌||◌, not}
pub use mathlib.Core.Option.{Option, none, some}
pub use mathlib.Core.List.{List, [], ◌∷◌, ◌++◌, map}
pub use native.Mathlib.Omega.{arith}
