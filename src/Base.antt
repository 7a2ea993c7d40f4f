-- ===== src/Base.antt =====
-- The names that the other modules share: the libraries', passed on, and those of the children.
mod Test
mod Strings
mod Space
mod SpaceLaws
mod Lists
mod Members
mod Dicts
mod Results
mod Int
mod Paths
unfoldable pub use Test.*
unfoldable pub use Strings.*
unfoldable pub use Space.*
pub use SpaceLaws.*
unfoldable pub use Lists.*
unfoldable pub use Dicts.*
pub use Members.*
pub use Results.*
unfoldable pub use Int.*
unfoldable pub use Paths.*
pub use Prim.Native.Nat.{ℕ, zero, suc, ◌+◌, ◌-◌, ◌*◌, ◌/◌, ◌%◌, ◌^◌, ◌≤◌, ◌<◌}
pub use mathlib.Core.Path.{◌≡◌, refl, sym, ap, subst, ◌∙◌}
pub use mathlib.Core.Logic.{◌≢◌, ◌↔◌, ◌⊎◌, inl, inr}
pub use mathlib.Core.Bool.{Bool, true, false, not, ◌&&◌, ◌||◌}
pub use mathlib.Core.Option.{Option, none, some}
pub use mathlib.Core.List.{List, [], ◌∷◌, ◌++◌, map}
pub use native.Mathlib.Omega.{arith}
