-- ===== src/Common.antt =====
-- The names that all modules share: the libraries' names, passed on, and those of the children.
mod Tests
mod Lists
mod Outcome
mod Text
mod Map
mod Int
mod Decimal
mod Split
pub use Tests.*
pub use Lists.*
unfoldable pub use Outcome.*
unfoldable pub use Text.*
unfoldable pub use Map.*
pub use Int.*
unfoldable pub use Decimal.*
unfoldable pub use Split.*
pub use Prim.Native.Nat.{ℕ, zero, suc, ◌+◌, ◌-◌, ◌*◌, ◌/◌, ◌%◌, ◌^◌, ◌≤◌, ◌<◌}
pub use mathlib.Core.Path.{◌≡◌, refl, sym, ap, ◌∙◌, subst}
pub use mathlib.Core.Logic.{◌≢◌, ◌↔◌, ◌⊎◌, inl, inr}
pub use mathlib.Core.Bool.{Bool, true, false, not, ◌&&◌, ◌||◌}
pub use mathlib.Core.Option.{Option, none, some}
pub use mathlib.Core.List.{List, [], ◌∷◌, ◌++◌, map}
pub use native.Mathlib.Omega.{arith}
