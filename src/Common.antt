-- ===== src/Common.antt =====
-- The names that the other modules share: the libraries', passed on, and those of the children.
mod Tests
mod Lists
mod Strings
mod Decimal
mod Sort
mod Maps
mod Int
mod Actions
mod Kept
mod Paths
pub use Tests.*
pub use Lists.*
unfoldable pub use Strings.*
unfoldable pub use Decimal.*
unfoldable pub use Sort.*
unfoldable pub use Maps.*
unfoldable pub use Int.*
unfoldable pub use Actions.*
pub use Kept.*
unfoldable pub use Paths.*
pub use Prim.Native.Nat.{ℕ, zero, suc, ◌+◌, ◌-◌, ◌*◌, ◌/◌, ◌%◌, ◌^◌, ◌≤◌, ◌<◌}
pub use mathlib.Core.Path.{◌≡◌, refl, sym, ap, ◌∙◌}
pub use mathlib.Core.Logic.{◌≢◌, ◌↔◌, ◌⊎◌, inl, inr}
pub use mathlib.Core.Bool.{Bool, true, false, not, ◌&&◌, ◌||◌}
pub use mathlib.Core.Option.{Option, none, some}
pub use mathlib.Core.List.{List, [], ◌∷◌, ◌++◌, map, Perm, append-nil, append_assoc}
pub use native.Mathlib.Omega.{arith}
