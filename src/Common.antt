-- ===== src/Common.antt =====
-- Names that every other module shares: the libraries', passed on, and those of the children
-- (Boolean tests, lists over the native numbers, text as code points, sorted lists).
mod Checks
mod Lists
mod Strings
mod Words
mod Paths
unfoldable pub use Checks.*
unfoldable pub use Lists.*
unfoldable pub use Strings.*
unfoldable pub use Words.*
unfoldable pub use Paths.*
pub use Prim.Native.Nat.{ℕ, zero, suc, ◌+◌, ◌-◌, ◌*◌, ◌/◌, ◌%◌, ◌^◌, ◌≤◌, ◌<◌, min, max}
pub use mathlib.Core.Path.{◌≡◌, refl, sym, ap, ◌∙◌}
pub use mathlib.Core.Logic.{◌≢◌, ◌↔◌, ◌⊎◌, inl, inr}
pub use mathlib.Core.Bool.{Bool, true, false, not, ◌&&◌, ◌||◌}
pub use mathlib.Core.Option.{Option, none, some}
pub use mathlib.Core.List.{List, [], ◌∷◌, ◌++◌, map, append-nil, append_assoc}
pub use native.Mathlib.Omega.{arith}
