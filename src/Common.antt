-- ===== src/Common.antt =====
-- Names that every module shares: the libraries', passed on, and those of the children.
-- The children model what the Python sources take from the language: conditionals, exceptions,
-- `dict`, text formatting and the values that a JSON payload holds.
mod Tests
mod Errors
mod Dicts
mod Lists
pub mod Texts
pub mod Membership
pub mod Ordering
pub mod Values
pub mod Numerals
pub use Tests.*
pub use Errors.*
unfoldable pub use Dicts.*
unfoldable pub use Lists.*
pub use Prim.Native.Nat.{ℕ, zero, suc, ◌+◌, ◌-◌, ◌*◌, ◌/◌, ◌%◌, ◌≤◌, ◌<◌, max}
pub use Prim.Native.String.{String}
pub use mathlib.Core.Path.{◌≡◌, refl, sym, ap, ◌∙◌}
pub use mathlib.Core.Logic.{◌≢◌, ◌↔◌, ◌⊎◌, inl, inr}
pub use mathlib.Core.Bool.{Bool, true, false, ◌&&◌, ◌||◌, not}
pub use mathlib.Core.Option.{Option, none, some}
pub use mathlib.Core.List.{List, [], ◌∷◌, ◌++◌, map}
pub use native.Mathlib.Omega.{arith}
pub use text.Mathlib.Text.{◌==◌}
pub use text.Mathlib.TextEquality.{eq_iff}
pub use text.Mathlib.TextPositions.{eq_refl}
