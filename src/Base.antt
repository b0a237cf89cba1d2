-- ===== src/Base.antt =====
-- The names that every module shares: the libraries', passed on, and those of the children:
-- tests on numbers, lists, signed integers, keys, finite maps, the float interface and texts.
mod Tests
mod Lists
mod Int
mod Keys
mod Maps
mod Floats
mod Texts
pub use Tests.*
pub use Lists.*
unfoldable pub use Int.*
pub use Keys.*
unfoldable pub use Maps.*
pub use Floats.*
pub use Texts.*
pub use Prim.Native.Nat.{ℕ, zero, suc, ◌+◌, ◌-◌, ◌*◌, ◌/◌, ◌%◌, ◌^◌, ◌≤◌, ◌<◌}
pub use Prim.Native.String.{String}
pub use mathlib.Core.Path.{◌≡◌, refl, sym, ap, ◌∙◌, subst}
pub use mathlib.Core.Logic.{◌≢◌, ◌↔◌, ◌⊎◌, inl, inr}
pub use mathlib.Core.Bool.{Bool, true, false, not, ◌&&◌, ◌||◌}
pub use mathlib.Core.Option.{Option, none, some}
pub use mathlib.Core.List.{List, [], ◌∷◌}
unfoldable pub use mathlib.Core.List.{◌++◌, map}
pub use native.Mathlib.Omega.{arith}
pub use text.Mathlib.TextEquality.{eq_iff as str_eq_iff}
pub use text.Mathlib.Text.{◌==◌ as str_eq}
