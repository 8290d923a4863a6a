-- ===== src/Prelude.antt =====
-- Names that the other modules share: the library's, passed on, the tests on numbers, the list
-- functions over native numbers, and the text and error types of the program.
mod Tests
mod Lists
mod Members
mod Units
mod Ints
pub use Tests.*
pub use Members.*
pub use Lists.*
unfoldable pub use Ints.*
unfoldable pub use Units.*
pub use Prim.Native.Nat.{ℕ, zero, suc, ◌+◌, ◌-◌, ◌*◌, ◌/◌, ◌%◌, ◌^◌, ◌≤◌, ◌<◌, min, max}
pub use mathlib.Core.Path.{◌≡◌, refl, sym, ap, ◌∙◌}
pub use mathlib.Core.Logic.{◌≢◌, ◌↔◌, ◌⊎◌, inl, inr}
pub use mathlib.Core.Bool.{Bool, true, false, not, ◌&&◌, ◌||◌}
pub use mathlib.Core.Option.{Option, none, some}
pub use mathlib.Core.List.{List, [], ◌∷◌, ◌++◌, map}
pub use native.Mathlib.Omega.{arith}
unfoldable pub use native.Mathlib.Decide.{dec_lt, ℕ_discrete}
