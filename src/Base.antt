-- ===== src/Base.antt =====
-- The names that every module shares: the libraries', passed on, and those of the children below:
-- tests on numbers, lists under native indices, machine words, and the outcomes of
-- code that asserts.
mod Tests
mod Lists
mod Words
mod Checks
mod Maps
mod Ints
pub use Tests.*
pub use Lists.*
unfoldable pub use Words.*
pub use Checks.*
pub use Maps.*
unfoldable pub use Ints.*
pub use Prim.Native.Nat.{ℕ, zero, suc, ◌+◌, ◌-◌, ◌*◌, ◌/◌, ◌%◌, ◌^◌, ◌≤◌, ◌<◌, min}
pub use mathlib.Core.Path.{◌≡◌, refl, sym, ap, ◌∙◌, subst}
pub use mathlib.Core.Logic.{◌≢◌, ◌↔◌, ◌⊎◌, inl, inr}
pub use mathlib.Core.Bool.{Bool, true, false, not, ◌&&◌, ◌||◌}
pub use mathlib.Core.Option.{Option, none, some}
pub use mathlib.Core.List.{List, [], ◌∷◌, ◌++◌, map, append_assoc, append-nil}
pub use native.Mathlib.Omega.{arith}
