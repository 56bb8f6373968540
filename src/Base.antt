-- ===== src/Base.antt =====
-- The names that the other modules share: the libraries', passed on, and those of three children:
-- Boolean tests on numbers, byte strings, and the checked arithmetic of Rust's unsigned integers.
mod Tests
mod ByteStrings
mod Checked
mod Slices
mod BigEndian
pub use Tests.*
unfoldable pub use ByteStrings.*
pub use BigEndian.*
pub use Slices.*
pub use Checked.*
pub use Prim.Native.Nat.{ℕ, zero, suc, ◌+◌, ◌-◌, ◌*◌, ◌/◌, ◌%◌, ◌^◌, ◌≤◌, ◌<◌}
pub use mathlib.Core.Path.{◌≡◌, refl, sym, ap, ◌∙◌, subst}
pub use mathlib.Core.Logic.{◌≢◌, ◌↔◌, ◌⊎◌, inl, inr}
pub use mathlib.Core.Bool.{Bool, true, false, ◌&&◌, ◌||◌, not}
pub use mathlib.Core.Option.{Option, none, some}
pub use mathlib.Core.List.{List, [], ◌∷◌, ◌++◌}
pub use native.Mathlib.Omega.{arith}
