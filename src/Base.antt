-- ===== src/Base.antt =====
-- The names that all modules share: those of the libraries, Boolean tests, lists, and the text
-- and maps of Go.
mod Tests
mod Lists
mod Text
mod Count
mod Errors
pub mod Dict
pub mod Strings
pub mod Attempts
pub mod Integers
pub mod Bytes
pub mod Splits
pub use Tests.*
pub use Lists.*
unfoldable pub use Count.*
unfoldable pub use Errors.*
unfoldable pub use Text.*
pub use Prim.Native.Nat.{ℕ, zero, suc, ◌+◌, ◌-◌, ◌*◌, ◌/◌, ◌%◌, ◌≤◌, ◌<◌}
pub use Prim.Native.String.{String}
pub use mathlib.Core.Path.{◌≡◌, refl, sym, ap, ◌∙◌, subst}
pub use mathlib.Core.Logic.{◌≢◌, ◌↔◌, ◌⊎◌, inl, inr}
pub use mathlib.Core.Bool.{Bool, true, false, not, ◌&&◌, ◌||◌}
pub use mathlib.Core.Option.{Option, none, some}
pub use mathlib.Core.List.{List, [], ◌∷◌, ◌++◌, map}
pub use native.Mathlib.Omega.{arith}
