-- ===== src/Prelude.antt =====
-- The names that the other modules share: the libraries' names, passed on, the tests and
-- conditionals, lists over the native numbers, and machine words.
mod Tests
mod Lists
mod Words
mod Results
mod Members
mod Loops
pub use Tests.*
pub use Lists.*
pub use Results.*
pub use Members.*
unfoldable pub use Loops.*
pub use Words.*
pub use Prim.Native.Nat.{ℕ, zero, suc, ◌+◌, ◌-◌, ◌*◌, ◌/◌, ◌%◌, ◌^◌, ◌≤◌, ◌<◌, min, max}
pub use mathlib.Core.Path.{◌≡◌, refl, sym, ap, ap₂, ◌∙◌, ◌≡⟨◌⟩◌, ◌∎}
pub use mathlib.Core.Logic.{◌≢◌, ◌↔◌, ◌⊎◌, inl, inr}
pub use mathlib.Core.Bool.{Bool, true, false, ◌&&◌, ◌||◌, not}
pub use mathlib.Core.Option.{Option, none, some}
pub use mathlib.Core.List.{List, [], ◌∷◌, ◌++◌, map}
pub use native.Mathlib.Omega.{arith}
