-- ===== src/Common.antt =====
-- The names that the models share: the libraries', passed on, and the children's.
mod Tests
mod Lists
mod Text
mod Numbers
mod Results
mod Integers
mod Maps
mod Search
mod Values
pub mod Tasks
pub use Tests.*
pub use Lists.*
unfoldable pub use Text.*
pub use Numbers.*
unfoldable pub use Integers.*
pub use Search.*
pub use Results.*
unfoldable pub use Maps.*
unfoldable pub use Values.*
pub use Prim.Native.Nat.{ℕ, zero, suc, ◌+◌, ◌-◌, ◌*◌, ◌/◌, ◌%◌, ◌^◌, ◌≤◌, ◌<◌, min}
pub use Prim.Native.String.{String}
pub use mathlib.Core.Path.{◌≡◌, refl, sym, ap, ◌∙◌}
pub use mathlib.Core.Logic.{◌≢◌, ◌↔◌, ◌⊎◌, inl, inr}
pub use mathlib.Core.Bool.{Bool, true, false, not, ◌&&◌, ◌||◌}
pub use mathlib.Core.Option.{Option, none, some}
pub use mathlib.Core.List.{List, [], ◌∷◌, ◌++◌, map}
pub use native.Mathlib.Omega.{arith}
pub use text.Mathlib.TextEquality.{eq_iff}
