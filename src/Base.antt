-- ===== src/Base.antt =====
-- The names that the other modules share.
pub mod Tests
pub mod Keys
pub mod Lists
pub mod Sets
pub mod Members
pub mod Counting
pub mod Dicts
pub mod Results
pub mod Texts
pub mod Ints
pub use Tests.*
pub use Keys.*
pub use Lists.*
unfoldable pub use Sets.*
pub use Members.*
pub use Counting.*
unfoldable pub use Dicts.*
unfoldable pub use Results.*
unfoldable pub use Texts.*
pub use Ints.*
pub use Prim.Native.Nat.{ℕ, zero, suc, ◌+◌, ◌-◌, ◌*◌, ◌/◌, ◌≤◌, ◌<◌, max, min}
pub use mathlib.Core.Path.{◌≡◌, refl, sym, ap, ◌∙◌, subst}
pub use mathlib.Core.Logic.{◌≢◌, ◌↔◌, ◌⊎◌, inl, inr}
pub use mathlib.Core.Bool.{Bool, true, false, ◌&&◌, ◌||◌, not}
pub use mathlib.Core.Option.{Option, none, some}
pub use mathlib.Core.List.{List, [], ◌∷◌, ◌++◌, map}
pub use native.Mathlib.Omega.{arith}
