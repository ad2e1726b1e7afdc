-- ===== src/Prelude.antt =====
-- The names that every module shares: the library's, passed on, and those of the children below
-- (tests on numbers, lists, machine words). Maps, sets and results are used through their modules.
mod Tests
mod Lists
mod Words
mod Members
pub mod Map
pub mod Btree
pub mod Set
pub mod Keys
pub mod Sort
pub mod Outcome
pub mod Result
pub use Tests.*
pub use Lists.*
pub use Members.*
unfoldable pub use Words.*
pub use Prim.Native.Nat.{ℕ, zero, suc, ◌+◌, ◌-◌, ◌*◌, ◌/◌, ◌%◌, ◌^◌, ◌≤◌, ◌<◌, min, max}
pub use mathlib.Core.Path.{◌≡◌, refl, sym, ap, ◌∙◌}
pub use mathlib.Core.Logic.{◌≢◌, ◌↔◌, ◌⊎◌, inl, inr}
pub use mathlib.Core.Bool.{Bool, true, false, not, ◌&&◌, ◌||◌}
pub use mathlib.Core.Option.{Option, none, some}
pub use mathlib.Core.List.{List, [], ◌∷◌, ◌++◌, map}
pub use native.Mathlib.Omega.{arith}
