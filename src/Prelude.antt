-- ===== src/Prelude.antt =====
-- The names that every other module shares: the libraries', passed on, with the tests, the lists,
-- the integers and the outcomes that the children add.
mod Tests
mod Lists
mod ListsAt
pub mod Int
pub mod Outcome
pub mod Bytes
pub mod Reader
pub mod Bits
pub mod Xor
pub mod Sorted
pub use Tests.*
pub use Lists.*
pub use ListsAt.*
pub use Prim.Native.Nat.{ℕ, zero, suc, ◌+◌, ◌-◌, ◌*◌, ◌/◌, ◌%◌, ◌^◌, ◌≤◌, ◌<◌, min, max}
pub use mathlib.Core.Path.{◌≡◌, refl, sym, ap, subst, fun_ext, ◌∙◌}
pub use mathlib.Core.Logic.{◌≢◌, ◌↔◌, ◌⊎◌, inl, inr}
pub use mathlib.Core.Bool.{Bool, true, false, not, ◌&&◌, ◌||◌}
pub use mathlib.Core.Option.{Option, none, some}
pub use mathlib.Core.List.{List, [], ◌∷◌, ◌++◌, map, append-nil, append_assoc}
pub use native.Mathlib.Omega.{arith}
