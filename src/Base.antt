-- ===== src/Base.antt =====
-- What every part of the development shares: library names passed on, Boolean tests on numbers,
-- the conditional, lists over the native numbers, dictionaries, and texts. It models no file of
-- the repository, only the Python that the files use.
mod Tests
pub mod Lists
pub mod Dict
pub mod Int
pub mod Text
pub mod Rows
pub mod Outcome
pub use Tests.*
pub use Prim.Native.Nat.{ℕ, zero, suc, ◌+◌, ◌-◌, ◌*◌, ◌/◌, ◌%◌, ◌≤◌, ◌<◌, min, max}
pub use mathlib.Core.Path.{◌≡◌, refl, sym, ap, ◌∙◌}
pub use mathlib.Core.Logic.{◌≢◌, ◌↔◌, ◌⊎◌, inl, inr}
pub use mathlib.Core.Bool.{Bool, true, false, not, ◌&&◌, ◌||◌}
pub use mathlib.Core.Option.{Option, none, some}
pub use mathlib.Core.List.{List, [], ◌∷◌, ◌++◌, map}
pub use native.Mathlib.Omega.{arith}
