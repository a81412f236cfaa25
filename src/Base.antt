-- ===== src/Base.antt =====
-- The names that every module shares: the libraries', passed on, and those of the children:
-- tests and case lemmas, database tables as lists, and the outcomes of a service call.
-- `Base.Int` holds the integers, `Base.Number` the numbers of JavaScript and `Base.Sums` the sums of a
-- column, `Base.Split` texts of two parts.
mod Tests
mod Tables
mod Outcome
pub mod Int
pub mod Text
pub mod Number
pub mod Sums
pub mod Split
pub use Tests.*
pub use Tables.*
pub use Outcome.*
pub use Prim.Native.Nat.{ℕ, zero, suc, ◌+◌, ◌-◌, ◌*◌, ◌/◌, ◌%◌, ◌≤◌, ◌<◌}
pub use Prim.Native.String.{String}
pub use mathlib.Core.Path.{◌≡◌, refl, sym, ap, subst, ◌∙◌}
pub use mathlib.Core.Logic.{◌≢◌, ◌↔◌, ◌⊎◌, inl, inr}
pub use mathlib.Core.Bool.{Bool, true, false, not, ◌&&◌, ◌||◌}
pub use mathlib.Core.Option.{Option, none, some}
pub use mathlib.Core.List.{List, [], ◌∷◌, ◌++◌, map}
pub use native.Mathlib.Omega.{arith}
pub use text.Mathlib.Text.{◌==◌ as str_eq}
pub use text.Mathlib.TextEquality.{eq_iff}
