-- ===== src/Common.antt =====
-- The names that all parts share: the libraries' names passed on, the Boolean tests, signed
-- integers, association lists, and the calls that the Soroban host serves.
mod Tests
mod Int
mod Dict
mod Host
pub mod Ledger
pub use Tests.*
unfoldable pub use Int.*
pub use Dict.*
pub use Host.*
pub use Prim.Native.Nat.{ℕ, zero, suc, ◌+◌, ◌-◌, ◌*◌, ◌/◌, ◌%◌, ◌^◌, ◌≤◌, ◌<◌, min}
pub use mathlib.Core.Path.{◌≡◌, refl, sym, ap, subst, ◌∙◌}
pub use mathlib.Core.Logic.{◌≢◌, ◌↔◌, ◌⊎◌, inl, inr}
pub use mathlib.Core.Bool.{Bool, true, false, ◌&&◌, ◌||◌, not}
pub use mathlib.Core.Option.{Option, none, some}
pub use mathlib.Core.List.{List, [], ◌∷◌, ◌++◌}
pub use native.Mathlib.Omega.{arith}
unfoldable pub use native.Mathlib.Decide.{dec_le, ℕ_discrete}
