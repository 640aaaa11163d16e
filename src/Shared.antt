-- ===== src/Shared.antt =====
-- The names that the modules of this library share: those of the mounted libraries, passed on, and
-- those of the children. This file models no code of its own.
mod Tests
mod Lists
mod Tables
mod Keyed
mod Keys
mod Int
pub use Tests.*
pub use Lists.*
pub use Keyed.*
pub use Keys.*
pub use Tables.*
pub use Int.*
pub use Prim.Native.Nat.{ℕ, zero, suc, ◌+◌, ◌-◌, ◌*◌, ◌/◌, ◌%◌, ◌^◌, ◌≤◌, ◌<◌, min}
pub use Prim.Native.String.{String, ◌++◌ as ◌<>◌}
pub use mathlib.Core.Path.{◌≡◌, refl, sym, ap, subst, ◌∙◌}
pub use mathlib.Core.Logic.{◌≢◌, ◌↔◌, ◌⊎◌, inl, inr}
pub use mathlib.Core.Bool.{Bool, true, false, not, ◌&&◌, ◌||◌}
pub use mathlib.Core.Option.{Option, none, some}
pub use mathlib.Core.List.{List, [], ◌∷◌, ◌++◌, map}
pub use native.Mathlib.Omega.{arith}
pub use text.Mathlib.Text.{◌==◌ as same_text, starts_with}
pub use text.Mathlib.TextEquality.{eq_iff}
