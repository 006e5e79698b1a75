-- ===== src/Prelude.antt =====
-- What the other modules share: names of the libraries, Boolean tests, lists measured by native
-- numbers, and the outcome of C code that may fault or not end.
mod Tests
mod Lists
mod Places
mod Posts
mod Outcomes
mod Int
pub use Tests.*
pub use Lists.*
unfoldable pub use Lists.{replicate}
pub use Places.*
pub use Posts.*
pub use Outcomes.*
pub use Int.*
pub use Prim.Native.Nat.{ℕ, zero, suc, ◌+◌, ◌-◌, ◌*◌, ◌/◌, ◌%◌, ◌^◌, ◌≤◌, ◌<◌, min}
pub use mathlib.Core.Path.{◌≡◌, refl, sym, ap, ap₂, ◌∙◌, subst}
pub use mathlib.Core.Logic.{◌≢◌, ◌↔◌, ◌⊎◌, inl, inr}
pub use mathlib.Core.Bool.{Bool, true, false, not, ◌&&◌, ◌||◌}
pub use mathlib.Core.Option.{Option, none, some, some-injective}
pub use mathlib.Core.List.{List, [], ◌∷◌, ◌++◌, map, reverse, append-nil, append_assoc}
pub use native.Mathlib.Omega.{arith}
pub use native.Mathlib.Numerals.{add-one}
