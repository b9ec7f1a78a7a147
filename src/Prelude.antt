-- ===== src/Prelude.antt =====
-- The names that the other modules share: the libraries', passed on, and those of the children.
-- Child Tests: Boolean tests. Child Lists: lists measured by native numbers. Child Errors: Go
-- error values. Child Texts: formatted text. Child Actions: fallible code over explicit state.
-- Child Keeping: what such code leaves alone. Child Integers: integers over native
-- numbers. Child Maps: Go's map[string]string. Models idioms of the whole repository and no file of it.
mod Tests
mod Lists
mod Errors
mod Actions
mod Keeping
mod Maps
mod Integers
mod Texts
pub use Tests.*
pub use Lists.*
pub use Errors.*
pub use Actions.*
pub use Keeping.{Keeps, Keeps-bind}
pub use Maps.{StringMap, lookup-insert}
unfoldable pub use Maps.{lookup, insert}
pub use Integers.*
pub use Texts.{concat, trim_prefix, quote}
unfoldable pub use Texts.{join, decimal}
pub use Prim.Native.Nat.{ℕ, zero, suc, ◌+◌, ◌-◌, ◌*◌, ◌≤◌, ◌<◌, min, max}
pub use Prim.Native.String.{String}
pub use mathlib.Core.Path.{◌≡◌, refl, sym, ap, ◌∙◌, subst}
pub use mathlib.Core.Logic.{◌≢◌, ◌↔◌, ◌⊎◌, inl, inr}
pub use mathlib.Core.Bool.{Bool, true, false, not, ◌&&◌, ◌||◌}
pub use mathlib.Core.Option.{Option, none, some}
pub use mathlib.Core.List.{List, [], ◌∷◌, ◌++◌, map}
pub use native.Mathlib.Omega.{arith}
pub use text.Mathlib.Text.{◌==◌}
pub use text.Mathlib.TextEquality.{eq_iff}
pub use text.Mathlib.TextPositions.{eq_refl}
