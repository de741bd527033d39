-- ===== src/Base.antt =====
-- Names that the other modules share: the libraries', passed on, Boolean tests, equality by an
-- instance, lists measured by native numbers, and dictionaries for Go's maps.
mod Tests
mod Equality
mod Lists
pub mod Dict
pub mod Outcome
pub use Tests.*
unfoldable pub use Equality.*
pub use Lists.*
pub use Prim.Native.Nat.{ℕ, zero, suc, ◌+◌, ◌-◌, ◌*◌, ◌/◌, ◌%◌, ◌^◌, ◌≤◌, ◌<◌}
pub use Prim.Native.String.{String, ◌++◌ as ◌<>◌}
pub use mathlib.Core.Path.{◌≡◌, refl, sym, ap, ◌∙◌}
pub use mathlib.Core.Logic.{◌≢◌, ◌↔◌, ◌⊎◌, inl, inr}
pub use mathlib.Core.Bool.{Bool, true, false, ◌&&◌, ◌||◌, not}
pub use mathlib.Core.Option.{Option, none, some}
pub use mathlib.Core.List.{List, [], ◌∷◌, ◌++◌, map, foldl}
pub use native.Mathlib.Omega.{arith}
