-- ===== src/Support.antt =====
-- The names that the other modules share: the libraries', passed on, and those of the children,
-- which model the Go standard library (maps, slices, package strings) where the code uses it.
mod Tests
mod Lists
pub mod Maps
pub mod Text
pub mod Results
pub mod Strconv
pub mod Hex
pub mod Paths
pub mod Relative
pub use Tests.*
pub use Lists.{length, length-append, get_or, set, take, drop, All, All-map}
unfoldable pub use Lists.{keep, any}
pub use Prim.Native.Nat.{compare, Ordering}
pub use Prim.Native.Nat.{ℕ, zero, suc, ◌+◌, ◌-◌, ◌*◌, ◌/◌, ◌%◌, ◌^◌, ◌≤◌, ◌<◌, min, max}
pub use mathlib.Core.Path.{◌≡◌, refl, sym, ap, subst, ◌∙◌}
pub use mathlib.Core.Logic.{◌≢◌, ◌↔◌, ◌⊎◌, inl, inr}
pub use mathlib.Core.Bool.{Bool, true, false, not, ◌&&◌, ◌||◌}
pub use mathlib.Core.Option.{Option, none, some}
pub use mathlib.Core.List.{List, [], ◌∷◌, ◌++◌, map, append-nil, append_assoc, reverse}
pub use native.Mathlib.Omega.{arith}
