-- ===== src/Base.antt =====
-- The names that the modules of this library share: the libraries' own, passed on, and those of
-- the children (tests on numbers, lists over the native numbers, results, bytes, byte strings).
mod Tests
mod Lists
mod Results
pub mod Bytes
pub mod Layout
pub mod Slices
pub mod Pow
pub mod Padding
pub mod Bindings
pub mod Assoc
pub mod Sort
pub mod Best
pub mod Filters
pub mod Text
pub use Tests.*
pub use Lists.*
pub use Results.*
pub use Prim.Native.Nat.{ℕ, zero, suc, ◌+◌, ◌-◌, ◌*◌, ◌/◌, ◌%◌, ◌^◌, ◌≤◌, ◌<◌}
pub use mathlib.Core.Path.{◌≡◌, refl, sym, ap, ◌∙◌}
pub use mathlib.Core.Logic.{◌≢◌, ◌↔◌, ◌⊎◌, inl, inr}
pub use mathlib.Core.Bool.{Bool, true, false, not, ◌&&◌, ◌||◌}
pub use mathlib.Core.Option.{Option, none, some}
pub use mathlib.Core.List.{List, [], ◌∷◌, ◌++◌, map}
pub use native.Mathlib.Omega.{arith}
