-- ===== src/Base.antt =====
-- Names that every component shares: those of the libraries, passed on, and those of the children,
-- which hold tests on numbers, list helpers, signed integers, 64-bit words, and the standard
-- containers that the C++ code uses (`std::map` and `std::unordered_map`).
mod Tests
mod Lists
mod Fallible
pub mod Int
pub mod Word
pub mod Assoc
pub mod SortedMap
pub mod Bytes
pub use Tests.*
pub use Lists.*
pub use Fallible.*
pub use Prim.Native.Nat.{ℕ, zero, suc, ◌+◌, ◌-◌, ◌*◌, ◌/◌, ◌%◌, ◌^◌, ◌≤◌, ◌<◌, min}
pub use Prim.Native.String.{String}
pub use mathlib.Core.Path.{◌≡◌, refl, sym, ap, subst, ◌∙◌, fun_ext}
pub use mathlib.Core.Logic.{◌≢◌, ◌↔◌, ◌⊎◌, inl, inr}
pub use mathlib.Core.Bool.{Bool, true, false, not, ◌&&◌, ◌||◌}
pub use mathlib.Core.Option.{Option, none, some}
pub use mathlib.Core.List.{List, [], ◌∷◌, ◌++◌, map}
pub use native.Mathlib.Omega.{arith}
