-- ===== src/Base.antt =====
-- The names that every other module shares: the library's, passed on, and those of the children.
mod Tests
mod Lists
mod Outcome
mod Octets
mod Library
mod Integers
pub mod Decimal
pub use Tests.*
pub use Lists.*
pub use Outcome.*
pub use Octets.*
pub use Library.*
pub use Integers.*
unfoldable pub use Integers.{int_eq, int_le}
unfoldable pub use Octets.{bytes_eq, contains, little_endian, big_endian_onto, big_endian}
pub use Prim.Native.Nat.{ℕ, zero, suc, ◌+◌, ◌-◌, ◌*◌, ◌/◌, ◌%◌, ◌^◌, ◌≤◌, ◌<◌}
pub use mathlib.Core.Path.{◌≡◌, refl, sym, ap, subst, ◌∙◌}
pub use mathlib.Core.Logic.{◌≢◌, ◌↔◌, ◌⊎◌, inl, inr}
pub use mathlib.Core.Bool.{Bool, true, false, not, ◌&&◌, ◌||◌}
pub use mathlib.Core.Option.{Option, none, some}
pub use mathlib.Core.List.{List, [], ◌∷◌, ◌++◌, map, reverse, append-nil, append_assoc}
pub use native.Mathlib.Omega.{arith}
