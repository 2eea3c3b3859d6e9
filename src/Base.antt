-- ===== src/Base.antt =====
-- The names that the other modules share: the libraries', passed on, and those of the children.
mod Tests
mod Lists
mod Bytes
mod Int
mod Results
pub mod Members
pub mod Pigeonhole
pub mod Space
pub mod Case
pub mod Order
pub mod Maps
pub mod Compact
pub mod Clock
pub mod Json
pub mod Format
pub use Tests.*
pub use Lists.*
pub use Bytes.{is_empty, text_eq_iff, text_eq_refl}
unfoldable pub use Bytes.{Text, lit, text_eq}
pub use Int.{int32-small}
unfoldable pub use Int.{int32}
pub use Int.{ℤ, pos, negsuc, lt_int, is_nonpos, pos_part}
pub use Results.*
pub use Prim.Native.Nat.{ℕ, zero, suc, ◌+◌, ◌-◌, ◌*◌, ◌/◌, ◌%◌, ◌^◌, ◌≤◌, ◌<◌}
pub use Prim.Native.String.{String}
pub use mathlib.Core.Path.{◌≡◌, refl, sym, ap, ◌∙◌}
pub use mathlib.Core.Logic.{◌≢◌, ◌↔◌, ◌⊎◌, inl, inr}
pub use mathlib.Core.Bool.{Bool, true, false, ◌&&◌, ◌||◌, not}
pub use mathlib.Core.Option.{Option, none, some}
pub use mathlib.Core.List.{List, [], ◌∷◌, ◌++◌, map, reverse}
pub use native.Mathlib.Omega.{arith}
