-- ===== src/Base.antt =====
-- The names that the other modules share: the libraries', passed on, and those of nine children.
-- Of the C library it models `%llu` (`Decimal`).
mod Tests
mod Lists
mod Words
mod Decimal
mod Integers
mod Unsigned
mod Codes
mod Bits
mod Printed
pub use Tests.*
pub use Lists.*
pub use Words.*
unfoldable pub use Decimal.*
unfoldable pub use Unsigned.*
pub use Integers.*
unfoldable pub use Codes.*
pub use Bits.*
pub use Printed.*
pub use Prim.Native.Nat.{
  ℕ, zero, suc, ◌+◌, ◌-◌, ◌*◌, ◌/◌, ◌%◌, ◌^◌, ◌≤◌, ◌<◌, min, bit_and, bit_or, bit_xor,
}
pub use mathlib.Core.Path.{◌≡◌, refl, sym, ap, ap₂, ◌∙◌}
pub use mathlib.Core.Logic.{◌≢◌, ◌↔◌, ◌⊎◌, inl, inr}
pub use mathlib.Core.Bool.{Bool, true, false, not, ◌&&◌, ◌||◌}
pub use mathlib.Core.Option.{Option, none, some}
pub use mathlib.Core.List.{List, [], ◌∷◌, ◌++◌}
pub use native.Mathlib.Omega.{arith}
