-- ===== src/Prelude.antt =====
-- The names that the modules of the library share.
mod Tests
mod Arrays
mod Words
mod Division
pub mod Bits
pub use Tests.*
pub use Arrays.{
  update, length, length-append, update_self, update_ne, for_range_inv, for_range_none,
  for_range_once,
}
unfoldable pub use Arrays.{for_range}
pub use Words.{u32_size, u8, u32, sub32, u32_of_lt, sub32_of_le}
unfoldable pub use Words.{u64, sub64}
pub use Division.*
pub use Prim.Native.Nat.{ℕ, zero, suc, ◌+◌, ◌-◌, ◌*◌, ◌/◌, ◌%◌, ◌^◌, ◌≤◌, ◌<◌}
pub use mathlib.Core.Path.{◌≡◌, refl, sym, ap, ◌∙◌}
pub use mathlib.Core.Logic.{◌≢◌, ◌↔◌, ◌⊎◌, inl, inr}
pub use mathlib.Core.Bool.{Bool, true, false, not, ◌&&◌, ◌||◌}
pub use mathlib.Core.Option.{Option, none, some}
pub use mathlib.Core.List.{List, [], ◌∷◌, ◌++◌}
pub use native.Mathlib.Omega.{arith}
