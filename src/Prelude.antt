-- ===== src/Prelude.antt =====
-- The names that the other modules share: the libraries', passed on, and those of its children.
mod Bools
mod Words
mod Lists
mod Tables
mod Masks
mod Fields
pub use Bools.*
pub use Words.*
pub use Lists.*
pub use Masks.{bit_and-complement, bit_and-complement-whole}
pub use Fields.{bit_or-above, bit_or_step, bit_or-none, low_bits, high_bits, bit_or-low_bits}
unfoldable pub use Tables.{passes}
pub use Tables.{passes-each}
pub use Prim.Native.Nat.{ℕ, zero, suc, ◌+◌, ◌-◌, ◌*◌, ◌/◌, ◌%◌, ◌^◌, ◌≤◌, ◌<◌}
pub use mathlib.Core.Path.{◌≡◌, refl, sym, ap, ◌∙◌}
pub use mathlib.Core.Logic.{◌≢◌, ◌↔◌, ◌⊎◌, inl, inr}
pub use mathlib.Core.Bool.{Bool, true, false, not, ◌&&◌, ◌||◌}
pub use mathlib.Core.Option.{Option, none, some}
pub use mathlib.Core.List.{List, [], ◌∷◌, ◌++◌, map}
pub use native.Mathlib.Omega.{arith}
