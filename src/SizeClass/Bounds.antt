-- ===== src/SizeClass/Bounds.antt =====
-- The rounding of a size to its class: its bounds and its order.
use budalloc.Prelude.{ℕ, ◌+◌, ◌/◌, ◌%◌, ◌≤◌, ◌≡◌, arith}
use budalloc.SizeClass.{size_to_usable_size}

-- For every size from 9 to 0x10000 the usable size holds the size, is a multiple of 16, exceeds the
-- size by at most 15 bytes and a quarter of it, and lies in the supported range.
pub usable_bounds :
    (size : ℕ)
    → 9 ≤ size
    → size ≤ 0x10000
    → (size ≤ size_to_usable_size size)
      × (size_to_usable_size size % 16 ≡ 0)
      × (size_to_usable_size size ≤ size + 15 + size / 4)
      × (size_to_usable_size size ≤ 0x10000)
unfolding size_to_usable_size
usable_bounds size lo hi = ground arith

-- Rounding is monotone on the sizes up to 0x10000.
usable_mono : (a b : ℕ) → a ≤ b → b ≤ 0x10000 → size_to_usable_size a ≤ size_to_usable_size b
unfolding size_to_usable_size
usable_mono a b h hi = ground arith
