-- ===== src/SizeClass.antt =====
-- The size classes of libkernel/include/ota.h, which mirror the bins of mimalloc.
pub mod Bounds
pub mod Index
mod Tests
use budalloc.Prelude.{
  ℕ, ◌+◌, ◌-◌, ◌*◌, ◌/◌, ◌^◌, leb, ◌==◌, if◌then◌else◌, clear_low, size_max, int_minus_one,
}

-- `size_to_usable_size`: the bytes that an allocation of `size` bytes occupies, or `(size_t)-1`
-- above 0x10000. No sum here wraps, since each is taken below the bound tested before it.
pub size_to_usable_size : ℕ → ℕ
size_to_usable_size size =
    if leb size 0x8
    then 0x8
    else if leb size 0x80
    then clear_low (size + 0xf) 4
    else if leb size 0x100
    then clear_low (size + 0x1f) 5
    else if leb size 0x200
    then clear_low (size + 0x3f) 6
    else if leb size 0x400
    then clear_low (size + 0x7f) 7
    else if leb size 0x800
    then clear_low (size + 0xff) 8
    else if leb size 0x1000
    then clear_low (size + 0x1ff) 9
    else if leb size 0x2000
    then clear_low (size + 0x3ff) 10
    else if leb size 0x4000
    then clear_low (size + 0x7ff) 11
    else if leb size 0x8000
    then clear_low (size + 0xfff) 12
    else if leb size 0x10000
    then clear_low (size + 0x1fff) 13
    else size_max

-- `size_to_reservation_index`, an `int` by its bit pattern. The last row adds 0x3ff, as the source
-- does, and not 0x1fff.
unfoldable pub size_to_reservation_index : ℕ → ℕ
size_to_reservation_index size =
    if leb size 0x8
    then 0
    else if leb size 0x80
    then (size + 0xf) / 2 ^ 4
    else if leb size 0x100
    then 4 + (size + 0x1f) / 2 ^ 5
    else if leb size 0x200
    then 8 + (size + 0x3f) / 2 ^ 6
    else if leb size 0x400
    then 12 + (size + 0x7f) / 2 ^ 7
    else if leb size 0x800
    then 16 + (size + 0xff) / 2 ^ 8
    else if leb size 0x1000
    then 20 + (size + 0x1ff) / 2 ^ 9
    else if leb size 0x2000
    then 24 + (size + 0x3ff) / 2 ^ 10
    else if leb size 0x4000
    then 28 + (size + 0x7ff) / 2 ^ 11
    else if leb size 0x8000
    then 32 + (size + 0xfff) / 2 ^ 12
    else if leb size 0x10000
    then 36 + (size + 0x3ff) / 2 ^ 13
    else int_minus_one

-- `index_to_max_usable_size`, on the indices that are not negative: every caller masks the index by
-- 63 or counts it up from 0.
unfoldable pub index_to_max_usable_size : ℕ → ℕ
index_to_max_usable_size index =
    if index == 0
    then 0x8
    else if leb index 8
    then index * 2 ^ 4
    else if leb index 12
    then (index - 4) * 2 ^ 5
    else if leb index 16
    then (index - 8) * 2 ^ 6
    else if leb index 20
    then (index - 12) * 2 ^ 7
    else if leb index 24
    then (index - 16) * 2 ^ 8
    else if leb index 28
    then (index - 20) * 2 ^ 9
    else if leb index 32
    then (index - 24) * 2 ^ 10
    else if leb index 36
    then (index - 28) * 2 ^ 11
    else if leb index 40
    then (index - 32) * 2 ^ 12
    else if leb index 44
    then (index - 36) * 2 ^ 13
    else size_max
