-- ===== src/SizeClass/Tests.antt =====
-- Runs of the size classes, and the theorems at concrete sizes.
use budalloc.Prelude.{◌<◌, ◌≡◌, refl, arith, size_max, int_minus_one}
use budalloc.SizeClass.{size_to_usable_size, size_to_reservation_index, index_to_max_usable_size}
use budalloc.SizeClass.Index.{top_index_too_small}

-- Rows of the table in the comment of ota.h.
header_rows :
    (size_to_usable_size 0xa1 ≡ 0xc0)
    × (size_to_reservation_index 0xa1 ≡ 10)
    × (size_to_usable_size 0xe01 ≡ 0x1000)
    × (size_to_reservation_index 0xe01 ≡ 28)
    × (size_to_usable_size 0x10001 ≡ size_max)
    × (size_to_reservation_index 0x10001 ≡ int_minus_one)
unfolding size_to_usable_size size_to_reservation_index
header_rows = (refl, refl, refl, refl, refl, refl)

top_index_too_small_example : index_to_max_usable_size (size_to_reservation_index 0x8001) < 0x8001
top_index_too_small_example =
    top_index_too_small 0x8001 (omega arith) (omega arith) (omega arith) (omega arith)
