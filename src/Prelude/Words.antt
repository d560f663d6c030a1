-- ===== src/Prelude/Words.antt =====
-- Machine words as native numbers, and the page constants of memory.h.
use Prim.Native.Nat.{ℕ, ◌+◌, ◌-◌, ◌*◌, ◌/◌, ◌%◌, ◌^◌}

-- 2 ^ 64 and 2 ^ 32: arithmetic on `uint64_t` and `unsigned int` is taken modulo these.
abbrev pub u64_mod : ℕ
u64_mod = 2 ^ 64

abbrev pub u32_mod : ℕ
u32_mod = 2 ^ 32

-- The 64-bit pattern of `(size_t)-1`, which is also SIZE_MAX, VADDR_MAX and VADDR_INV.
abbrev pub size_max : ℕ
size_max = 2 ^ 64 - 1

-- The 32-bit pattern of the `int` -1.
abbrev pub int_minus_one : ℕ
int_minus_one = 2 ^ 32 - 1

abbrev pub add64 : ℕ → ℕ → ℕ
add64 a b = (a + b) % 2 ^ 64

abbrev pub sub64 : ℕ → ℕ → ℕ
sub64 a b = (a + 2 ^ 64 - b) % 2 ^ 64

-- `x & ~(2 ^ k - 1)`
abbrev pub clear_low : ℕ → ℕ → ℕ
clear_low x k = x / 2 ^ k * 2 ^ k

abbrev pub page_size : ℕ
page_size = 4096
