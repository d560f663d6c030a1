-- ===== src/Prelude/Masks.antt =====
-- `&` with a mask and with its complement.
use Prim.Native.Nat.{
  ℕ, zero, suc, ◌+◌, ◌-◌, ◌*◌, ◌/◌, ◌%◌, ◌^◌, ◌≤◌, ◌<◌, min, bit_and, digits, bit_and-bitwise,
}
use mathlib.Core.Path.{◌≡◌}
use native.Mathlib.Nat.{pow-suc}
use native.Mathlib.Omega.{arith}

abbrev and_on : ℕ → ℕ → ℕ → ℕ
and_on n a b = digits (λ b. zero) min n a b

-- The digits of `a` under a mask and under its complement add up to `a`.
and_on_parts :
    (w n a m c : ℕ) → a ≤ n → a < 2 ^ w → m + c + 1 ≡ 2 ^ w → and_on n a m + and_on n a c ≡ a
and_on_parts w zero zero m c p q e = omega arith
and_on_parts w zero (suc a) m c p q e = absurd (omega arith)
and_on_parts w (suc n) zero m c p q e = omega arith
and_on_parts zero (suc n) (suc a) m c p q e = absurd (omega arith)
and_on_parts (suc w) (suc n) (suc a) m c p q e =
    let d = pow-suc 2 w in
    omega (
      arith,
      d,
      and_on_parts w n (suc a / 2) (m / 2) (c / 2) (omega arith) (omega (arith, d))
          (omega (arith, d)),
    )

and_on-le : (n a m : ℕ) → and_on n a m ≤ m
and_on-le zero a m = omega arith
and_on-le (suc n) zero m = omega arith
and_on-le (suc n) (suc a) m = omega (arith, and_on-le n (suc a / 2) (m / 2))

-- `x & ~(h - 1)` on 64 bits takes less than `h` away, and nothing is added.
pub bit_and-complement :
    (x h : ℕ)
    → x < 2 ^ 64
    → 0 < h
    → h ≤ 2 ^ 64
    → (x < bit_and x (2 ^ 64 - h) + h) × (bit_and x (2 ^ 64 - h) ≤ x)
bit_and-complement x h p q r =
    let whole : and_on x x (2 ^ 64 - h) + and_on x x (h - 1) ≡ x =
      and_on_parts 64 x x (2 ^ 64 - h) (h - 1) (omega arith) p (omega arith) in
    let low : and_on x x (h - 1) ≤ h - 1 = and_on-le x x (h - 1) in
    let e : bit_and x (2 ^ 64 - h) ≡ and_on x x (2 ^ 64 - h) = bit_and-bitwise x (2 ^ 64 - h) in
    omega arith

times_double : (z p q : ℕ) → q ≡ p * 2 → z * q ≡ (z * p) * 2
times_double z p q e = grind arith

-- Under a mask whose `k` lowest bits are 0, a word is a multiple of `2 ^ k`.
and_on-whole : (k n a y : ℕ) → (z : ℕ) × (and_on n a (y * 2 ^ k) ≡ z * 2 ^ k)
and_on-whole k zero a y = (0, omega arith)
and_on-whole k (suc n) zero y = (0, omega arith)
and_on-whole zero (suc n) (suc a) y = (and_on (suc n) (suc a) (y * 2 ^ 0), omega arith)
and_on-whole (suc k) (suc n) (suc a) y =
    let d = pow-suc 2 k in
    let e = times_double y (2 ^ k) (2 ^ suc k) (omega (arith, d)) in
    let half : (y * 2 ^ suc k) / 2 ≡ y * 2 ^ k = omega (arith, e) in
    let even : (y * 2 ^ suc k) % 2 ≡ 0 = omega (arith, e) in
    let (z, i) = and_on-whole k n (suc a / 2) y in
    let f = times_double z (2 ^ k) (2 ^ suc k) (omega (arith, d)) in
    (z, rw (half, even) (ground (arith, i, f)))

-- `x & ~(h - 1)` on 64 bits is a multiple of 4096 where `h` is.
pub bit_and-complement-whole :
    (x h : ℕ) → h % 4096 ≡ 0 → h ≤ 2 ^ 64 → bit_and x (2 ^ 64 - h) % 4096 ≡ 0
bit_and-complement-whole x h e r =
    let m : 2 ^ 64 - h ≡ ((2 ^ 64 - h) / 4096) * 2 ^ 12 = omega (arith, e) in
    let (z, i) = and_on-whole 12 x x ((2 ^ 64 - h) / 4096) in
    let b : bit_and x (2 ^ 64 - h) ≡ and_on x x (2 ^ 64 - h) = bit_and-bitwise x (2 ^ 64 - h) in
    rw b (rw m (omega (arith, i)))
