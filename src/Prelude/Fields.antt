-- ===== src/Prelude/Fields.antt =====
-- `|` of words, one digit after the other, and with a field that lies above or is 0 below.
use Prim.Native.Nat.{
  ℕ, zero, suc, ◌+◌, ◌*◌, ◌/◌, ◌%◌, ◌^◌, ◌≤◌, ◌<◌, max, bit_or, digits, bit_or-bitwise,
}
use mathlib.Core.Path.{◌≡◌, refl, ◌∙◌}
use native.Mathlib.Nat.{pow-suc}
use native.Mathlib.Omega.{arith}

abbrev or_on : ℕ → ℕ → ℕ → ℕ
or_on n a b = digits (λ b. b) max n a b

or_on_fuel : (n m a b : ℕ) → a ≤ n → a ≤ m → or_on n a b ≡ or_on m a b
or_on_fuel zero zero a b p q = refl
or_on_fuel zero (suc m) zero b p q = refl
or_on_fuel zero (suc m) (suc a) b p q = absurd (omega arith)
or_on_fuel (suc n) zero zero b p q = refl
or_on_fuel (suc n) zero (suc a) b p q = absurd (omega arith)
or_on_fuel (suc n) (suc m) zero b p q = refl
or_on_fuel (suc n) (suc m) (suc a) b p q =
    omega (arith, or_on_fuel n m (suc a / 2) (b / 2) (omega arith) (omega arith))

pub bit_or_step : (a b : ℕ) → bit_or a b ≡ bit_or (a / 2) (b / 2) * 2 + max (a % 2) (b % 2)
bit_or_step zero b = omega (arith, bit_or-bitwise 0 b, bit_or-bitwise (0 / 2) (b / 2))
bit_or_step (suc a) b = omega (
  arith,
  bit_or-bitwise (suc a) b,
  bit_or-bitwise (suc a / 2) (b / 2),
  or_on_fuel a (suc a / 2) (suc a / 2) (b / 2) (omega arith) (omega arith),
)

or_on-none : (n a : ℕ) → a ≤ n → or_on n a 0 ≡ a
or_on-none zero zero h = refl
or_on-none zero (suc a) h = absurd (omega arith)
or_on-none (suc n) zero h = refl
or_on-none (suc n) (suc a) h = omega (arith, or_on-none n (suc a / 2) (omega arith))

pub bit_or-none : (a : ℕ) → bit_or a 0 ≡ a
bit_or-none a = bit_or-bitwise a 0 ∙ or_on-none a a (omega arith)

twice_times : (y p q : ℕ) → q ≡ p * 2 → y * q ≡ (y * p) * 2
twice_times y p q e = grind arith

or_on-above : (k n a y : ℕ) → a ≤ n → a < 2 ^ k → or_on n a (y * 2 ^ k) ≡ a + y * 2 ^ k
or_on-above k zero zero y p q = omega arith
or_on-above k zero (suc a) y p q = absurd (omega arith)
or_on-above k (suc n) zero y p q = omega arith
or_on-above zero (suc n) (suc a) y p q = absurd (omega arith)
or_on-above (suc k) (suc n) (suc a) y p q =
    let d = pow-suc 2 k in
    let e = twice_times y (2 ^ k) (2 ^ suc k) (omega (arith, d)) in
    let half : (y * 2 ^ suc k) / 2 ≡ y * 2 ^ k = omega (arith, e) in
    let even : (y * 2 ^ suc k) % 2 ≡ 0 = omega (arith, e) in
    let low = or_on-above k n (suc a / 2) y (omega arith) (omega (arith, d)) in
    rw (half, even) (ground (arith, low, e))

pub bit_or-above : (k a y : ℕ) → a < 2 ^ k → bit_or a (y * 2 ^ k) ≡ a + y * 2 ^ k
bit_or-above k a y p = bit_or-bitwise a (y * 2 ^ k) ∙ or_on-above k a a y (omega arith) p

-- The `k` lowest bits, and the bits above.
abbrev pub low_bits : ℕ → ℕ → ℕ
low_bits zero a = 0
low_bits (suc k) a = low_bits k (a / 2) * 2 + a % 2

abbrev pub high_bits : ℕ → ℕ → ℕ
high_bits zero a = a
high_bits (suc k) a = high_bits k (a / 2)

pub bit_or-low_bits :
    (k a y : ℕ) → bit_or a (y * 2 ^ k) ≡ bit_or (high_bits k a) y * 2 ^ k + low_bits k a
bit_or-low_bits zero a y = let e : y * 2 ^ 0 ≡ y = omega arith in rw e (omega arith)
bit_or-low_bits (suc k) a y =
    let d = pow-suc 2 k in
    let e = twice_times y (2 ^ k) (2 ^ suc k) (omega (arith, d)) in
    let f = twice_times (bit_or (high_bits k (a / 2)) y) (2 ^ k) (2 ^ suc k) (omega (arith, d)) in
    let half : (y * 2 ^ suc k) / 2 ≡ y * 2 ^ k = omega (arith, e) in
    let even : (y * 2 ^ suc k) % 2 ≡ 0 = omega (arith, e) in
    let step : bit_or a (y * 2 ^ suc k) ≡ bit_or (a / 2) (y * 2 ^ k) * 2 + max (a % 2) 0 =
      bit_or_step a (y * 2 ^ suc k) ∙ rw (half, even) refl in
    omega (arith, step, bit_or-low_bits k (a / 2) y, f)
