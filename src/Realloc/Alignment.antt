-- ===== src/Realloc/Alignment.antt =====
-- Which alignment memalign asks for.
use budalloc.Prelude.{
  ℕ, zero, suc, ◌+◌, ◌-◌, ◌*◌, ◌/◌, ◌%◌, ◌^◌, ◌<◌, ◌≤◌, ◌≡◌, ◌⊎◌, refl, ap, false, ◌||◌, none, some,
  ltb, leb, ◌==◌, arith, Bool-cases, inl, inr, size_max,
}
use native.Mathlib.Nat.{pow-suc}
use budalloc.Realloc.{ctz, bits_of, one_shifted, alignment_for}

-- The highest bit: `x` lies below 2 ^ (bits_of x), and from half of that on where it is not 0.
bits_of-bounds :
    (n x : ℕ)
    → x < 2 ^ n
    → (x < 2 ^ bits_of n x) × (0 < x → 2 ^ bits_of n x ≤ 2 * x) × (x ≡ 0 → 2 ^ bits_of n x ≡ 1)
unfolding bits_of
bits_of-bounds zero x h = (h, λ p. absurd (omega arith), λ e. refl)
bits_of-bounds (suc n) x h = elim (Bool-cases (x == 0)) [
  | inl e ↦ rw e (ground (arith, e), λ p. absurd (ground (arith, e)), λ z. refl)
  | inr e ↦
      let (low, high, least) = bits_of-bounds n (x / 2) (omega (arith, h, pow-suc 2 n)) in
      let d = pow-suc 2 (bits_of n (x / 2)) in
      rw e (
        omega (arith, low, d),
        λ p. elim (Bool-cases (x == 1)) [
          | inl f ↦ omega (arith, d, least (ground (arith, f)), p)
          | inr f ↦ omega (arith, d, high (ground (arith, e, f)))
        ],
        λ z. absurd (ground (arith, e)),
      )
]

large_power : (d : ℕ) → 2 ^ 13 ≤ 2 ^ (d + 13)
large_power zero = omega arith
large_power (suc d) =
    let e : suc d + 13 ≡ suc (d + 13) = omega arith in
    rw e (omega (arith, pow-suc 2 (d + 13), large_power d))

-- For an alignment from 1 to below 2 ^ 31 and a size that is neither 0 nor SIZE_MAX - PAGE_SIZE or
-- more: the alignment that `__ota_memalign` goes on with is at least that and less than twice it, and
-- it answers NULL only for an alignment of 2 ^ 13 or more.
pub alignment_for-bounds :
    (alignment size : ℕ)
    → 0 < alignment
    → alignment < 2 ^ 31
    → 0 < size
    → size < size_max - 4096
    → ((alignment_for alignment size ≡ none) × (2 ^ 13 ≤ alignment))
      ⊎ ((a : ℕ) × (alignment_for alignment size ≡ some a) × (alignment ≤ a) × (a < 2 * alignment))
unfolding alignment_for one_shifted
alignment_for-bounds alignment size pos small some_bytes room =
    let e : (size == 0 || leb (size_max - 4096) size) ≡ false = ground (arith, some_bytes, room) in
    let g : alignment % 2 ^ 32 ≡ alignment = omega (arith, small) in
    let h : (alignment - 1) % 2 ^ 32 ≡ alignment - 1 = omega (arith, small) in
    let (low, high, least) = bits_of-bounds 32 (alignment - 1) (omega (arith, small)) in
    rw (e, g, h)
      (elim (Bool-cases (one_shifted (ctz 32 alignment) == alignment)) [
        | inl f ↦ rw f (elim (Bool-cases (ltb 12 (ctz 32 alignment))) [
          | inl k ↦ rw k (
              inl (
                refl,
                (let k' = ctz 32 alignment - 13 in
                    let e' : k' + 13 ≡ ctz 32 alignment = ground (arith, k) in
                    let at : 2 ^ ctz 32 alignment ≡ alignment = ground (arith, f, small) in
                    omega (arith, at, ap (λ (t : ℕ). 2 ^ t) e', large_power k')),
              ))
          | inr k ↦ rw k (inr (alignment, refl, omega arith, omega (arith, pos)))
        ])
        | inr f ↦ rw f (
            inr (
              2 ^ bits_of 32 (alignment - 1),
              refl,
              omega (arith, low),
              elim (Bool-cases (alignment == 1)) [
                | inl t ↦ ground (arith, t, least)
                | inr t ↦ ground (arith, t, high, pos)
              ],
            ))
      ])
