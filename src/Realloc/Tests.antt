-- ===== src/Realloc/Tests.antt =====
-- Runs of realloc and memalign, and the theorems at concrete ones.
use budalloc.Prelude.{
  ℕ, ◌+◌, ◌*◌, ◌^◌, ◌<◌, ◌≤◌, ◌≡◌, ◌⊎◌, refl, true, false, not, ◌&&◌, none, some, [], ◌∷◌, ltb, leb,
  ◌==◌, if◌then◌else◌, arith,
}
use budalloc.Realloc.{
  lock, unlock, malloc, free, usable_size, memcpy, canonical_malloc, canonical_memalign, move_block,
  ota_realloc, ota_reallocarray, ctz, bits_of, alignment_for, memalign_block, ota_aligned_alloc,
  ota_posix_memalign, ota_memalign, one_shifted,
}
use budalloc.Realloc.Moves.{held, ota_realloc-held, ota_reallocarray-exact}
use budalloc.Realloc.Alignment.{alignment_for-bounds}

-- Every block has 64 bytes, and a new one lies at 0x9000.
abbrev small_block : ℕ → ℕ
small_block p = 64

abbrev fresh : ℕ → ℕ
fresh size = 0x9000

grows : ota_realloc small_block fresh 0x5000 100 ≡ (
  0x9000,
  lock
      ∷ usable_size 0x5000
      ∷ malloc 100
      ∷ unlock
      ∷ memcpy 0x9000 0x5000 64
      ∷ lock
      ∷ free 0x5000
      ∷ unlock
      ∷ [],
)
unfolding ota_realloc move_block
grows = refl

-- 24 is rounded to 32, 4096 stays, 8192 is refused, and 5000 is rounded to it.
rounds_up : alignment_for 24 100 ≡ some 32
unfolding alignment_for ctz bits_of one_shifted
rounds_up = refl

keeps_page : alignment_for 4096 100 ≡ some 4096
unfolding alignment_for ctz bits_of one_shifted
keeps_page = refl

refuses_two_pages : alignment_for 8192 100 ≡ none
unfolding alignment_for ctz bits_of one_shifted
refuses_two_pages = refl

takes_more_than_a_page : alignment_for 5000 100 ≡ some 8192
unfolding alignment_for ctz bits_of one_shifted
takes_more_than_a_page = refl

no_bytes_is_invalid :
    ota_posix_memalign (λ s. 0x9000) (λ s a. 0xa000) (λ c. c + 0x40) 64 0
    ≡ (22, 0, lock ∷ unlock ∷ [])
unfolding ota_posix_memalign ota_memalign ota_aligned_alloc memalign_block alignment_for
no_bytes_is_invalid = refl

-- An alignment of 4 is below MIN_ALLOC_SIZE.
small_alignment :
    (ota_memalign (λ s. 0x9000) (λ s a. 0xa000) (λ c. c + 0x40) 4 100
      ≡ (0x9040, lock ∷ canonical_malloc 100 ∷ unlock ∷ []))
    × (ota_memalign (λ s. 0x9000) (λ s a. 0xa000) (λ c. c + 0x40) 24 100
        ≡ (0xa040, lock ∷ canonical_memalign 100 32 ∷ unlock ∷ []))
unfolding ota_memalign ota_aligned_alloc memalign_block alignment_for ctz bits_of one_shifted
small_alignment = (refl, refl)

ota_realloc-held_example :
    (held 0 (ota_realloc small_block fresh 0x5000 10).1
      ≡ some (
          if not (◌==◌ 0x5000 0) && (not (◌==◌ 10 0) && leb 10 (small_block 0x5000)) then 1 else 0))
    × ((ota_realloc small_block fresh 0x5000 10).0 ≡ (
        if not (◌==◌ 0x5000 0) && (not (◌==◌ 10 0) && leb 10 (small_block 0x5000))
        then 0x5000
        else if not (◌==◌ 0x5000 0) && (◌==◌ 10 0)
        then 0
        else fresh 10))
ota_realloc-held_example = ota_realloc-held small_block fresh 0x5000 10

ota_reallocarray-exact_example : ota_reallocarray small_block fresh 0x5000 (2 ^ 40) (2 ^ 30) ≡ (
    if ltb (2 ^ 40 * 2 ^ 30) (2 ^ 64)
    then (
      (ota_realloc small_block fresh 0x5000 (2 ^ 40 * 2 ^ 30)).0,
      (ota_realloc small_block fresh 0x5000 (2 ^ 40 * 2 ^ 30)).1,
      false,
    )
    else (0, [], true))
ota_reallocarray-exact_example =
    ota_reallocarray-exact small_block fresh 0x5000 (2 ^ 40) (2 ^ 30) (omega arith) (omega arith)

alignment_for-bounds_example :
    ((alignment_for 24 100 ≡ none) × (2 ^ 13 ≤ 24))
    ⊎ ((a : ℕ) × (alignment_for 24 100 ≡ some a) × (24 ≤ a) × (a < 2 * 24))
alignment_for-bounds_example =
    alignment_for-bounds 24 100 (omega arith) (omega arith) (omega arith) (omega arith)
