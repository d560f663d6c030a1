-- ===== src/Realloc.antt =====
-- The entry points of libkernel/src/alloc/alloc_alias.c that stand on the others: `ota_realloc`,
-- `ota_reallocarray`, and of `ota_memalign`, `ota_posix_memalign` and `ota_aligned_alloc` the choice of
-- the alignment, the locks and the answers. `__ota_malloc`, `__ota_free`, `__ota_malloc_usable_size`,
-- `memcpy`, `canonical_malloc` and `canonical_memalign` are calls that are recorded, and their answers
-- are parameters.
pub mod Moves
pub mod Alignment
mod Tests
use budalloc.Prelude.{
  ℕ, zero, suc, ◌+◌, ◌-◌, ◌*◌, ◌/◌, ◌%◌, ◌^◌, Bool, true, false, not, ◌&&◌, ◌||◌, Option, none,
  some, List, [], ◌∷◌, ◌++◌, ltb, leb, ◌==◌, if◌then◌else◌, size_max,
}

-- What an entry point does, in order. `lock` and `unlock` are of `fork_lock`, for reading.
pub data Call : Type 0 where
  lock : Call
  unlock : Call
  malloc : ℕ → Call
  free : ℕ → Call
  usable_size : ℕ → Call
  memcpy : ℕ → ℕ → ℕ → Call
  canonical_malloc : ℕ → Call
  canonical_memalign : ℕ → ℕ → Call

-- `usable` is what `__ota_malloc_usable_size` answers, and `new_block` what `__ota_malloc` does; 0 is NULL.
module _ (usable : ℕ → ℕ) (new_block : ℕ → ℕ) where
  -- The old allocation is too small: a new one is filled from it.
  unfoldable pub move_block : ℕ → ℕ → ℕ × List Call
  move_block ptr size =
      let kept = if ltb (usable ptr) size then usable ptr else size in
      (
        new_block size,
        lock
            ∷ usable_size ptr
            ∷ malloc size
            ∷ unlock
            ∷ memcpy (new_block size) ptr kept
            ∷ lock
            ∷ free ptr
            ∷ unlock
            ∷ [],
      )

  unfoldable pub ota_realloc : ℕ → ℕ → ℕ × List Call
  ota_realloc ptr size =
      if ptr == 0
      then (new_block size, lock ∷ malloc size ∷ unlock ∷ [])
      else if size == 0
      then (0, lock ∷ free ptr ∷ unlock ∷ [])
      else if leb size (usable ptr)
      then (ptr, lock ∷ usable_size ptr ∷ [])
      else move_block ptr size

  -- `errno` is set where the last part is true.
  unfoldable pub ota_reallocarray : ℕ → ℕ → ℕ → ℕ × List Call × Bool
  ota_reallocarray ptr nmemb size =
      if not (nmemb == 0) && ltb (size_max / nmemb) size
      then (0, [], true)
      else (let (ret, calls) = ota_realloc ptr (nmemb * size % 2 ^ 64) in (ret, calls, false))

-- `__builtin_ctz` on a number that is not 0, with the bits left to look at.
unfoldable pub ctz : ℕ → ℕ → ℕ
ctz zero x = 0
ctz (suc n) x = let rest = suc (ctz n (x / 2)) in if x % 2 == 1 then 0 else rest

-- The place of the highest bit, plus 1: `32 - __builtin_clz(x)`.
unfoldable pub bits_of : ℕ → ℕ → ℕ
bits_of zero x = 0
bits_of (suc n) x = let rest = suc (bits_of n (x / 2)) in if x == 0 then 0 else rest

-- The `int` 1 << k as it compares with a `size_t`: at 31 the sign is extended.
unfoldable pub one_shifted : ℕ → ℕ
one_shifted k = if k == 31 then 2 ^ 64 - 2 ^ 31 else 2 ^ k

-- The alignment that `__ota_memalign` goes on with, where it does not answer NULL at once, for an
-- alignment that is not a multiple of 2 ^ 32. The builtins take an `unsigned int`.
unfoldable pub alignment_for : ℕ → ℕ → Option ℕ
alignment_for alignment size =
    let align_order = ctz 32 (alignment % 2 ^ 32) in
    if size == 0 || leb (size_max - 4096) size
    then none
    else if not (one_shifted align_order == alignment)
    then some (2 ^ bits_of 32 ((alignment - 1) % 2 ^ 32))
    else if ltb 12 align_order
    then none
    else some alignment

-- `plain` is what `canonical_malloc` answers for a size, `aligned` what `canonical_memalign` does for a
-- size and an alignment, and `alias_of` the alias that the rest of `__ota_memalign` makes for that
-- canonical address. MIN_ALLOC_SIZE is 8.
module _ (plain : ℕ → ℕ) (aligned : ℕ → ℕ → ℕ) (alias_of : ℕ → ℕ) where
  unfoldable pub memalign_block : ℕ → Option ℕ → ℕ × List Call
  memalign_block size none = (0, [])
  memalign_block size (some a) =
      if ltb a 8
      then (alias_of (plain size), canonical_malloc size ∷ [])
      else (alias_of (aligned size a), canonical_memalign size a ∷ [])

  -- `__ota_memalign`, which is also `ota_aligned_alloc`.
  unfoldable pub ota_aligned_alloc : ℕ → ℕ → ℕ × List Call
  ota_aligned_alloc alignment size = memalign_block size (alignment_for alignment size)

  unfoldable pub ota_memalign : ℕ → ℕ → ℕ × List Call
  ota_memalign alignment size =
      let (ptr, calls) = ota_aligned_alloc alignment size in (ptr, lock ∷ (calls ++ unlock ∷ []))

  -- `ota_posix_memalign`: what it answers, what it stores, and its calls. EINVAL is 22.
  unfoldable pub ota_posix_memalign : ℕ → ℕ → ℕ × ℕ × List Call
  ota_posix_memalign alignment size =
      let (ptr, calls) = ota_memalign alignment size in
      if ptr == 0 then (22, 0, calls) else (0, ptr, calls)
