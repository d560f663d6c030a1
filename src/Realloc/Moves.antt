-- ===== src/Realloc/Moves.antt =====
-- What realloc keeps, frees and locks.
use budalloc.Prelude.{
  ℕ, zero, suc, ◌+◌, ◌*◌, ◌/◌, ◌%◌, ◌^◌, ◌<◌, ◌≤◌, ◌≡◌, refl, true, false, not, ◌&&◌, Option, none,
  some, List, [], ◌∷◌, ltb, leb, ◌==◌, if◌then◌else◌, arith, Bool-cases, inl, inr, size_max, ltb→lt,
}
use budalloc.Realloc.{
  Call, lock, unlock, malloc, free, usable_size, memcpy, canonical_malloc, canonical_memalign,
  move_block, ota_realloc, ota_reallocarray,
}

-- How often the lock is taken more than given back, `none` where it is given back and not taken or
-- where a block is used without it.
unfoldable pub held : ℕ → List Call → Option ℕ
held n [] = some n
held n (lock ∷ l) = held (suc n) l
held zero (unlock ∷ l) = none
held (suc n) (unlock ∷ l) = held n l
held zero (malloc s ∷ l) = none
held (suc n) (malloc s ∷ l) = held (suc n) l
held zero (free p ∷ l) = none
held (suc n) (free p ∷ l) = held (suc n) l
held zero (usable_size p ∷ l) = none
held (suc n) (usable_size p ∷ l) = held (suc n) l
held n (memcpy d s k ∷ l) = held n l
held n (canonical_malloc s ∷ l) = held n l
held n (canonical_memalign s a ∷ l) = held n l

-- A quotient below a factor, and one not below it.
product_le : (n s q : ℕ) → s ≤ q → n * s ≤ n * q
product_le n s q h = grind arith

quotient_lt : (m n s : ℕ) → 0 < n → m / n < s → m < n * s
quotient_lt m n s p h = grind (arith, product_le n (m / n + 1) s)

quotient_le : (m n s : ℕ) → 0 < n → s ≤ m / n → n * s ≤ m
quotient_le m n s p h = grind (arith, product_le n s (m / n))

module _ (usable : ℕ → ℕ) (new_block : ℕ → ℕ) where
  -- `ota_realloc` makes each call of the allocator under `fork_lock` and gives the lock back, except for
  -- a block and a size that are not NULL and 0 where the block is large enough: it returns that block
  -- and holds the lock. For the size 0 and a block it answers NULL, and else a new block.
  pub ota_realloc-held :
      (ptr size : ℕ)
      → (held 0 (ota_realloc usable new_block ptr size).1
          ≡ some (if not (ptr == 0) && (not (size == 0) && leb size (usable ptr)) then 1 else 0))
        × ((ota_realloc usable new_block ptr size).0 ≡ (
            if not (ptr == 0) && (not (size == 0) && leb size (usable ptr))
            then ptr
            else if not (ptr == 0) && size == 0
            then 0
            else new_block size))
  unfolding held ota_realloc move_block
  ota_realloc-held ptr size = (ground arith, ground arith)

  -- For a number and a size below 2 ^ 64: where their product is below 2 ^ 64 too, `ota_reallocarray` does
  -- what `ota_realloc` does for it; where it is not, it calls nothing, sets `errno` and answers NULL.
  pub ota_reallocarray-exact :
      (ptr nmemb size : ℕ)
      → nmemb < 2 ^ 64
      → size < 2 ^ 64
      → ota_reallocarray usable new_block ptr nmemb size ≡ (
          if ltb (nmemb * size) (2 ^ 64)
          then (
            (ota_realloc usable new_block ptr (nmemb * size)).0,
            (ota_realloc usable new_block ptr (nmemb * size)).1,
            false,
          )
          else (0, [], true))
  unfolding ota_reallocarray
  ota_reallocarray-exact ptr zero size p q = let e : 0 * size ≡ 0 = omega arith in rw e refl
  ota_reallocarray-exact ptr (suc n) size p q =
      let z : (suc n == 0) ≡ false = ground arith in
      elim (Bool-cases (ltb (size_max / suc n) size)) [
        | inl e ↦
            let big = quotient_lt size_max (suc n) size (omega arith) (ltb→lt _ _ e) in
            let f : ltb (suc n * size) (2 ^ 64) ≡ false = ground (arith, big) in rw (z, e, f) refl
        | inr e ↦
            let small = quotient_le size_max (suc n) size (omega arith) (ground (arith, e)) in
            let f : ltb (suc n * size) (2 ^ 64) ≡ true = ground (arith, small) in
            let g : suc n * size % 2 ^ 64 ≡ suc n * size = omega (arith, small) in
            rw (z, e, f, g) refl
      ]
