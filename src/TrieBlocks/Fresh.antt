-- ===== src/TrieBlocks/Fresh.antt =====
-- A page that is rolled back is the next to be given.
use budalloc.Prelude.{
  ℕ, ◌+◌, ◌-◌, ◌*◌, ◌%◌, ◌^◌, ◌≤◌, ◌<◌, ◌≡◌, inl, inr, refl, Bool, true, false, ◌||◌, Option, none,
  some, ltb, ◌==◌, if◌then◌else◌, add64, sub64, arith, Bool-cases,
}
use budalloc.TrieBlocks.{Blocks, blocks, block_at, get_new_page, rollback_page}

-- A power of 2 of pages, 128 at most.
abbrev pub is_size : ℕ → Bool
is_size n =
    n == 0x1000
    || (n == 0x2000
        || (n == 0x4000
            || (n == 0x8000 || (n == 0x10000 || (n == 0x20000 || (n == 0x40000 || n == 0x80000))))))

-- The pages left are whole, end below 2 ^ 64, and the next block has its size.
pub record IsBlocks (b : Blocks) : Type 0 where
  pub left : b.start ≤ b.end
  pub top : b.end < 2 ^ 64
  pub whole : (b.end - b.start) % 4096 ≡ 0
  pub sized : is_size b.size ≡ true

-- What `plat_mmap` gives: an address above 0 whose block ends below 2 ^ 64.
abbrev pub Gives : (ℕ → ℕ) → Type 0
Gives mmap = (n : ℕ) → n ≤ 128 * 4096 → (0 < mmap n) × (mmap n + n < 2 ^ 64)

-- A page, and what is left, from which the page can be given again, whatever `plat_mmap` answers then.
abbrev pub Given : Option (ℕ × Blocks) → Type 0
Given none = ⊥
Given (some (page, b)) =
    IsBlocks b
    × (b.start ≡ page + 4096)
    × ((later : ℕ → ℕ) → get_new_page later (rollback_page b) ≡ some (page, b))

size-le : (n : ℕ) → is_size n ≡ true → n ≤ 128 * 4096
size-le n h = ground arith

size-ge : (n : ℕ) → is_size n ≡ true → 4096 ≤ n
size-ge n h = ground arith

size-whole : (n : ℕ) → is_size n ≡ true → n % 4096 ≡ 0
size-whole n h = ground arith

next-size : (n : ℕ) → is_size n ≡ true → is_size (if ltb n (128 * 4096) then n * 2 else n) ≡ true
next-size n h = ground arith

back :
    (mmap : ℕ → ℕ) (p e n : ℕ)
    → p + 4096 ≤ e
    → e < 2 ^ 64
    → get_new_page mmap (rollback_page (blocks (add64 p 4096) e n))
      ≡ some (p, blocks (add64 p 4096) e n)
unfolding get_new_page rollback_page
back mmap p e n h top =
    let same : sub64 (add64 p 4096) 4096 ≡ p = omega arith in
    let more : (p == e) ≡ false = ground arith in rw (same, more) refl

module _ (mmap : ℕ → ℕ) (gives : Gives mmap) (b : Blocks) (h : IsBlocks b) where
  -- Where `plat_mmap` gives blocks: from pages left that are whole, `get_new_page` gives a page, leaves
  -- whole pages from behind it on and a size of a block of at most 128 pages, and after
  -- `rollback_page` it gives the same page again and leaves the same, whatever `plat_mmap` would
  -- answer then, a failure included.
  pub get_new_page_lem : Given (get_new_page mmap b)
  unfolding get_new_page rollback_page
  get_new_page_lem = elim (Bool-cases (b.start == b.end)) [
    | inl e ↦ rw e (fresh e)
    | inr e ↦ rw e (
      record {
        left = ground (arith, h.left, h.whole, h.top);
        top = h.top;
        whole = ground (arith, h.left, h.whole, h.top);
        sized = h.sized;
      },
      ground (arith, h.left, h.whole, h.top),
      λ later. back later b.start b.end b.size (ground (arith, h.left, h.whole)) h.top,
    )
  ]
    where
      n : ℕ
      n = b.size

      small : n ≤ 128 * 4096
      small = size-le n h.sized

      fresh : (b.start == b.end) ≡ true → Given (block_at (mmap n) n)
      fresh e =
          let (pos, fits) = gives n small in
          let found : (mmap n == 0) ≡ false = ground arith in
          rw found (
            record {
              left = ground (arith, size-ge n h.sized);
              top = omega arith;
              whole = ground (arith, size-ge n h.sized, size-whole n h.sized);
              sized = next-size n h.sized;
            },
            omega (arith, size-ge n h.sized),
            λ later.
                back later (mmap n) (add64 (mmap n) n) (if ltb n (128 * 4096) then n * 2 else n)
                  (ground (arith, size-ge n h.sized)) (omega arith),
          )
