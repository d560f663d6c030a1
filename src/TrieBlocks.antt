-- ===== src/TrieBlocks.antt =====
-- The pages of the trie's nodes: `get_new_page`, `rollback_page` and `reclaim` of
-- libkernel/src/lib/trie.c, all on state of one thread.
pub mod Reclaim
pub mod Fresh
mod Tests
use budalloc.Prelude.{
  ℕ, ◌+◌, ◌-◌, ◌*◌, ◌/◌, ◌%◌, ◌^◌, Bool, true, false, Option, none, some, List, [], ◌∷◌, ◌++◌, ltb,
  ◌==◌, if◌then◌else◌, add64, sub64,
}

-- `trie_block_start`, `trie_block_end` and `trie_block_size`
pub record Blocks : Type 0 where
  pub start : ℕ
  pub end : ℕ
  pub size : ℕ

abbrev pub blocks : ℕ → ℕ → ℕ → Blocks
blocks s e n = record { start = s; end = e; size = n }

abbrev pub new_blocks : Blocks
new_blocks = blocks 0 0 4096

-- A block from `plat_mmap`, at `a`; `none` for the PANIC. TRIE_BLOCK_SIZE_THRESHOLD is 128 pages.
abbrev pub block_at : ℕ → ℕ → Option (ℕ × Blocks)
block_at a size =
    if a == 0
    then none
    else some
        (a, blocks (add64 a 4096) (add64 a size) (if ltb size (128 * 4096) then size * 2 else size))

-- `get_new_page`, where `plat_mmap` answers a size with an address.
unfoldable pub get_new_page : (ℕ → ℕ) → Blocks → Option (ℕ × Blocks)
get_new_page mmap b =
    if b.start == b.end
    then block_at (mmap b.size) b.size
    else some (b.start, record b { start = add64 b.start 4096 })

unfoldable pub rollback_page : Blocks → Blocks
rollback_page b = record b { start = sub64 b.start 4096 }

-- `struct reclaim_range`
pub record Range : Type 0 where
  pub start : ℕ
  pub end : ℕ

abbrev pub range : ℕ → ℕ → Range
range s e = record { start = s; end = e }

-- The loop that adds a page to a range at one of its ends.
unfoldable pub join_range : ℕ → List Range → Option (List Range)
join_range page [] = none
join_range page (r ∷ l) =
    let rest = join_range page l in
    if r.end == page
    then some (range r.start (add64 r.end 4096) ∷ l)
    else if r.start == add64 page 4096
    then some (range page r.end ∷ l)
    else elim rest [ none ↦ none | some l' ↦ some (r ∷ l') ]

-- The loop that fills an entry that is not in use.
unfoldable pub fill_range : ℕ → List Range → Option (List Range)
fill_range page [] = none
fill_range page (r ∷ l) =
    let rest = fill_range page l in
    if r.end == 0
    then some (range page (add64 page 4096) ∷ l)
    else elim rest [ none ↦ none | some l' ↦ some (r ∷ l') ]

-- `reclaim_list`, RECLAIM_LIST_LEN entries, and `n_reclaims`.
pub record Reclaims : Type 0 where
  pub ranges : List Range
  pub n_reclaims : ℕ

abbrev pub reclaims : List Range → ℕ → Reclaims
reclaims l n = record { ranges = l; n_reclaims = n }

-- The loop behind RET, with the ranges for which it calls `plat_munmap`.
unfoldable pub unmap_all : List Range → List Range × List Range
unmap_all [] = ([], [])
unmap_all (r ∷ l) =
    let (l', calls) = unmap_all l in
    if r.end == 0 then (r ∷ l', calls) else (range 0 0 ∷ l', r ∷ calls)

unfoldable pub settle : List Range → ℕ → List Range → Reclaims × List Range
unfolding unmap_all
settle l n calls =
    if n == 128
    then (let (l', more) = unmap_all l in (reclaims l' 0, calls ++ more))
    else (reclaims l n, calls)

-- The eviction of the first range. The list is never empty.
unfoldable pub evict : ℕ → ℕ → List Range → Reclaims × List Range
unfolding settle
evict page n [] = (reclaims [] n, [])
evict page n (r ∷ l) =
    settle (range page (add64 page 4096) ∷ l) (sub64 n (sub64 r.end r.start / 4096)) (r ∷ [])

unfoldable pub reclaim_filled : ℕ → ℕ → List Range → Option (List Range) → Reclaims × List Range
unfolding settle evict
reclaim_filled page n l (some l') = settle l' n []
reclaim_filled page n l none = evict page n l

unfoldable pub reclaim_joined : ℕ → ℕ → List Range → Option (List Range) → Reclaims × List Range
unfolding settle fill_range reclaim_filled
reclaim_joined page n l (some l') = settle l' n []
reclaim_joined page n l none = reclaim_filled page n l (fill_range page l)

-- `reclaim`, with the ranges for which it calls `plat_munmap`.
unfoldable pub reclaim : ℕ → Reclaims → Reclaims × List Range
unfolding join_range reclaim_joined
reclaim page s = reclaim_joined page (s.n_reclaims + 1) s.ranges (join_range page s.ranges)
