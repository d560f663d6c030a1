-- ===== src/Reservation.antt =====
-- The filling of a reservation, `do_reservations` of libkernel/src/alloc/alloc_alias.c where all of its
-- blocks are handed out. What `canonical_malloc` or `canonical_calloc` answers and the alias pages that
-- `alloc_alias` gives are parameters; the words stored behind the iterator are listed with their pages.
pub mod Layout
mod Tests
use Prim.Native.Nat.{bit_or}
use budalloc.Prelude.{ℕ, zero, suc, ◌+◌, ◌-◌, ◌*◌, ◌/◌, ◌%◌, ◌^◌, List, [], ◌∷◌, ◌++◌, add64}

-- The pages that a block takes: its offset in the first page counts.
unfoldable pub pages_of : ℕ → ℕ → ℕ
pages_of alloc_size entry = (entry % 4096 + alloc_size + 4095) % 2 ^ 64 / 4096 % 2 ^ 32

-- The first loop: each entry with the number of its pages in the lowest bits. The entries are the words
-- that are reused, then the new canonical addresses.
unfoldable pub packed : ℕ → List ℕ → List ℕ
packed alloc_size [] = []
packed alloc_size (e ∷ l) = bit_or e (pages_of alloc_size e) ∷ packed alloc_size l

-- `total_n_aliases`, a `uint32_t`
unfoldable pub total_pages : ℕ → List ℕ → ℕ
total_pages alloc_size [] = 0
total_pages alloc_size (e ∷ l) = (pages_of alloc_size e + total_pages alloc_size l) % 2 ^ 32

-- The words of `n` pages more of a block, `word` that of the last one.
unfoldable pub rest_words : ℕ → ℕ → ℕ → List (ℕ × ℕ)
rest_words zero page word = []
rest_words (suc n) page word =
    (add64 page 4096, add64 word 4096) ∷ rest_words n (add64 page 4096) (add64 word 4096)

-- The second loop, from the alias page `page` on: the aliases that are handed out, and the words that
-- are stored. PAGE_META_HEAD is 4.
unfoldable pub place : ℕ → ℕ → List ℕ → List ℕ × List (ℕ × ℕ)
place alloc_idx page [] = ([], [])
place alloc_idx page (p ∷ l) =
    let entry = bit_or (p / 4 * 4) (alloc_idx * 2 ^ 48 % 2 ^ 64) in
    let n_aliases = p % 4 in
    let (aliases, words) = place alloc_idx (add64 page ((n_aliases - 1) * 4096 + 4096)) l in
    (
      (add64 page (entry % 4096)) ∷ aliases,
      (page, bit_or entry 4) ∷ (rest_words (n_aliases - 1) page (entry / 4096 * 4096) ++ words),
    )

-- The filling as a whole, at the first page that `alloc_alias` gives.
unfoldable pub fill : ℕ → ℕ → ℕ → List ℕ → List ℕ × List (ℕ × ℕ)
fill alloc_size alloc_idx page entries = place alloc_idx page (packed alloc_size entries)
