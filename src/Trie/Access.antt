-- ===== src/Trie/Access.antt =====
-- How malloc, free and malloc_usable_size of libkernel/src/alloc/alloc_alias.c use the trie. A test of
-- ASSERT is not there, since CONFIG_NDEBUG is on.
use budalloc.Prelude.{
  ℕ, zero, suc, ◌+◌, ◌-◌, ◌*◌, ◌/◌, ◌%◌, ◌^◌, Bool, none, ◌==◌, if◌then◌else◌, size_max,
  int_minus_one,
}
use Prim.Native.Nat.{bit_or}
use budalloc.SizeClass.{size_to_reservation_index, index_to_max_usable_size}
use budalloc.Trie.{Indices, indices_of, M, ◌>>=◌, ◌>>◌, ret, at1, load, store, drop_cnt}
use budalloc.Trie.Iter.{
  trie_iter_init, trie_iter_finish, trie_iter_next, trie_alloc_iter_init, trie_alloc_iter_finish,
  trie_alloc_iter_next, trie_iter_dec_cnt,
}

-- `TRIE_GET_CANON`, and the index of the size class in `TRIE_GET_META`
abbrev pub canon : ℕ → ℕ
canon w = w % 2 ^ 48 / 8 * 8

abbrev pub size_index : ℕ → ℕ
size_index w = w / 2 ^ 48 % 64

-- The alias pages of a block.
abbrev pub alias_pages : ℕ → ℕ → ℕ
alias_pages addr size = (addr % 4096 + size + 4095) % 2 ^ 64 / 2 ^ 12 % 2 ^ 32

-- What `__ota_free` finds: no table for the page, a word 0, for which it panics, or a block, by its
-- canonical address, the index of its size class, its size and its alias pages.
pub data Found : Type 0 where
  unknown : Found
  double_free : Found
  block : ℕ → ℕ → ℕ → ℕ → Found

-- The loop over the pages of a block that is freed, behind the first. A NULL is read through.
unfoldable pub clear_rest : ℕ → Indices → M Indices
unfolding trie_iter_dec_cnt
clear_rest zero ix = ret ix
clear_rest (suc n) ix = do
  let rest = λ (ix' : Indices). clear_rest n ix'
  (found, ix') ← trie_iter_next ix
  if found then (store 0 ix' >> trie_iter_dec_cnt ix' >> rest ix') else (λ _. none)

abbrev pub answer : ℕ × ℕ → ℕ
answer (addr, size) = if addr == 0 then 0 else size

-- `mimalloc_size` is `canonical_size`, which asks mimalloc.
module _ (mimalloc_size : ℕ → ℕ) where
  unfoldable pub size_of : ℕ → ℕ
  size_of w =
      let size = index_to_max_usable_size (size_index w) in
      if size == size_max then mimalloc_size (canon w) else size

  -- `get_canonical` on an entry: the address, 0 for NULL, and the size, which is 0 here where it is not
  -- set.
  unfoldable pub get_canonical : ℕ → ℕ × ℕ
  unfolding size_of
  get_canonical w = if w == 0 then (0, 0) else (canon w, size_of w)

  abbrev usable_size : Indices → M ℕ
  usable_size ix = do w ← load ix; trie_iter_finish ix; ret (answer (get_canonical w))

  -- `__ota_malloc_usable_size`
  unfoldable pub malloc_usable_size : Bool → ℕ → M ℕ
  malloc_usable_size junk ptr = do
    let ix = indices_of ptr
    found ← trie_iter_init junk ix
    if found then usable_size ix else ret 0

  abbrev pub free_block : Indices → ℕ → ℕ → M Found
  free_block ix w n = do
    store 0 ix
    trie_iter_dec_cnt ix
    ix' ← clear_rest (n - 1) ix
    trie_iter_finish ix'
    ret (block (canon w) (size_index w) (size_of w) n)

  abbrev pub free_found : Indices → M Found
  free_found ix = do
    w ← load ix
    if w == 0
        then (trie_iter_finish ix >> ret double_free)
        else free_block ix w (alias_pages (canon w) (size_of w))

  -- `__ota_free` up to the end of its work on the trie.
  unfoldable pub free_aliases : Bool → ℕ → M Found
  free_aliases junk ptr =
      let ix = indices_of ptr in
      if ptr == 0
      then ret unknown
      else (do found ← trie_iter_init junk ix; if found then free_found ix else ret unknown)

-- The words of a block's alias pages: the first has PAGE_META_HEAD, the others the next pages.
abbrev pub head_word : ℕ → ℕ → ℕ
head_word idx addr = bit_or (bit_or (idx * 2 ^ 48 % 2 ^ 64) addr) 4

unfoldable pub store_rest : ℕ → ℕ → ℕ → Indices → M Indices
store_rest idx page zero ix = ret ix
store_rest idx page (suc n) ix = do
  let next_page = (page + 4096) % 2 ^ 64
  let rest = λ (ix' : Indices). store_rest idx next_page n ix'
  ix' ← trie_alloc_iter_next ix
  store (bit_or (idx * 2 ^ 48 % 2 ^ 64) next_page) ix'
  rest ix'

-- TRIE_INDEX_LARGE is 63.
abbrev pub class_index : ℕ → ℕ
class_index size =
    let class = size_to_reservation_index size in if class == int_minus_one then 63 else class

-- The words of a block of `n` alias pages from `page` on are stored, and the pages behind them that are
-- not to be used are given up. `n_aliases - 1` is unsigned.
abbrev pub store_block : ℕ → ℕ → ℕ → ℕ × ℕ → M ℕ
store_block idx addr n (page, n_consume) = do
  let ix = indices_of page
  trie_alloc_iter_init ix
  store (head_word idx addr) ix
  ix' ← store_rest idx (addr / 4096 * 4096) ((n + 2 ^ 32 - 1) % 2 ^ 32) ix
  at1 ix' (drop_cnt n_consume)
  trie_alloc_iter_finish ix'
  ret ((page + addr % 4096) % 2 ^ 64)

-- `__ota_malloc` above MAX_RESERVATION_SIZE, where mimalloc gave the block at `addr` of `alloc_size`
-- bytes. `alloc_alias` gives the alias pages and the number of pages behind them that are not to be
-- used.
unfoldable pub malloc_large : (ℕ → ℕ × ℕ) → ℕ → ℕ → M ℕ
unfolding store_rest
malloc_large alloc_alias addr alloc_size =
    let n = alias_pages addr alloc_size in
    store_block (class_index alloc_size) addr n (alloc_alias n)
