-- ===== src/Trie/Fill.antt =====
-- The words of a block, stored one after the other.
use Prim.Native.Nat.{bit_or}
use budalloc.Prelude.{
  ℕ, zero, suc, ◌+◌, ◌-◌, ◌*◌, ◌/◌, ◌%◌, ◌^◌, ◌≤◌, ◌<◌, ◌≡◌, ◌==◌, refl, ap, ◌∙◌, Bool, true, false,
  some, if◌then◌else◌, arith,
}
use budalloc.Trie.{Entry1, Entry2, Trie, indices, set, ◌>>=◌}
use budalloc.Trie.Tables.{tally, tally-set, one_if}
use budalloc.Trie.Iter.{trie_alloc_iter_next, wrap_add}
use budalloc.Trie.Runs.{at0-tree}
use budalloc.Trie.Rest.{nonzero}
use budalloc.Trie.Wipe.{held, in_block}
use budalloc.Trie.Access.{store_rest, head_word}

-- The word of the page `o` pages behind the second of a block whose first page is `page`.
unfoldable pub rest_word : ℕ → ℕ → ℕ → ℕ
rest_word idx page o = bit_or (idx * 2 ^ 48 % 2 ^ 64) ((page + suc o * 4096) % 2 ^ 64)

-- The words of a block at `addr`, page by page.
abbrev pub block_word : ℕ → ℕ → ℕ → ℕ
block_word idx addr zero = head_word idx addr
block_word idx addr (suc o) = rest_word idx (addr / 4096 * 4096) o

rest_word-zero :
    (idx page : ℕ) → bit_or (idx * 2 ^ 48 % 2 ^ 64) ((page + 4096) % 2 ^ 64) ≡ rest_word idx page 0
unfolding rest_word
rest_word-zero idx page = refl

rest_word-next :
    (idx page o : ℕ) → rest_word idx ((page + 4096) % 2 ^ 64) o ≡ rest_word idx page (suc o)
unfolding rest_word
rest_word-next idx page o = ap (bit_or (idx * 2 ^ 48 % 2 ^ 64)) (omega arith)

unfoldable pub fill_words : ℕ → ℕ → ℕ → ℕ → (ℕ → ℕ) → ℕ → ℕ
fill_words idx page i zero s = s
fill_words idx page i (suc n) s =
    let next_page = (page + 4096) % 2 ^ 64 in
    fill_words idx next_page (suc i) n (set s (suc i) (bit_or (idx * 2 ^ 48 % 2 ^ 64) next_page))

fill_step :
    (idx n page i old j : ℕ)
    → (if in_block (suc (suc i)) n j
        then rest_word idx ((page + 4096) % 2 ^ 64) (j - suc (suc i))
        else (if suc i == j then bit_or (idx * 2 ^ 48 % 2 ^ 64) ((page + 4096) % 2 ^ 64) else old))
      ≡ (if in_block (suc i) (suc n) j then rest_word idx page (j - suc i) else old)
fill_step idx n page i old j =
    rw (rest_word-zero idx page, rest_word-next idx page (j - suc (suc i)))
      (indexed (rest_word idx page))
  where
    indexed :
        (f : ℕ → ℕ)
        → (if in_block (suc (suc i)) n j
            then f (suc (j - suc (suc i)))
            else (if suc i == j then f 0 else old))
          ≡ (if in_block (suc i) (suc n) j then f (j - suc i) else old)
    indexed f = ground arith

pub fill_words-at :
    (idx n page i : ℕ) (s : ℕ → ℕ) (j : ℕ)
    → fill_words idx page i n s j
      ≡ (if in_block (suc i) n j then rest_word idx page (j - suc i) else s j)
unfolding fill_words set
fill_words-at idx zero page i s j = ground arith
fill_words-at idx (suc n) page i s j =
    fill_words-at idx n ((page + 4096) % 2 ^ 64) (suc i)
      (set s (suc i) (bit_or (idx * 2 ^ 48 % 2 ^ 64) ((page + 4096) % 2 ^ 64))) j
    ∙ fill_step idx n page i (s j) j

pub tally-set-le :
    (s : ℕ → ℕ) (i v : ℕ) → i < 512 → tally nonzero 512 (set s i v) ≤ tally nonzero 512 s + 1
tally-set-le s i v h = go (nonzero v) (tally-set nonzero 512 s i v h)
  where
    go :
        (b : Bool)
        → tally nonzero 512 (set s i v) + one_if (nonzero (s i)) ≡ tally nonzero 512 s + one_if b
        → tally nonzero 512 (set s i v) ≤ tally nonzero 512 s + 1
    go true e = omega arith
    go false e = omega arith

pub tally-fill_words :
    (idx n page i : ℕ) (s : ℕ → ℕ)
    → suc i + n ≤ 512
    → tally nonzero 512 (fill_words idx page i n s) ≤ tally nonzero 512 s + n
unfolding fill_words
tally-fill_words idx zero page i s h = omega arith
tally-fill_words idx (suc n) page i s h =
    let p = (page + 4096) % 2 ^ 64 in
    let w = bit_or (idx * 2 ^ 48 % 2 ^ 64) p in
    omega (
      arith,
      tally-fill_words idx n ((page + 4096) % 2 ^ 64) (suc i)
          (set s (suc i) (bit_or (idx * 2 ^ 48 % 2 ^ 64) ((page + 4096) % 2 ^ 64))) (omega arith),
      tally-set-le s (suc i) (bit_or (idx * 2 ^ 48 % 2 ^ 64) ((page + 4096) % 2 ^ 64))
          (omega arith),
    )

-- The loop of `__ota_malloc` in one table.
module _ (j k l : ℕ) (t : Trie) (c : ℕ) (s : ℕ → Entry2) (c' : ℕ) (s' : ℕ → Entry1) where
  next_in :
      (i : ℕ) (u : Trie)
      → suc i < 512
      → trie_alloc_iter_next (indices i j k l) u ≡ some (indices (suc i) j k l, u)
  unfolding trie_alloc_iter_next
  next_in i u h =
      let p : wrap_add i ≡ suc i = omega arith in
      let q : (suc i == 0) ≡ false = ground arith in rw (p, q) refl

  pub store_rest_lem :
      (idx m page i e n : ℕ) (w : ℕ → ℕ)
      → i + m ≡ e
      → e < 512
      → store_rest idx page m (indices i j k l) (held j k l t c s c' s' n w)
        ≡ some (indices e j k l, held j k l t c s c' s' n (fill_words idx page i m w))
  unfolding store_rest fill_words
  store_rest_lem idx zero page i e n w at small = let p : i ≡ e = omega arith in rw p refl
  store_rest_lem idx (suc m) page i e n w at small =
      let v = bit_or (idx * 2 ^ 48 % 2 ^ 64) ((page + 4096) % 2 ^ 64) in
      rw
        (
          next_in i (held j k l t c s c' s' n w) (omega arith),
          at0-tree (indices (suc i) j k l) t c s c' s' n true w (λ _. some (v, tt)) refl,
          ◌>>=◌,
        )
        (store_rest_lem idx m ((page + 4096) % 2 ^ 64) (suc i) e n (set w (suc i) v) (omega arith)
          small)
