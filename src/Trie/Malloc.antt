-- ===== src/Trie/Malloc.antt =====
-- Storing a block of several alias pages in one table.
use budalloc.Prelude.{
  ℕ, suc, ◌+◌, ◌-◌, ◌*◌, ◌/◌, ◌%◌, ◌^◌, ◌≤◌, ◌<◌, ◌≡◌, ◌==◌, refl, ap, ◌∙◌, Bool, true, false, ◌&&◌,
  some, if◌then◌else◌, arith,
}
use budalloc.Trie.{
  node, empty, Entry1, Entry2, Entry3, Trie, Indices, indices, indices_of, set, ◌>>=◌, drop_cnt,
  unlock,
}
use budalloc.Trie.Tables.{tally}
use budalloc.Trie.Iter.{trie_alloc_iter_finish}
use budalloc.Trie.Runs.{tree3, at0-tree, at1-tree, unlock_lem}
use budalloc.Trie.Rest.{
  Rest1, Rest2, Rest3, AtRest, live, nonzero, below, word, word1, word2, word3, InRange, set-all,
}
use budalloc.Trie.Level.{get-set}
use budalloc.Trie.Open.{
  made1, made2, made3, count1, count2, count3, made1-Rest, made2-Rest, made3-Rest, alloc_open, Room,
  below-opened,
}
use budalloc.Trie.Store.{Rest-set, drop_cnt_lem}
use budalloc.Trie.Wipe.{in_block}
use budalloc.Trie.Free.{in_pages}
use budalloc.Trie.Fill.{
  block_word, fill_words, fill_words-at, tally-fill_words, tally-set-le, store_rest_lem,
}
use budalloc.Trie.Access.{head_word, store_block, malloc_large, alias_pages, class_index}

-- A trie at rest with the words of another, but for a block of which each page has its word.
abbrev pub Stored : ℕ → ℕ → Indices → ℕ → Trie → Trie → Type 0
Stored idx addr ix n t t' =
    AtRest t'
    × ((k : Indices)
        → InRange k
        → word t' k ≡ (if in_pages ix n k then block_word idx addr (k.i0 - ix.i0) else word t k))

shifted :
    (f : ℕ → ℕ) (i m x old : ℕ)
    → (if in_block (suc i) m x then f (suc (x - suc i)) else (if i == x then f 0 else old))
      ≡ (if in_block i (suc m) x then f (x - i) else old)
shifted f i m x old = ground arith

module _ (idx addr m n_consume : ℕ) (ix : Indices) (t : Trie) where
  abbrev words : ℕ → ℕ
  words = fill_words idx (addr / 4096 * 4096) ix.i0 m (set (made1 ix t) ix.i0 (head_word idx addr))

  abbrev new1 : Entry1
  new1 = node (count1 ix t - n_consume) false words

  abbrev new2 : Entry2
  new2 = node (count2 ix t) false (set (made2 ix t) ix.i1 new1)

  abbrev new3 : Entry3
  new3 = node (count3 ix t) false (set (made3 ix t) ix.i2 new2)

  words-at :
      (x : ℕ)
      → words x
        ≡ (if in_block ix.i0 (suc m) x then block_word idx addr (x - ix.i0) else made1 ix t x)
  unfolding set
  words-at x =
      fill_words-at idx m (addr / 4096 * 4096) ix.i0 (set (made1 ix t) ix.i0 (head_word idx addr)) x
      ∙ shifted (block_word idx addr) ix.i0 m x (made1 ix t x)

  module _ (h : AtRest t) (fits : ix.i0 + suc m ≤ 512) (mid : ix.i1 < 512) (high : ix.i2 < 512)
      (room : Room ix t (m + n_consume)) where
    few : tally nonzero 512 words ≤ count1 ix t - n_consume
    few = omega (
      arith,
      tally-fill_words idx m (addr / 4096 * 4096) ix.i0
          (set (made1 ix t) ix.i0 (head_word idx addr)) (omega arith),
      tally-set-le (made1 ix t) ix.i0 (head_word idx addr) (omega arith),
      room.2,
    )

    new1-Rest : Rest1 new1
    new1-Rest =
        let r = made1-Rest ix t h room.3 in
        (refl, omega (arith, room.2), omega (arith, r.2), few, λ i. tt)

    new2-Rest : Rest2 new2
    new2-Rest =
        let r = made2-Rest ix t h in
        Rest-set ⊥ live Rest1 (count2 ix t) (count2 ix t) (made2 ix t) ix.i1 new1 mid r new1-Rest
          room.1 r.1 r.2

    new3-Rest : Rest3 new3
    new3-Rest =
        let r = made3-Rest ix t h in
        Rest-set ⊥ live Rest2 (count3 ix t) (count3 ix t) (made3 ix t) ix.i2 new2 high r new2-Rest
          room.0 r.1 r.2

    module _ (k : Indices) where
      abbrev w : ℕ
      w = block_word idx addr (k.i0 - ix.i0)

      abbrev here : Bool
      here = in_block ix.i0 (suc m) k.i0

      word-new1 : word1 k new1 ≡ (if here then w else below k.i0 (λ w. w) (made2 ix t ix.i1))
      word-new1 =
          words-at k.i0
          ∙ ap (λ (u : ℕ). if here then w else u)
              (below-opened (λ w. w) 0 (made2 ix t ix.i1) k.i0 refl)

      word-new2 : word2 k new2 ≡ (if ix.i1 == k.i1 && here then w else word2 k (made3 ix t ix.i2))
      word-new2 =
          get-set (word1 k) (made2 ix t) ix.i1 new1 k.i1 here w word-new1
          ∙ ap (λ (u : ℕ). if ix.i1 == k.i1 && here then w else u)
              (below-opened (word1 k) empty (made3 ix t ix.i2) k.i1 refl)

      word-new3 :
          word3 k new3 ≡ (if ix.i2 == k.i2 && (ix.i1 == k.i1 && here) then w else word3 k (t ix.i3))
      word-new3 =
          get-set (word2 k) (made3 ix t) ix.i2 new2 k.i2 (ix.i1 == k.i1 && here) w word-new2
          ∙ ap (λ (u : ℕ). if ix.i2 == k.i2 && (ix.i1 == k.i1 && here) then w else u)
              (below-opened (word2 k) empty (t ix.i3) k.i2 refl)

    stored_lem : Stored idx addr ix (suc m) t (tree3 ix t new3)
    stored_lem = (
      set-all Rest3 t ix.i3 new3 h new3-Rest,
      λ k kr.
          get-set (word3 k) t ix.i3 new3 k.i3 (ix.i2 == k.i2 && (ix.i1 == k.i1 && here k)) (w k)
            (word-new3 k),
    )

-- On a trie at rest, where the alias pages that alloc_alias gives lie in one table of level 1, and the
-- nodes on the path, those to be made included, count enough for one entry more, that of level 1 for
-- the block and the pages given up: `__ota_malloc` above MAX_RESERVATION_SIZE returns the alias of the
-- block, each of its pages has its word, every other page has the word that it had, and the trie is at
-- rest.
pub malloc_large-Stored :
    (alloc_alias : ℕ → ℕ × ℕ) (addr size page m n_consume : ℕ) (t : Trie)
    → alias_pages addr size ≡ suc m
    → alloc_alias (suc m) ≡ (page, n_consume)
    → (indices_of page).i0 + suc m ≤ 512
    → AtRest t
    → Room (indices_of page) t (m + n_consume)
    → (t' : Trie) × (malloc_large alloc_alias addr size t
        ≡ some ((page + addr % 4096) % 2 ^ 64, t'))
      × Stored (class_index size) addr (indices_of page) (suc m) t t'
unfolding malloc_large trie_alloc_iter_finish
malloc_large-Stored alloc_alias addr size page m n_consume t pages gives fits h room = (
  tree3 ix t (new3 idx addr m n_consume ix t),
  ap (λ (n : ℕ). store_block idx addr n (alloc_alias n) t) pages
      ∙ ap (λ (x : ℕ × ℕ). store_block idx addr (suc m) x t) gives
      ∙ run,
  stored_lem idx addr m n_consume ix t h fits (omega arith) (omega arith) room,
)
  where
    idx : ℕ
    idx = class_index size

    ix : Indices
    ix = indices_of page

    end : Indices
    end = indices (ix.i0 + m) ix.i1 ix.i2 ix.i3

    run :
        store_block idx addr (suc m) (page, n_consume) t
        ≡ some ((page + addr % 4096) % 2 ^ 64, tree3 ix t (new3 idx addr m n_consume ix t))
    run =
        let r = made1-Rest ix t h room.3 in
        let rounds : (suc m + 2 ^ 32 - 1) % 2 ^ 32 ≡ m = omega arith in
        let ws = words idx addr m n_consume ix t in
        rw
          (
            alloc_open ix t h room.3,
            at0-tree ix t (count3 ix t) (made3 ix t) (count2 ix t) (made2 ix t) (count1 ix t) true
                (made1 ix t) (λ _. some (head_word idx addr, tt)) refl,
            rounds,
            store_rest_lem ix.i1 ix.i2 ix.i3 t (count3 ix t) (made3 ix t) (count2 ix t) (made2 ix t)
                idx m (addr / 4096 * 4096) ix.i0 (ix.i0 + m) (count1 ix t)
                (set (made1 ix t) ix.i0 (head_word idx addr)) refl (omega arith),
            at1-tree end t (count3 ix t) (made3 ix t) (count2 ix t) (made2 ix t)
                (drop_cnt n_consume) (node (count1 ix t) true ws)
                (drop_cnt_lem n_consume (count1 ix t) ws (omega (arith, room.2)) r.2),
            at1-tree end t (count3 ix t) (made3 ix t) (count2 ix t) (made2 ix t) unlock
                (node (count1 ix t - n_consume) true ws)
                (unlock_lem (count1 ix t - n_consume) ws (omega (arith, room.2))
                  (omega (arith, r.2))),
            ◌>>=◌,
          )
          refl
