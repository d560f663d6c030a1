-- ===== src/Trie/Tests.antt =====
-- Tests of the trie at inputs that can be followed in the source.
use budalloc.Prelude.{
  ℕ, zero, suc, ◌+◌, ◌*◌, ◌^◌, ◌≤◌, ◌≢◌, ◌<◌, ◌≡◌, ◌⊎◌, refl, Bool, true, false, Option, none, some,
  arith,
}
use budalloc.SizeClass.{size_to_reservation_index, index_to_max_usable_size}
use budalloc.Trie.{
  empty, node, Entry1, Entry2, Entry3, Trie, Indices, indices, indices_of, new_page, set, ◌>>◌,
  store, acquire, release, lock, unlock, touch, touch_lock, drop_cnt, within, at0,
}
use budalloc.Trie.Tables.{tally, tally-set, tally-unused, one_if}
use budalloc.Trie.Iter.{
  trie_iter_init, trie_iter_finish, trie_iter_next, trie_alloc_iter_init, trie_alloc_iter_finish,
  trie_alloc_iter_next,
}
use budalloc.Trie.Rest.{Rest, Rest1, Rest2, Rest3, AtRest, live, nonzero, word, InRange, set-all}
use budalloc.Trie.Open.{opened-Rest, Room}
use budalloc.Trie.Store.{Rest-set}
use budalloc.Trie.Fill.{rest_word, block_word}
use budalloc.Trie.Malloc.{Stored, malloc_large-Stored}
use budalloc.Trie.Roundtrip.{free_aliases-malloc_large}
use budalloc.Trie.Find.{malloc_usable_size_lem, malloc_usable_size-junk}
use budalloc.Trie.Free.{in_pages, Freed, free_aliases-Freed}
use budalloc.Trie.Refuse.{free_aliases-twice}
use budalloc.Trie.Next.{reopen, trie_alloc_iter_next-reopen}
use budalloc.Trie.Access.{
  Found, unknown, double_free, block, malloc_usable_size, free_aliases, get_canonical, size_of,
  malloc_large, clear_rest,
}

-- A block of 48 bytes at 0x500000.
abbrev small_word : ℕ
small_word = 3 * 2 ^ 48 + 0x500000 + 4

abbrev no_trie : Trie
no_trie = new_page empty

-- Its page is that at 0x1000.
abbrev table1 : Entry1
table1 = node 512 false (set (new_page 0) 1 small_word)

abbrev table2 : Entry2
table2 = node 512 false (set (new_page empty) 0 table1)

abbrev table3 : Entry3
table3 = node 512 false (set (new_page empty) 0 table2)

abbrev one_page : Trie
one_page = set no_trie 0 table3

one_if-le : (b : Bool) → one_if b ≤ 1
one_if-le true = omega arith
one_if-le false = omega arith

one_entry-Rest :
    {A : Type 0} (D : Type 0) (used : A → Bool) (P : A → Type 0) (z : A) (i : ℕ) (v : A)
    → i < 512
    → used z ≡ false
    → P z
    → P v
    → Rest D used P (node 512 false (set (new_page z) i v))
one_entry-Rest D used P z i v h unused zr new =
    let fresh = opened-Rest D used P z empty unused zr tt tt in
    Rest-set D used P 512 512 (new_page z) i v h fresh new
      (omega (arith, tally-unused used 512 (new_page z) (λ j. unused), one_if-le (used v)))
      (omega arith) (omega arith)

one_page-AtRest : AtRest one_page
one_page-AtRest =
    set-all Rest3 no_trie 0 table3 (λ j. tt)
      (one_entry-Rest ⊥ live Rest2 empty 0 table2 (omega arith) refl tt (
        one_entry-Rest ⊥ live Rest1 empty 0 table1 (omega arith) refl tt (
          one_entry-Rest (Unit {0}) nonzero (λ _. Unit {0}) 0 1 small_word (omega arith) refl tt
            tt)))

-- A block of 0x1000 bytes at 0x600010, with the pages at 0x1000 and 0x2000.
abbrev two_words1 : ℕ → ℕ
two_words1 = set (set (new_page 0) 1 (28 * 2 ^ 48 + 0x600014)) 2 (28 * 2 ^ 48 + 0x601000)

abbrev two_table2 : Entry2
two_table2 = node 512 false (set (new_page empty) 0 (node 512 false two_words1))

abbrev two_pages : Trie
two_pages = set no_trie 0 (node 512 false (set (new_page empty) 0 two_table2))

two_words1-Rest : Rest1 (node 512 false two_words1)
two_words1-Rest =
    let first : ℕ → ℕ = set (new_page 0) 1 (28 * 2 ^ 48 + 0x600014) in
    Rest-set (Unit {0}) nonzero (λ _. Unit {0}) 512 512 first 2 (28 * 2 ^ 48 + 0x601000)
      (omega arith)
      (one_entry-Rest (Unit {0}) nonzero (λ _. Unit {0}) 0 1 (28 * 2 ^ 48 + 0x600014) (omega arith)
        refl tt tt)
      tt
      (omega (
        arith,
        tally-set nonzero 512 (new_page 0) 1 (28 * 2 ^ 48 + 0x600014),
        tally-unused nonzero 512 (new_page 0) (λ j. refl),
      ))
      (omega arith) (omega arith)

two_pages-AtRest : AtRest two_pages
two_pages-AtRest =
    set-all Rest3 no_trie 0 (node 512 false (set (new_page empty) 0 two_table2)) (λ j. tt)
      (one_entry-Rest ⊥ live Rest2 empty 0 two_table2 (omega arith) refl tt (
        one_entry-Rest ⊥ live Rest1 empty 0 (node 512 false two_words1) (omega arith) refl tt
          two_words1-Rest))

two_words : (x : ℕ) → 1 ≤ x → x < 3 → word two_pages (indices x 0 0 0) ≢ 0
unfolding set
two_words x low high = ground arith

malloc_usable_size_lem_example :
    malloc_usable_size (λ addr. 0) false 0x1010 one_page ≡ some (48, one_page)
unfolding get_canonical index_to_max_usable_size set
malloc_usable_size_lem_example = malloc_usable_size_lem (λ addr. 0) 0x1010 one_page one_page-AtRest

-- A page 2 ^ 30 above has a node of level 3 and none of level 2.
malloc_usable_size-junk_example :
    malloc_usable_size (λ addr. 0) true 0x40001000 one_page
    ≡ some (0, set one_page 0 (node 511 false (set (new_page empty) 0 table2)))
unfolding set
malloc_usable_size-junk_example =
    malloc_usable_size-junk (λ addr. 0) 0x40001000 one_page 512 (set (new_page empty) 0 table2)
      one_page-AtRest refl refl

-- A block of three pages from 0x2000 on, and four pages given up.
large-Room : Room (indices_of 0x2000) one_page 6
unfolding set tally
large-Room = (omega arith, omega arith, omega arith, tt)

abbrev aliases : ℕ → ℕ × ℕ
aliases n = (0x2000, 4)

malloc_large-Stored_example :
    (t' : Trie) × (malloc_large aliases 0x700010 0x2000 one_page ≡ some (0x2010, t'))
    × Stored 32 0x700010 (indices_of 0x2000) 3 one_page t'
unfolding size_to_reservation_index
malloc_large-Stored_example =
    malloc_large-Stored aliases 0x700010 0x2000 0x2000 2 4 one_page refl refl (omega arith)
      one_page-AtRest large-Room

no_words : (k : Indices) → in_pages (indices_of 0x2000) 3 k ≡ true → word one_page k ≡ 0
unfolding set
no_words k h = ground arith

words_stored : (o : ℕ) → o < 3 → block_word 32 0x700010 o ≢ 0
unfolding rest_word
words_stored zero h z = absurd (omega arith)
words_stored (suc zero) h z = absurd (omega arith)
words_stored (suc (suc zero)) h z = absurd (omega arith)
words_stored (suc (suc (suc o))) h z = absurd (omega arith)

free_aliases-malloc_large_example :
    (t₁ : Trie) × (t₂ : Trie) × (malloc_large aliases 0x700010 0x2000 one_page ≡ some (0x2010, t₁))
    × (free_aliases (λ addr. 0) false 0x2010 t₁ ≡ some (block 0x700010 32 0x2000 3, t₂))
    × (AtRest t₂ × ((k : Indices) → InRange k → word t₂ k ≡ word one_page k))
unfolding size_to_reservation_index index_to_max_usable_size size_of
free_aliases-malloc_large_example =
    free_aliases-malloc_large (λ addr. 0) false aliases 0x700010 0x2000 0x2000 2 4 one_page refl
      refl refl (omega arith) (omega arith) (omega arith) one_page-AtRest large-Room no_words
      words_stored refl

free_aliases-Freed_example :
    (t' : Trie) × (free_aliases (λ addr. 0) false 0x1010 two_pages
      ≡ some (block 0x600010 28 0x1000 2, t'))
    × Freed (indices_of 0x1010) 2 two_pages t'
unfolding set size_of index_to_max_usable_size
free_aliases-Freed_example =
    free_aliases-Freed (λ addr. 0) false 0x1010 1 two_pages two_pages-AtRest (omega arith)
      (omega arith) refl two_words

free_aliases-twice_example :
    (t' : Trie) × (free_aliases (λ addr. 0) false 0x1010 two_pages
      ≡ some (block 0x600010 28 0x1000 2, t'))
    × ((free_aliases (λ addr. 0) false 0x1010 t' ≡ some (unknown, t'))
        ⊎ (free_aliases (λ addr. 0) false 0x1010 t' ≡ some (double_free, t')))
unfolding set size_of index_to_max_usable_size
free_aliases-twice_example =
    free_aliases-twice (λ addr. 0) false 0x1010 1 two_pages two_pages-AtRest (omega arith)
      (omega arith) refl two_words

-- The page at 0x1ff000 is the last of its table.
trie_alloc_iter_next-reopen_example :
    (trie_alloc_iter_init (indices_of 0x1ff000)
        >> store 7 (indices_of 0x1ff000)
        >> trie_alloc_iter_next (indices_of 0x1ff000))
      one_page
    ≡ (trie_alloc_iter_init (indices_of 0x1ff000)
          >> store 7 (indices_of 0x1ff000)
          >> reopen (indices_of 0x1ff000) (indices_of 0x200000))
        one_page
unfolding set
trie_alloc_iter_next-reopen_example =
    trie_alloc_iter_next-reopen 0x1ff000 (omega arith) 7 one_page one_page-AtRest tt

-- What is left of a page's word after an operation, with the answer.
abbrev word_after : {R : Type 0} → ℕ → Option (R × Trie) → Option (R × ℕ)
word_after ptr none = none
word_after ptr (some (r, t)) = some (r, word t (indices_of ptr))

-- A block of three pages at 0x700010 gets the alias pages from 0x1fe000 on, over the end of a table.
abbrev three_pages : Option (ℕ × Trie)
unfolding malloc_large size_to_reservation_index
three_pages = malloc_large (λ n. (0x1fe000, 0)) 0x700010 0x2000 one_page

stored :
    (word_after 0x1fe000 three_pages ≡ some (0x1fe010, 32 * 2 ^ 48 + 0x700014))
    × (word_after 0x200000 three_pages ≡ some (0x1fe010, 32 * 2 ^ 48 + 0x702000))
    × (word_after 0x201000 three_pages ≡ some (0x1fe010, 0))
unfolding three_pages trie_alloc_iter_init trie_alloc_iter_next trie_alloc_iter_finish touch
    touch_lock unlock at0 drop_cnt set within
stored = (refl, refl, refl)

-- The block is freed.
abbrev freed_pages : Option (Found × Trie)
unfolding free_aliases trie_iter_init trie_iter_finish trie_iter_next acquire release lock size_of
    index_to_max_usable_size clear_rest
freed_pages = elim three_pages [
  | none ↦ none
  | some (ptr, t) ↦ free_aliases (λ addr. 0x2000) false ptr t
]

cleared :
    (word_after 0x1fe000 freed_pages ≡ some (block 0x700010 32 0x2000 3, 0))
    × (word_after 0x200000 freed_pages ≡ some (block 0x700010 32 0x2000 3, 0))
    × (word_after 0x1000 freed_pages ≡ some (block 0x700010 32 0x2000 3, small_word))
unfolding three_pages freed_pages trie_alloc_iter_init trie_alloc_iter_next trie_alloc_iter_finish
    touch touch_lock unlock at0 drop_cnt set within
cleared = (refl, refl, refl)
