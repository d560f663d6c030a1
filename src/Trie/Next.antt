-- ===== src/Trie/Next.antt =====
-- To move an allocating iterator on is to close it and to open it at the next page.
use budalloc.Prelude.{
  ℕ, ◌+◌, ◌/◌, ◌%◌, ◌^◌, ◌≤◌, ◌<◌, ◌≡◌, ◌==◌, refl, sym, true, false, some, arith, Bool-cases, inl,
  inr,
}
use mathlib.Core.Path.{subst}
use budalloc.Trie.Rest.{AtRest}
use budalloc.Trie.Open.{Intact, made1, made2, made3, count1, count2, count3, made1-Rest, alloc_open}
use budalloc.Trie.{
  node, empty, Entry1, Entry2, Trie, Indices, indices, indices_of, M, ◌>>=◌, ◌>>◌, ret, store, set,
  at1, at2, at3, touch, touch_lock, unlock,
}
use budalloc.Trie.Iter.{
  trie_alloc_iter_init, trie_alloc_iter_finish, trie_alloc_iter_next, wrap_add,
}
use budalloc.Trie.Runs.{tree1, at3-tree, at2-tree, at1-tree, at0-tree, unlock_lem}

-- Close the iterator, and open it at other indices.
abbrev pub reopen : Indices → Indices → M Indices
reopen ix ix' = trie_alloc_iter_finish ix >> trie_alloc_iter_init ix' >> ret ix'

module _ (t : Trie) (c : ℕ) (s : ℕ → Entry2) (c' : ℕ) (s' : ℕ → Entry1) (c'' : ℕ) (s'' : ℕ → ℕ)
    (pos : 0 < c'') (most : c'' ≤ 512) (i j k l : ℕ) where
  abbrev before : Trie
  before = tree1 (indices i j k l) t c s c' s' (node c'' true s'')

  -- The tables when the iterator is closed.
  abbrev closed2 : ℕ → Entry1
  closed2 = set s' j (node c'' false s'')

  abbrev closed3 : ℕ → Entry2
  closed3 = set s k (node c' false closed2)

  abbrev after : Trie
  after = tree1 (indices i j k l) t c s c' s' (node c'' false s'')

  close : (i : ℕ) → at1 (indices i j k l) unlock before ≡ some (false, after)
  close i =
      at1-tree (indices i j k l) t c s c' s' unlock (node c'' true s'')
        (unlock_lem c'' s'' pos most)

  touch3 : (i j k : ℕ) → at3 (indices i j k l) (touch empty) after ≡ some (tt, after)
  unfolding touch
  touch3 i j k = at3-tree (indices i j k l) t (touch empty) (node c false closed3) refl

  touch2 : (i j : ℕ) → at2 (indices i j k l) (touch empty) after ≡ some (tt, after)
  unfolding touch
  touch2 i j = at2-tree (indices i j k l) t c s (touch empty) (node c' false closed2) refl

  lock1 : (i : ℕ) → at1 (indices i j k l) (touch_lock 0) after ≡ some (tt, before)
  unfolding touch_lock
  lock1 i = at1-tree (indices i j k l) t c s c' s' (touch_lock 0) (node c'' false s'') refl

  next_within :
      (wrap_add i == 0) ≡ false
      → trie_alloc_iter_next (indices i j k l) before
        ≡ reopen (indices i j k l) (indices (wrap_add i) j k l) before
  unfolding trie_alloc_iter_next trie_alloc_iter_init trie_alloc_iter_finish
  next_within w0 =
      rw (w0, close i, touch3 (wrap_add i) j k, touch2 (wrap_add i) j, lock1 (wrap_add i), ◌>>=◌)
        refl

  module _ (w0 : (wrap_add i == 0) ≡ true) where
    next_table1_lem :
        (wrap_add j == 0) ≡ false
        → trie_alloc_iter_next (indices i j k l) before
          ≡ reopen (indices i j k l) (indices (wrap_add i) (wrap_add j) k l) before
    unfolding trie_alloc_iter_next trie_alloc_iter_init trie_alloc_iter_finish
    next_table1_lem w1 =
        rw
          (
            w0,
            close i,
            close (wrap_add i),
            w1,
            touch3 (wrap_add i) (wrap_add j) k,
            touch2 (wrap_add i) (wrap_add j),
            ◌>>=◌,
          )
          refl

    next_table2_lem :
        (wrap_add j == 0) ≡ true
        → (wrap_add k == 0) ≡ false
        → trie_alloc_iter_next (indices i j k l) before
          ≡ reopen (indices i j k l) (indices (wrap_add i) (wrap_add j) (wrap_add k) l) before
    unfolding trie_alloc_iter_next trie_alloc_iter_init trie_alloc_iter_finish
    next_table2_lem w1 w2 =
        rw
          (
            w0,
            close i,
            close (wrap_add i),
            w1,
            w2,
            touch3 (wrap_add i) (wrap_add j) (wrap_add k),
            ◌>>=◌,
          )
          refl

    next_table3_lem :
        (wrap_add j == 0) ≡ true
        → (wrap_add k == 0) ≡ true
        → (wrap_add l == 0) ≡ false
        → trie_alloc_iter_next (indices i j k l) before
          ≡ reopen
              (indices i j k l)
              (indices (wrap_add i) (wrap_add j) (wrap_add k) (wrap_add l))
              before
    unfolding trie_alloc_iter_next trie_alloc_iter_init trie_alloc_iter_finish
    next_table3_lem w1 w2 w3 = rw (w0, close i, close (wrap_add i), w1, w2, w3, ◌>>=◌) refl

-- The indices of the next page.
module _ (ptr : ℕ) (below_top : ptr + 4096 < 2 ^ 48) where
  abbrev i0 : ℕ
  i0 = ptr / 2 ^ 12 % 512

  abbrev i1 : ℕ
  i1 = ptr / 2 ^ 21 % 512

  abbrev i2 : ℕ
  i2 = ptr / 2 ^ 30 % 512

  abbrev i3 : ℕ
  i3 = ptr / 2 ^ 39 % 512

  step0 : (wrap_add i0 == 0) ≡ false → indices_of (ptr + 4096) ≡ indices (wrap_add i0) i1 i2 i3
  step0 w0 = ground arith

  step1 :
      (wrap_add i0 == 0) ≡ true
      → (wrap_add i1 == 0) ≡ false
      → indices_of (ptr + 4096) ≡ indices (wrap_add i0) (wrap_add i1) i2 i3
  step1 w0 w1 = ground arith

  step2 :
      (wrap_add i0 == 0) ≡ true
      → (wrap_add i1 == 0) ≡ true
      → (wrap_add i2 == 0) ≡ false
      → indices_of (ptr + 4096) ≡ indices (wrap_add i0) (wrap_add i1) (wrap_add i2) i3
  step2 w0 w1 w2 = ground arith

  step3 :
      (wrap_add i0 == 0) ≡ true
      → (wrap_add i1 == 0) ≡ true
      → (wrap_add i2 == 0) ≡ true
      → indices_of (ptr + 4096) ≡ indices (wrap_add i0) (wrap_add i1) (wrap_add i2) (wrap_add i3)
  step3 w0 w1 w2 = ground arith

  no_overflow :
      (wrap_add i0 == 0) ≡ true
      → (wrap_add i1 == 0) ≡ true
      → (wrap_add i2 == 0) ≡ true
      → (wrap_add i3 == 0) ≡ false
  no_overflow w0 w1 w2 = ground arith

  module _ (t : Trie) (c : ℕ) (s : ℕ → Entry2) (c' : ℕ) (s' : ℕ → Entry1) (c'' : ℕ) (s'' : ℕ → ℕ)
      (pos : 0 < c'') (most : c'' ≤ 512) where
    Moves : Indices → Type 0
    Moves ix' =
        trie_alloc_iter_next (indices_of ptr) (before t c s c' s' c'' s'' pos most i0 i1 i2 i3)
        ≡ reopen (indices_of ptr) ix' (before t c s c' s' c'' s'' pos most i0 i1 i2 i3)

    next_held : Moves (indices_of (ptr + 4096))
    unfolding Moves
    next_held = elim (Bool-cases (wrap_add i0 == 0)) [
      | inr w0 ↦
          subst Moves (sym (step0 w0)) (next_within t c s c' s' c'' s'' pos most i0 i1 i2 i3 w0)
      | inl w0 ↦ elim (Bool-cases (wrap_add i1 == 0)) [
        | inr w1 ↦
            subst Moves (sym (step1 w0 w1))
              (next_table1_lem t c s c' s' c'' s'' pos most i0 i1 i2 i3 w0 w1)
        | inl w1 ↦ elim (Bool-cases (wrap_add i2 == 0)) [
          | inr w2 ↦
              subst Moves (sym (step2 w0 w1 w2))
                (next_table2_lem t c s c' s' c'' s'' pos most i0 i1 i2 i3 w0 w1 w2)
          | inl w2 ↦ subst Moves (sym (step3 w0 w1 w2)) (
              next_table3_lem t c s c' s' c'' s'' pos most i0 i1 i2 i3 w0 w1 w2
                (no_overflow w0 w1 w2))
        ]
      ]
    ]

  -- On a trie at rest, for a page below 2 ^ 48 - 4096 whose table of level 1 was not destroyed: once an
  -- allocating iterator was opened at the page and stored a word, moving it on does and answers what
  -- closing it and opening it at the next page does, tables made on the way included.
  pub trie_alloc_iter_next-reopen :
      (w : ℕ) (t : Trie)
      → AtRest t
      → Intact (made2 (indices_of ptr) t i1)
      → (trie_alloc_iter_init (indices_of ptr)
            >> store w (indices_of ptr)
            >> trie_alloc_iter_next (indices_of ptr))
          t
        ≡ (trie_alloc_iter_init (indices_of ptr)
              >> store w (indices_of ptr)
              >> reopen (indices_of ptr) (indices_of (ptr + 4096)))
            t
  unfolding Moves
  trie_alloc_iter_next-reopen w t h intact =
      let ix = indices_of ptr in
      let r = made1-Rest ix t h intact in
      rw
        (
          alloc_open ix t h intact,
          at0-tree ix t (count3 ix t) (made3 ix t) (count2 ix t) (made2 ix t) (count1 ix t) true
              (made1 ix t) (λ _. some (w, tt)) refl,
          ◌>>=◌,
        )
        (next_held t (count3 ix t) (made3 ix t) (count2 ix t) (made2 ix t) (count1 ix t)
          (set (made1 ix t) ix.i0 w) r.1 r.2)
