-- ===== src/Trie/Open.antt =====
-- Opening an allocating iterator: the nodes that are missing are made.
use budalloc.Prelude.{ℕ, ◌+◌, ◌≤◌, ◌≡◌, refl, Bool, true, false, some, arith}
use budalloc.Trie.{
  Slot, empty, destroyed, node, Entry1, Entry2, Entry3, Trie, Indices, set, new_page, Op, ◌>>=◌,
  at1, at2, at3, within, touch, touch_lock,
}
use budalloc.Trie.Tables.{tally, tally-unused, one_if}
use budalloc.Trie.Iter.{trie_alloc_iter_init}
use budalloc.Trie.Runs.{tree1, tree2, tree3, at3-tree, at2-tree}
use budalloc.Trie.Rest.{Rest, Rest1, Rest2, Rest3, AtRest, live, nonzero, below}

-- The count and the table of an entry, where a missing node is made first.
abbrev pub count_of : {A : Type 0} → Slot A → ℕ
count_of empty = 512
count_of destroyed = 512
count_of (node c l s) = c

abbrev pub table_of : {A : Type 0} → A → Slot A → ℕ → A
table_of z empty = new_page z
table_of z destroyed = new_page z
table_of z (node c l s) = s

abbrev pub Intact : {A : Type 0} → Slot A → Type 0
Intact empty = Unit {0}
Intact destroyed = ⊥
Intact (node c l s) = Unit {0}

module _ {A : Type 0} (D : Type 0) (used : A → Bool) (P : A → Type 0) (z : A) where
  pub touch_lem :
      (x : Slot A)
      → Intact x
      → Rest D used P x
      → touch z x ≡ some (node (count_of x) false (table_of z x), tt)
  unfolding touch
  touch_lem empty i r = refl
  touch_lem destroyed i r = absurd i
  touch_lem (node c true s) i r = absurd (cc r.0)
  touch_lem (node c false s) i r = refl

  pub touch_lock_lem :
      (x : Slot A)
      → Intact x
      → Rest D used P x
      → touch_lock z x ≡ some (node (count_of x) true (table_of z x), tt)
  unfolding touch_lock
  touch_lock_lem empty i r = refl
  touch_lock_lem destroyed i r = absurd i
  touch_lock_lem (node c true s) i r = absurd (cc r.0)
  touch_lock_lem (node c false s) i r = refl

  -- A node that was made is at rest.
  pub opened-Rest :
      (x : Slot A)
      → used z ≡ false
      → P z
      → Intact x
      → Rest D used P x
      → Rest D used P (node (count_of x) false (table_of z x))
  opened-Rest empty unused zr i r = (
    refl,
    omega arith,
    omega arith,
    omega (arith, tally-unused used 512 (new_page z) (λ j. unused)),
    λ j. zr,
  )
  opened-Rest destroyed unused zr i r = absurd i
  opened-Rest (node c true s) unused zr i r = absurd (cc r.0)
  opened-Rest (node c false s) unused zr i r = r

pub below-opened :
    {A : Type 0} (f : A → ℕ) (z : A) (x : Slot A) (j : ℕ)
    → f z ≡ 0
    → f (table_of z x j) ≡ below j f x
below-opened f z empty j h = h
below-opened f z destroyed j h = h
below-opened f z (node c l s) j h = refl

-- An operation on the entry of a table, and on those of a path.
within-at :
    {A R : Type 0} (i c : ℕ) (l : Bool) (s : ℕ → A) (f : Op A R) {v : A} {r : R}
    → f (s i) ≡ some (v, r)
    → within i f (node c l s) ≡ some (node c l (set s i v), r)
unfolding within
within-at i c l s f h = rw h refl

module _ {R : Type 0} (ix : Indices) (t : Trie) where
  pub at3-at :
      (f : Op Entry3 R) {v : Entry3} {r : R}
      → f (t ix.i3) ≡ some (v, r)
      → at3 ix f t ≡ some (r, tree3 ix t v)
  unfolding at3
  at3-at f h = rw h refl

  module _ (c : ℕ) (s : ℕ → Entry2) where
    pub at2-at :
        (f : Op Entry2 R) {v : Entry2} {r : R}
        → f (s ix.i2) ≡ some (v, r)
        → at2 ix f (tree3 ix t (node c false s)) ≡ some (r, tree2 ix t c s v)
    unfolding at2
    at2-at f h = at3-tree ix t (within ix.i2 f) (node c false s) (within-at ix.i2 c false s f h)

    pub at1-at :
        (c' : ℕ) (s' : ℕ → Entry1) (f : Op Entry1 R) {v : Entry1} {r : R}
        → f (s' ix.i1) ≡ some (v, r)
        → at1 ix f (tree2 ix t c s (node c' false s')) ≡ some (r, tree1 ix t c s c' s' v)
    unfolding at1
    at1-at c' s' f h =
        at2-tree ix t c s (within ix.i1 f) (node c' false s') (within-at ix.i1 c' false s' f h)

-- The tables and counts on the path of an iterator that is opened.
module _ (ix : Indices) (t : Trie) where
  abbrev pub made3 : ℕ → Entry2
  made3 = table_of empty (t ix.i3)

  abbrev pub made2 : ℕ → Entry1
  made2 = table_of empty (made3 ix.i2)

  abbrev pub made1 : ℕ → ℕ
  made1 = table_of 0 (made2 ix.i1)

  abbrev pub count3 : ℕ
  count3 = count_of (t ix.i3)

  abbrev pub count2 : ℕ
  count2 = count_of (made3 ix.i2)

  abbrev pub count1 : ℕ
  count1 = count_of (made2 ix.i1)

  -- Each node on the path counts one entry more than it has in use, or the entry is in use already;
  -- that of level 1 counts `m` more, and was not destroyed.
  abbrev pub Room : ℕ → Type 0
  Room m =
      (tally live 512 made3 + 1 ≤ count3 + one_if (live (made3 ix.i2)))
      × (tally live 512 made2 + 1 ≤ count2 + one_if (live (made2 ix.i1)))
      × (tally nonzero 512 made1 + 1 + m ≤ count1)
      × Intact (made2 ix.i1)

  module _ (h : AtRest t) where
    Intact3 : (x : Slot Entry2) → Rest3 x → Intact x
    Intact3 empty r = tt
    Intact3 destroyed r = r
    Intact3 (node c l s) r = tt

    Intact2 : (x : Slot Entry1) → Rest2 x → Intact x
    Intact2 empty r = tt
    Intact2 destroyed r = r
    Intact2 (node c l s) r = tt

    pub made3-Rest : Rest3 (node count3 false made3)
    made3-Rest =
        opened-Rest ⊥ live Rest2 empty (t ix.i3) refl tt (Intact3 (t ix.i3) (h ix.i3)) (h ix.i3)

    pub made2-Rest : Rest2 (node count2 false made2)
    made2-Rest =
        let r = made3-Rest.4 ix.i2 in
        opened-Rest ⊥ live Rest1 empty (made3 ix.i2) refl tt (Intact2 (made3 ix.i2) r) r

    module _ (intact : Intact (made2 ix.i1)) where
      pub made1-Rest : Rest1 (node count1 false made1)
      made1-Rest =
          opened-Rest (Unit {0}) nonzero (λ w. Unit {0}) 0 (made2 ix.i1) refl tt intact
            (made2-Rest.4 ix.i1)

      pub alloc_open :
          trie_alloc_iter_init ix t
          ≡ some (tt, tree1 ix t count3 made3 count2 made2 (node count1 true made1))
      unfolding trie_alloc_iter_init
      alloc_open =
          let r = h ix.i3 in
          let r' = made3-Rest.4 ix.i2 in
          rw
            (
              at3-at ix t (touch empty)
                  (touch_lem ⊥ live Rest2 empty (t ix.i3) (Intact3 (t ix.i3) r) r),
              at2-at ix t count3 made3 (touch empty)
                  (touch_lem ⊥ live Rest1 empty (made3 ix.i2) (Intact2 (made3 ix.i2) r') r'),
              at1-at ix t count3 made3 count2 made2 (touch_lock 0) (
                  touch_lock_lem (Unit {0}) nonzero (λ w. Unit {0}) 0 (made2 ix.i1) intact
                    (made2-Rest.4 ix.i1)),
              ◌>>=◌,
            )
            refl
