-- ===== src/Trie/Runs.antt =====
-- Operations on the nodes of a path, where the path is written out: its entries as writes to tables.
use budalloc.Prelude.{
  ℕ, ◌+◌, ◌-◌, ◌≤◌, ◌<◌, ◌≡◌, refl, Bool, true, false, some, ◌==◌, if◌then◌else◌, arith,
}
use budalloc.Trie.{
  Slot, empty, destroyed, node, Entry1, Entry2, Entry3, Trie, Indices, set, Op, M, ◌>>=◌, at0, at1,
  at2, at3, within, acquire, release, lock, unlock, drop_cnt,
}
use budalloc.Trie.Iter.{trie_iter_init, trie_iter_finish}
use budalloc.Trie.Tables.{set-same, set-set}

pub bind-some :
    {A B : Type 0} (m : M A) (f : A → M B) (t : Trie) {a : A} {t' : Trie}
    → m t ≡ some (a, t')
    → (m >>= f) t ≡ f a t'
bind-some m f t h = rw (h, ◌>>=◌)

-- A trie with an entry on the path of `ix`, and with nodes above it.
abbrev pub tree3 : Indices → Trie → Entry3 → Trie
tree3 ix t x = set t ix.i3 x

abbrev pub tree2 : Indices → Trie → ℕ → (ℕ → Entry2) → Entry2 → Trie
tree2 ix t c s x = tree3 ix t (node c false (set s ix.i2 x))

abbrev pub tree1 : Indices → Trie → ℕ → (ℕ → Entry2) → ℕ → (ℕ → Entry1) → Entry1 → Trie
tree1 ix t c s c' s' x = tree2 ix t c s (node c' false (set s' ix.i1 x))

within-set :
    {A R : Type 0} (i c : ℕ) (l : Bool) (s : ℕ → A) (f : Op A R) (x : A) {v : A} {r : R}
    → f x ≡ some (v, r)
    → within i f (node c l (set s i x)) ≡ some (node c l (set s i v), r)
unfolding within
within-set i c l s f x {v = v} h = rw (set-same s i x, h, set-set s i x v)

module _ {R : Type 0} (ix : Indices) (t : Trie) where
  pub at3-tree :
      (f : Op Entry3 R) (x : Entry3) {v : Entry3} {r : R}
      → f x ≡ some (v, r)
      → at3 ix f (tree3 ix t x) ≡ some (r, tree3 ix t v)
  unfolding at3
  at3-tree f x {v = v} h = rw (set-same t ix.i3 x, h, set-set t ix.i3 x v)

  module _ (c : ℕ) (s : ℕ → Entry2) where
    pub at2-tree :
        (f : Op Entry2 R) (x : Entry2) {v : Entry2} {r : R}
        → f x ≡ some (v, r)
        → at2 ix f (tree2 ix t c s x) ≡ some (r, tree2 ix t c s v)
    unfolding at2
    at2-tree f x h = at3-tree (within ix.i2 f) _ (within-set ix.i2 c false s f x h)

    module _ (c' : ℕ) (s' : ℕ → Entry1) where
      pub at1-tree :
          (f : Op Entry1 R) (x : Entry1) {v : Entry1} {r : R}
          → f x ≡ some (v, r)
          → at1 ix f (tree1 ix t c s c' s' x) ≡ some (r, tree1 ix t c s c' s' v)
      unfolding at1
      at1-tree f x h = at2-tree (within ix.i1 f) _ (within-set ix.i1 c' false s' f x h)

      pub at0-tree :
          (c'' : ℕ) (l : Bool) (s'' : ℕ → ℕ) (f : Op ℕ R) {v : ℕ} {r : R}
          → f (s'' ix.i0) ≡ some (v, r)
          → at0 ix f (tree1 ix t c s c' s' (node c'' l s''))
            ≡ some (r, tree1 ix t c s c' s' (node c'' l (set s'' ix.i0 v)))
      unfolding at0 within
      at0-tree c'' l s'' f h = at1-tree (within ix.i0 f) (node c'' l s'') (rw h)

-- What is left of a node with `c` to count where its last entry may have gone: `z` if none is left.
abbrev pub cut : {A : Type 0} → Slot A → Bool → ℕ → (ℕ → A) → Slot A
cut z false c s = node c false s
cut z true c s = if c == 1 then z else node (c - 1) false s

abbrev pub gone : Bool → ℕ → Bool
gone false c = false
gone true c = c == 1

-- The count of a node at rest, taken and given back.
module _ {A : Type 0} (c : ℕ) (s : ℕ → A) (pos : 0 < c) (most : c ≤ 512) where
  pub acquire_lem : acquire (node c false s) ≡ some (node (c + 1) false s, true)
  unfolding acquire
  acquire_lem = ground arith

  pub release_lem :
      (last : Bool) → release last (node (c + 1) false s) ≡ some (cut empty last c s, gone last c)
  unfolding release
  release_lem false = ground arith
  release_lem true = ground arith

  pub unlock_lem : unlock (node c true s) ≡ some (node c false s, false)
  unfolding unlock
  unlock_lem = ground arith

  pub lower_lem : drop_cnt 1 (node c true s) ≡ some (node (c - 1) true s, tt)
  unfolding drop_cnt
  lower_lem = ground arith

  pub unlock-lower : unlock (node (c - 1) true s) ≡ some (cut destroyed true c s, gone true c)
  unfolding unlock
  unlock-lower = ground arith

-- A path taken, and given back.
module _ (ix : Indices) (t : Trie) (c : ℕ) (s : ℕ → Entry2) (pos : 0 < c) (most : c ≤ 512) (c' : ℕ)
    (s' : ℕ → Entry1) (pos' : 0 < c') (most' : c' ≤ 512) where
  pub open-tree :
      (junk : Bool) (c'' : ℕ) (s'' : ℕ → ℕ)
      → trie_iter_init junk ix (tree1 ix t c s c' s' (node c'' false s''))
        ≡ some (true, tree1 ix t (c + 1) s (c' + 1) s' (node c'' true s''))
  unfolding trie_iter_init lock
  open-tree junk c'' s'' =
      let S' = set s' ix.i1 (node c'' false s'') in
      let S = set s ix.i2 (node c' false S') in
      rw
        (
          at3-tree ix t acquire (node c false S) (acquire_lem c S pos most),
          at2-tree ix t (c + 1) s acquire (node c' false S') (acquire_lem c' S' pos' most'),
          at1-tree ix t (c + 1) s (c' + 1) s' lock (node c'' false s'') refl,
          ◌>>=◌,
        )
        refl

  pub close-tree :
      (x : Entry1) {x' : Entry1} {last : Bool}
      → unlock x ≡ some (x', last)
      → trie_iter_finish ix (tree1 ix t (c + 1) s (c' + 1) s' x)
        ≡ some (
          gone (gone last c') c,
          tree3 ix t
              (cut empty (gone last c') c (set s ix.i2 (cut empty last c' (set s' ix.i1 x')))),
        )
  unfolding trie_iter_finish
  close-tree x {x' = x'} {last = last} h =
      let S' = set s' ix.i1 x' in
      let S = set s ix.i2 (cut empty last c' S') in
      rw
        (
          at1-tree ix t (c + 1) s (c' + 1) s' unlock x h,
          at2-tree ix t (c + 1) s (release last) (node (c' + 1) false S')
              (release_lem c' S' pos' most' last),
          at3-tree ix t (release (gone last c')) (node (c + 1) false S)
              (release_lem c S pos most (gone last c')),
          ◌>>=◌,
        )
        refl

  -- Where the path ends at a table of level 1 that is missing or destroyed, nothing changes.
  pub open_and_back :
      (junk : Bool) (x : Entry1)
      → lock x ≡ some (x, false)
      → trie_iter_init junk ix (tree1 ix t c s c' s' x) ≡ some (false, tree1 ix t c s c' s' x)
  unfolding trie_iter_init
  open_and_back junk x h =
      let S' = set s' ix.i1 x in
      let S = set s ix.i2 (node c' false S') in
      rw
        (
          at3-tree ix t acquire (node c false S) (acquire_lem c S pos most),
          at2-tree ix t (c + 1) s acquire (node c' false S') (acquire_lem c' S' pos' most'),
          at1-tree ix t (c + 1) s (c' + 1) s' lock x h,
          at2-tree ix t (c + 1) s (release false) (node (c' + 1) false S')
              (release_lem c' S' pos' most' false),
          at3-tree ix t (release false) (node (c + 1) false S) (release_lem c S pos most false),
          ◌>>=◌,
        )
        refl

acquire-empty : {A : Type 0} → acquire {A = A} empty ≡ some (empty, false)
unfolding acquire
acquire-empty = refl

module _ (ix : Indices) (t : Trie) where
  pub open_at_none :
      (junk : Bool) → trie_iter_init junk ix (tree3 ix t empty) ≡ some (false, tree3 ix t empty)
  unfolding trie_iter_init acquire
  open_at_none junk = rw (at3-tree ix t acquire empty refl, ◌>>=◌) refl

  -- Without a node of level 2, `is_last` decides what is left of the node of level 3.
  pub open_at_none2 :
      (junk : Bool) (c : ℕ) (s : ℕ → Entry2)
      → 0 < c
      → c ≤ 512
      → trie_iter_init junk ix (tree2 ix t c s empty)
        ≡ some (false, tree3 ix t (cut empty junk c (set s ix.i2 empty)))
  unfolding trie_iter_init
  open_at_none2 junk c s pos most =
      let S = set s ix.i2 empty in
      rw
        (
          at3-tree ix t acquire (node c false S) (acquire_lem c S pos most),
          at2-tree ix t (c + 1) s acquire empty acquire-empty,
          at3-tree ix t (release junk) (node (c + 1) false S) (release_lem c S pos most junk),
          ◌>>=◌,
        )
        refl
