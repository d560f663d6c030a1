-- ===== src/Trie/Find.antt =====
-- Looking a page up leaves the trie as it is.
use budalloc.Prelude.{
  ℕ, ◌+◌, ◌≤◌, ◌<◌, ◌-◌, ◌≡◌, ◌==◌, if◌then◌else◌, refl, sym, ap, ◌∙◌, Bool, true, false, some,
}
use mathlib.Core.Path.{subst}
use budalloc.Trie.{
  Slot, empty, destroyed, node, Entry1, Entry2, Trie, Indices, indices_of, set, ◌>>=◌, lock, load,
}
use budalloc.Trie.Tables.{set-get}
use budalloc.Trie.Iter.{trie_iter_init, trie_iter_finish}
use budalloc.Trie.Runs.{
  tree1, tree3, at0-tree, unlock_lem, open-tree, open_and_back, open_at_none, open_at_none2,
  close-tree, cut,
}
use budalloc.Trie.Rest.{
  AtRest, Rest3, Depth, none3, none2, none1, full, AtRest-Depth, live, tree1_lem, tree2_lem,
  tree3_lem, word, word-none3, word-none2, word-none1, word-full,
}
use budalloc.Trie.Access.{malloc_usable_size, get_canonical, answer}

lock-dead : {A : Type 0} (x : Slot A) → live x ≡ false → lock x ≡ some (x, false)
unfolding lock
lock-dead empty h = refl
lock-dead destroyed h = refl
lock-dead (node c l s) h = absurd (cc h)

pub load_held :
    (ix : Indices) (t : Trie) (c : ℕ) (s : ℕ → Entry2) (c' : ℕ) (s' : ℕ → Entry1) (c'' : ℕ)
    (s'' : ℕ → ℕ) (l : Bool)
    → load ix (tree1 ix t c s c' s' (node c'' l s''))
      ≡ some (s'' ix.i0, tree1 ix t c s c' s' (node c'' l s''))
load_held ix t c s c' s' c'' s'' l =
    at0-tree ix t c s c' s' c'' l s'' (λ w. some (w, w)) refl
    ∙ ap (λ (u : ℕ → ℕ). some (s'' ix.i0, tree1 ix t c s c' s' (node c'' l u))) (set-get s'' ix.i0)

-- The same where the path is given by equations.
module _ (ix : Indices) (t : Trie) (junk : Bool) where
  pub init-none3 : t ix.i3 ≡ empty → trie_iter_init junk ix t ≡ some (false, t)
  init-none3 e =
      subst (λ (u : Trie). trie_iter_init junk ix u ≡ some (false, u))
        (sym (tree3_lem ix t empty e)) (open_at_none ix t junk)

  module _ (c : ℕ) (s : ℕ → Entry2) (e : t ix.i3 ≡ node c false s) (pos : 0 < c)
      (most : c ≤ 512) where
    pub init-none2 :
        s ix.i2 ≡ empty → trie_iter_init junk ix t ≡ some (false, tree3 ix t (cut empty junk c s))
    init-none2 e' =
        ap (trie_iter_init junk ix) (tree2_lem ix t c s empty e e')
        ∙ open_at_none2 ix t junk c s pos most
        ∙ ap (λ (u : ℕ → Entry2). some (false, tree3 ix t (cut empty junk c u)))
            (rw (← e') (set-get s ix.i2))

    pub init-none1 :
        (c' : ℕ) (s' : ℕ → Entry1)
        → s ix.i2 ≡ node c' false s'
        → 0 < c'
        → c' ≤ 512
        → live (s' ix.i1) ≡ false
        → trie_iter_init junk ix t ≡ some (false, t)
    init-none1 c' s' e' pos' most' dead =
        subst (λ (u : Trie). trie_iter_init junk ix u ≡ some (false, u))
          (sym (tree1_lem ix t c s c' s' (s' ix.i1) e e' refl))
          (open_and_back ix t c s pos most c' s' pos' most' junk (s' ix.i1)
            (lock-dead (s' ix.i1) dead))

    pub init-full :
        (c' : ℕ) (s' : ℕ → Entry1) (c'' : ℕ) (s'' : ℕ → ℕ)
        → s ix.i2 ≡ node c' false s'
        → 0 < c'
        → c' ≤ 512
        → s' ix.i1 ≡ node c'' false s''
        → trie_iter_init junk ix t
          ≡ some (true, tree1 ix t (c + 1) s (c' + 1) s' (node c'' true s''))
    init-full c' s' c'' s'' e' pos' most' e'' =
        ap (trie_iter_init junk ix) (tree1_lem ix t c s c' s' (node c'' false s'') e e' e'')
        ∙ open-tree ix t c s pos most c' s' pos' most' junk c'' s''

    pub finish_held :
        (c' : ℕ) (s' : ℕ → Entry1) (c'' : ℕ) (s'' : ℕ → ℕ)
        → s ix.i2 ≡ node c' false s'
        → 0 < c'
        → c' ≤ 512
        → s' ix.i1 ≡ node c'' false s''
        → 0 < c''
        → c'' ≤ 512
        → trie_iter_finish ix (tree1 ix t (c + 1) s (c' + 1) s' (node c'' true s''))
          ≡ some (false, t)
    finish_held c' s' c'' s'' e' pos' most' e'' pos'' most'' =
        close-tree ix t c s pos most c' s' pos' most' (node c'' true s'')
          (unlock_lem c'' s'' pos'' most'')
        ∙ ap (λ (u : Trie). some (false, u))
            (sym (tree1_lem ix t c s c' s' (node c'' false s'') e e' e''))

-- On a trie at rest, with `is_last` false where it is not set: `__ota_malloc_usable_size` answers by
-- the word of the page, which is 0 where there is no table, and leaves the trie as it was.
pub malloc_usable_size_lem :
    (mimalloc_size : ℕ → ℕ) (ptr : ℕ) (t : Trie)
    → AtRest t
    → malloc_usable_size mimalloc_size false ptr t
      ≡ some (answer (get_canonical mimalloc_size (word t (indices_of ptr))), t)
unfolding malloc_usable_size get_canonical
malloc_usable_size_lem size ptr t h = go (AtRest-Depth ix t h)
  where
    ix : Indices
    ix = indices_of ptr

    go :
        Depth ix t
        → malloc_usable_size size false ptr t ≡ some (answer (get_canonical size (word t ix)), t)
    go (none3 e) = rw (init-none3 ix t false e, word-none3 ix t e, ◌>>=◌) refl
    go (none2 c s e r e') =
        rw (init-none2 ix t false c s e r.1 r.2 e', word-none2 ix t c s e e', ◌>>=◌)
          (ap (λ (u : Trie). some (0, u)) (sym (tree3_lem ix t (node c false s) e)))
    go (none1 c s c' s' e r e' r' dead) =
        rw
          (
            init-none1 ix t false c s e r.1 r.2 c' s' e' r'.1 r'.2 dead,
            word-none1 ix t c s e c' s' e' dead,
            ◌>>=◌,
          )
          refl
    go (full c s c' s' c'' s'' e r e' r' e'' r'') =
        rw
          (
            init-full ix t false c s e r.1 r.2 c' s' c'' s'' e' r'.1 r'.2 e'',
            load_held ix t (c + 1) s (c' + 1) s' c'' s'' true,
            finish_held ix t false c s e r.1 r.2 c' s' c'' s'' e' r'.1 r'.2 e'' r''.1 r''.2,
            word-full ix t c s e c' s' c'' s'' e' e'',
            ◌>>=◌,
          )
          refl

-- Where the node of level 3 on the page's path has no node of level 2 and `is_last`, which is not set
-- then, holds true: `__ota_malloc_usable_size` answers 0 and lowers the count of that node by 1, or,
-- where it was 1, empties its entry.
pub malloc_usable_size-junk :
    (mimalloc_size : ℕ → ℕ) (ptr : ℕ) (t : Trie) (c : ℕ) (s : ℕ → Entry2)
    → AtRest t
    → t (indices_of ptr).i3 ≡ node c false s
    → s (indices_of ptr).i2 ≡ empty
    → malloc_usable_size mimalloc_size true ptr t
      ≡ some (0, set t (indices_of ptr).i3 (if c == 1 then empty else node (c - 1) false s))
unfolding malloc_usable_size
malloc_usable_size-junk size ptr t c s h e e' =
    let r = subst Rest3 e (h (indices_of ptr).i3) in
    rw (init-none2 (indices_of ptr) t true c s e r.1 r.2 e', ◌>>=◌) refl
