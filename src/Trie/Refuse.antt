-- ===== src/Trie/Refuse.antt =====
-- A page without a word is not freed, so a page is not freed twice.
use budalloc.Prelude.{
  ℕ, suc, ◌+◌, ◌≤◌, ◌<◌, ◌≡◌, ◌≢◌, ◌==◌, refl, sym, ap, ◌∙◌, ◌⊎◌, inl, inr, Bool, false, true, some,
  arith, Bool-cases, if◌then◌else◌,
}
use budalloc.Trie.{node, Trie, Indices, indices, indices_of, ◌>>=◌}
use budalloc.Trie.Rest.{
  AtRest, Depth, none3, none2, none1, full, AtRest-Depth, word, word-full, tree3_lem,
  indices-InRange,
}
use budalloc.Trie.Find.{init-none3, init-none2, init-none1, init-full, load_held, finish_held}
use budalloc.Trie.Free.{in_pages, free_aliases-Freed}
use budalloc.Trie.Access.{
  unknown, double_free, block, free_aliases, size_of, canon, size_index, alias_pages,
}

-- On a trie at rest, with `is_last` false where it is not set: for a pointer whose page has no word,
-- `__ota_free` finds no table, and returns, or finds the word 0, for which it panics. The trie is as it
-- was.
pub free_aliases-unused :
    (mimalloc_size : ℕ → ℕ) (ptr : ℕ) (t : Trie)
    → AtRest t
    → word t (indices_of ptr) ≡ 0
    → (free_aliases mimalloc_size false ptr t ≡ some (unknown, t))
      ⊎ (free_aliases mimalloc_size false ptr t ≡ some (double_free, t))
unfolding free_aliases
free_aliases-unused size ptr t h no_word = elim (Bool-cases (ptr == 0)) [
  | inl e ↦ inl (rw e refl)
  | inr e ↦ go e (AtRest-Depth ix t h)
]
  where
    ix : Indices
    ix = indices_of ptr

    go :
        (ptr == 0) ≡ false
        → Depth ix t
        → (free_aliases size false ptr t ≡ some (unknown, t))
          ⊎ (free_aliases size false ptr t ≡ some (double_free, t))
    go p (none3 e) = inl (rw (p, init-none3 ix t false e, ◌>>=◌) refl)
    go p (none2 c s e r e') = inl (
        rw (p, init-none2 ix t false c s e r.1 r.2 e', ◌>>=◌)
          (ap (λ (u : Trie). some (unknown, u)) (sym (tree3_lem ix t (node c false s) e))))
    go p (none1 c s c' s' e r e' r' dead) =
        inl (rw (p, init-none1 ix t false c s e r.1 r.2 c' s' e' r'.1 r'.2 dead, ◌>>=◌) refl)
    go p (full c s c' s' c'' s'' e r e' r' e'' r'') = inr (
        rw
          (
            p,
            init-full ix t false c s e r.1 r.2 c' s' c'' s'' e' r'.1 r'.2 e'',
            load_held ix t (c + 1) s (c' + 1) s' c'' s'' true,
            sym (word-full ix t c s e c' s' c'' s'' e' e'') ∙ no_word,
            finish_held ix t false c s e r.1 r.2 c' s' c'' s'' e' r'.1 r'.2 e'' r''.1 r''.2,
            ◌>>=◌,
          )
          refl)

==-refl : (a : ℕ) → (a == a) ≡ true
==-refl a = ground arith

first_in_pages : (ix : Indices) (n : ℕ) → in_pages ix (suc n) ix ≡ true
first_in_pages ix n = rw (==-refl ix.i3, ==-refl ix.i2, ==-refl ix.i1) (ground arith)

-- On a trie at rest, for a pointer other than NULL to a block whose alias pages lie in one table of
-- level 1 and have words that are not 0: `__ota_free` finds the block, and called with the pointer
-- again, with `is_last` false where it is not set, it finds no table or panics, and leaves the trie as
-- it is.
pub free_aliases-twice :
    (mimalloc_size : ℕ → ℕ) (junk : Bool) (ptr m : ℕ) (t : Trie)
    → AtRest t
    → ptr ≢ 0
    → (indices_of ptr).i0 + suc m ≤ 512
    → alias_pages
        (canon (word t (indices_of ptr)))
        (size_of mimalloc_size (word t (indices_of ptr)))
      ≡ suc m
    → ((x : ℕ)
        → (indices_of ptr).i0 ≤ x
        → x < (indices_of ptr).i0 + suc m
        → word t (indices x (indices_of ptr).i1 (indices_of ptr).i2 (indices_of ptr).i3) ≢ 0)
    → (t' : Trie) × (free_aliases mimalloc_size junk ptr t
        ≡ some (
          block
              (canon (word t (indices_of ptr)))
              (size_index (word t (indices_of ptr)))
              (size_of mimalloc_size (word t (indices_of ptr)))
              (suc m),
          t',
        ))
      × ((free_aliases mimalloc_size false ptr t' ≡ some (unknown, t'))
          ⊎ (free_aliases mimalloc_size false ptr t' ≡ some (double_free, t')))
free_aliases-twice size junk ptr m t h p fits pages w =
    let (t', run, rest) = free_aliases-Freed size junk ptr m t h p fits pages w in
    (
      t',
      run,
      free_aliases-unused size ptr t' rest.0 (
          rest.1 (indices_of ptr) (indices-InRange ptr)
          ∙ ap (λ (b : Bool). if b then 0 else word t (indices_of ptr))
              (first_in_pages (indices_of ptr) m)),
    )
