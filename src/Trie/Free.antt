-- ===== src/Trie/Free.antt =====
-- Freeing a block of several alias pages in one table.
use budalloc.Prelude.{
  ℕ, suc, ◌+◌, ◌-◌, ◌≤◌, ◌<◌, ◌≡◌, ◌≢◌, ◌==◌, refl, sym, ap, ◌∙◌, Bool, true, false, not, ◌&&◌,
  some, if◌then◌else◌, arith,
}
use budalloc.Trie.{
  empty, node, Entry1, Entry2, Entry3, Trie, Indices, indices, indices_of, set, ◌>>=◌, drop_cnt,
}
use mathlib.Core.Path.{subst}
use budalloc.Trie.Tables.{tally}
use budalloc.Trie.Iter.{trie_iter_dec_cnt}
use budalloc.Trie.Runs.{tree1, tree3, at0-tree, at1-tree, lower_lem, close-tree, cut, gone}
use budalloc.Trie.Rest.{
  Rest1, Rest2, Rest3, AtRest, Depth, none3, none2, none1, full, AtRest-Depth, live, nonzero, word,
  word1, word2, word3, word-none3, word-none2, word-none1, word-full, unused1, unused2, ne→==false,
  ne→nonzero, set-all, InRange,
}
use budalloc.Trie.Level.{Rest-cut, live-cut, below-cut, get-set}
use budalloc.Trie.Find.{init-full, load_held}
use budalloc.Trie.Wipe.{
  clear_words, clear_words-at, tally-clear_words, in_block, shut, unlock-shut, live-shut,
  shut-Rest1, word-shut, held, clear_rest_lem,
}
use budalloc.Trie.Access.{block, free_aliases, free_block, size_of, canon, size_index, alias_pages}

-- Whether a page is one of `n` from that of `ix` on, in the same table.
abbrev pub in_pages : Indices → ℕ → Indices → Bool
in_pages ix n k = ix.i3 == k.i3 && (ix.i2 == k.i2 && (ix.i1 == k.i1 && in_block ix.i0 n k.i0))

-- A trie at rest with the words of another, but for a block that has none any more.
abbrev pub Freed : Indices → ℕ → Trie → Trie → Type 0
Freed ix n t t' =
    AtRest t' × ((k : Indices) → InRange k → word t' k ≡ (if in_pages ix n k then 0 else word t k))

module _ (i j k l m : ℕ) (t : Trie) (c : ℕ) (s : ℕ → Entry2) (c' : ℕ) (s' : ℕ → Entry1) (d : ℕ)
    (s'' : ℕ → ℕ) where
  abbrev words : ℕ → ℕ
  words = clear_words i (suc m) s''

  abbrev left2 : Entry2
  left2 = cut empty (d == 0) c' (set s' j (shut d words))

  abbrev left3 : Entry3
  left3 = cut empty (gone (d == 0) c') c (set s k left2)

  module _ (r : Rest3 (node c false s)) (r' : Rest2 (node c' false s'))
      (r'' : Rest1 (node (d + suc m) false s'')) (fits : i + suc m ≤ 512) where
    free_block-held :
        (mimalloc_size : ℕ → ℕ) (w : ℕ)
        → free_block mimalloc_size
            (indices i j k l)
            w
            (suc m)
            (held j k l t (c + 1) s (c' + 1) s' (d + suc m) s'')
          ≡ some (
            block (canon w) (size_index w) (size_of mimalloc_size w) (suc m),
            tree3 (indices i j k l) t left3,
          )
    unfolding trie_iter_dec_cnt clear_words
    free_block-held size w =
        let ix = indices i j k l in
        let pred : suc m - 1 ≡ m = omega arith in
        rw
          (
            at0-tree ix t (c + 1) s (c' + 1) s' (d + suc m) true s'' (λ _. some (0, tt)) refl,
            at1-tree ix t (c + 1) s (c' + 1) s' (drop_cnt 1) (node (d + suc m) true (set s'' i 0))
                (lower_lem (d + suc m) (set s'' i 0) r''.1 r''.2),
            pred,
            clear_rest_lem j k l t (c + 1) s (c' + 1) s' m i (i + m) d (d + suc m - 1) (set s'' i 0)
                refl (omega arith) (omega arith) (omega (arith, r''.2)),
            close-tree (indices (i + m) j k l) t c s r.1 r.2 c' s' r'.1 r'.2 (node d true words)
                (unlock-shut d words (omega (arith, r''.2))),
            ◌>>=◌,
          )
          refl

    module _ (mid : j < 512) (high : k < 512) (h : AtRest t) (e : t l ≡ node c false s)
        (e' : s k ≡ node c' false s') (e'' : s' j ≡ node (d + suc m) false s'')
        (used : (x : ℕ) → i ≤ x → x < i + suc m → nonzero (s'' x) ≡ true) where
      few : tally nonzero 512 words ≤ d
      few = omega (arith, tally-clear_words (suc m) i s'' fits used, r''.3)

      left1-Rest : Rest1 (shut d words)
      left1-Rest = shut-Rest1 d words (omega (arith, r''.2)) few

      used1 : live (s' j) ≡ true
      used1 = rw e'' refl

      used2 : live (s k) ≡ true
      used2 = rw e' refl

      left2-Rest : Rest2 left2
      left2-Rest =
          Rest-cut ⊥ live Rest1 c' s' j (shut d words) mid r' used1 left1-Rest empty tt (d == 0)
            (live-shut d words)

      left2-live : live left2 ≡ not (gone (d == 0) c')
      left2-live = live-cut c' (set s' j (shut d words)) empty refl (d == 0)

      left3-Rest : Rest3 left3
      left3-Rest =
          Rest-cut ⊥ live Rest2 c s k left2 high r used2 left2-Rest empty tt (gone (d == 0) c')
            left2-live

      module _ (p : Indices) (pr : InRange p) where
        word-left1 :
            word1 p (shut d words) ≡ (if in_block i (suc m) p.i0 then 0 else word1 p (s' j))
        word-left1 = word-shut p d words pr.0 few ∙ clear_words-at (suc m) i s'' p.i0 ∙ rw e'' refl

        word-left2 :
            word2 p left2
            ≡ (if j == p.i1 && in_block i (suc m) p.i0 then 0 else word2 p (node c' false s'))
        word-left2 =
            below-cut ⊥ live Rest1 c' s' j (shut d words) mid r' used1 left1-Rest (word1 p)
              (unused1 p) p.i1 pr.1 empty refl (d == 0) (live-shut d words)
              (in_block i (suc m) p.i0) word-left1

        word-left3 : word3 p left3 ≡ (
            if k == p.i2 && (j == p.i1 && in_block i (suc m) p.i0)
            then 0
            else word3 p (node c false s))
        word-left3 =
            below-cut ⊥ live Rest2 c s k left2 high r used2 left2-Rest (word2 p) (unused2 p) p.i2
              pr.2 empty refl (gone (d == 0) c') left2-live (j == p.i1 && in_block i (suc m) p.i0)
              (rw e' word-left2)

      freed_lem : Freed (indices i j k l) (suc m) t (tree3 (indices i j k l) t left3)
      freed_lem = (
        set-all Rest3 t l left3 h left3-Rest,
        λ p pr.
            get-set (word3 p) t l left3 p.i3 (k == p.i2 && (j == p.i1 && in_block i (suc m) p.i0)) 0
              (rw e (word-left3 p pr)),
      )

-- On a trie at rest, for a pointer other than NULL to a block whose alias pages lie in one table of
-- level 1 and have words that are not 0: `__ota_free` finds the block, leaves none of its pages a word
-- and every other page its word, and the trie is at rest again.
pub free_aliases-Freed :
    (mimalloc_size : ℕ → ℕ) (junk : Bool) (ptr m : ℕ) (t : Trie)
    → AtRest t
    → ptr ≢ 0
    → (indices_of ptr).i0 + suc m ≤ 512
    → alias_pages
        (canon (word t (indices_of ptr)))
        (size_of mimalloc_size (word t (indices_of ptr)))
      ≡ suc m
    → ((x : ℕ)
        → (indices_of ptr).i0 ≤ x
        → x < (indices_of ptr).i0 + suc m
        → word t (indices x (indices_of ptr).i1 (indices_of ptr).i2 (indices_of ptr).i3) ≢ 0)
    → (t' : Trie) × (free_aliases mimalloc_size junk ptr t
        ≡ some (
          block
              (canon (word t (indices_of ptr)))
              (size_index (word t (indices_of ptr)))
              (size_of mimalloc_size (word t (indices_of ptr)))
              (suc m),
          t',
        ))
      × Freed (indices_of ptr) (suc m) t t'
unfolding free_aliases
free_aliases-Freed size junk ptr m t h some_ptr fits pages some_word = go (AtRest-Depth ix t h)
  where
    ix : Indices
    ix = indices_of ptr

    head : word t ix ≢ 0
    head = some_word ix.i0 (omega arith) (omega arith)

    Goal : Type 0
    Goal =
        (t' : Trie) × (free_aliases size junk ptr t
          ≡ some (
            block (canon (word t ix)) (size_index (word t ix)) (size_of size (word t ix)) (suc m),
            t',
          ))
        × Freed ix (suc m) t t'

    found :
        (c : ℕ) (s : ℕ → Entry2) (c' : ℕ) (s' : ℕ → Entry1) (d : ℕ) (s'' : ℕ → ℕ)
        → t ix.i3 ≡ node c false s
        → Rest3 (node c false s)
        → s ix.i2 ≡ node c' false s'
        → Rest2 (node c' false s')
        → s' ix.i1 ≡ node (d + suc m) false s''
        → Rest1 (node (d + suc m) false s'')
        → ((x : ℕ) → ix.i0 ≤ x → x < ix.i0 + suc m → nonzero (s'' x) ≡ true)
        → Goal
    found c s c' s' d s'' e r e' r' e'' r'' used =
        let is = word-full ix t c s e c' s' (d + suc m) s'' e' e'' in
        (
          tree3 ix t (left3 ix.i0 ix.i1 ix.i2 ix.i3 m t c s c' s' d s''),
          rw
              (
                ne→==false ptr 0 some_ptr,
                init-full ix t junk c s e r.1 r.2 c' s' (d + suc m) s'' e' r'.1 r'.2 e'',
                load_held ix t (c + 1) s (c' + 1) s' (d + suc m) s'' true,
                is,
                ne→==false (s'' ix.i0) 0 (λ z. head (is ∙ z)),
                ◌>>=◌,
              )
              (ap
                  (λ (n : ℕ).
                    free_block size ix (s'' ix.i0) n
                      (tree1 ix t (c + 1) s (c' + 1) s' (node (d + suc m) true s'')))
                  (ap (λ (u : ℕ). alias_pages (canon u) (size_of size u)) (sym is) ∙ pages)
                ∙ free_block-held ix.i0 ix.i1 ix.i2 ix.i3 m t c s c' s' d s'' r r' r'' fits size
                    (s'' ix.i0)),
          freed_lem ix.i0 ix.i1 ix.i2 ix.i3 m t c s c' s' d s'' r r' r'' fits (omega arith)
              (omega arith) h e e' e'' used,
        )

    go : Depth ix t → Goal
    go (none3 e) = absurd (head (word-none3 ix t e))
    go (none2 c s e r e') = absurd (head (word-none2 ix t c s e e'))
    go (none1 c s c' s' e r e' r' dead) = absurd (head (word-none1 ix t c s e c' s' e' dead))
    go (full c s c' s' c'' s'' e r e' r' e'' r'') =
        let used : ((x : ℕ) → ix.i0 ≤ x → x < ix.i0 + suc m → nonzero (s'' x) ≡ true) =
          λ x low high. ne→nonzero (s'' x) (λ z.
            some_word x low high
              (word-full (indices x ix.i1 ix.i2 ix.i3) t c s e c' s' c'' s'' e' e'' ∙ z)) in
        let split : c'' ≡ (c'' - suc m) + suc m =
          omega (arith, tally-clear_words (suc m) ix.i0 s'' fits used, r''.3) in
        found c s c' s' (c'' - suc m) s'' e r e' r' (e'' ∙ ap (λ (n : ℕ). node n false s'') split)
          (subst (λ (n : ℕ). Rest1 (node n false s'')) split r'') used
