-- ===== src/Trie/Roundtrip.antt =====
-- A block that is stored and freed leaves the words of all pages as they were.
use budalloc.Prelude.{
  ℕ, suc, ◌+◌, ◌-◌, ◌%◌, ◌^◌, ◌≤◌, ◌<◌, ◌≡◌, ◌≢◌, ◌==◌, refl, sym, ap, ◌∙◌, Bool, true, false, some,
  if◌then◌else◌, arith,
}
use mathlib.Core.Path.{subst}
use budalloc.Trie.{Trie, Indices, indices, indices_of}
use budalloc.Trie.Rest.{AtRest, word, InRange}
use budalloc.Trie.Open.{Room}
use budalloc.Trie.Free.{in_pages, free_aliases-Freed}
use budalloc.Trie.Fill.{block_word}
use budalloc.Trie.Malloc.{Stored, malloc_large-Stored}
use budalloc.Trie.Access.{
  block, free_aliases, head_word, malloc_large, alias_pages, class_index, canon, size_index,
  size_of,
}

==-refl : (a : ℕ) → (a == a) ≡ true
==-refl a = ground arith

-- A page of the block of `n` pages from that of `ix` on.
in_pages-at :
    (ix : Indices) (n x : ℕ)
    → ix.i0 ≤ x
    → x < ix.i0 + n
    → in_pages ix n (indices x ix.i1 ix.i2 ix.i3) ≡ true
in_pages-at ix n x low high = rw (==-refl ix.i3, ==-refl ix.i2, ==-refl ix.i1) (ground arith)

indices-offset :
    (page o : ℕ)
    → page % 4096 ≡ 0
    → page < 2 ^ 48
    → o < 4096
    → indices_of ((page + o) % 2 ^ 64) ≡ indices_of page
indices-offset page o aligned low small = ground arith

back : (w v : ℕ) (b : Bool) → (b ≡ true → w ≡ 0) → (if b then 0 else (if b then v else w)) ≡ w
back w v true e = sym (e refl)
back w v false e = refl

-- On a trie at rest, for a block whose alias pages, as alloc_alias gives them, are aligned, above 0,
-- below 2 ^ 48, in one table of level 1 and without words, with room for the block on their path, and
-- where the words to be stored are not 0 and the first tells the pages of the block: the alias that
-- `__ota_malloc` returns is one for which `__ota_free` finds the block, and then the trie is at rest
-- and each page has the word that it had before both.
pub free_aliases-malloc_large :
    (mimalloc_size : ℕ → ℕ) (junk : Bool) (alloc_alias : ℕ → ℕ × ℕ) (addr size page m n_consume : ℕ)
    (t : Trie)
    → alias_pages addr size ≡ suc m
    → alloc_alias (suc m) ≡ (page, n_consume)
    → page % 4096 ≡ 0
    → 0 < page
    → page < 2 ^ 48
    → (indices_of page).i0 + suc m ≤ 512
    → AtRest t
    → Room (indices_of page) t (m + n_consume)
    → ((k : Indices) → in_pages (indices_of page) (suc m) k ≡ true → word t k ≡ 0)
    → ((o : ℕ) → o < suc m → block_word (class_index size) addr o ≢ 0)
    → alias_pages
        (canon (head_word (class_index size) addr))
        (size_of mimalloc_size (head_word (class_index size) addr))
      ≡ suc m
    → (t₁ : Trie) × (t₂ : Trie) × (malloc_large alloc_alias addr size t
        ≡ some ((page + addr % 4096) % 2 ^ 64, t₁))
      × (free_aliases mimalloc_size junk ((page + addr % 4096) % 2 ^ 64) t₁
          ≡ some (
            block
                (canon (head_word (class_index size) addr))
                (size_index (head_word (class_index size) addr))
                (size_of mimalloc_size (head_word (class_index size) addr))
                (suc m),
            t₂,
          ))
      × (AtRest t₂ × ((k : Indices) → InRange k → word t₂ k ≡ word t k))
free_aliases-malloc_large sizes junk alloc_alias addr size page m n_consume t pages gives aligned
      pos low fits h room fresh some_word told =
    let (t₁, run, stored) =
      malloc_large-Stored alloc_alias addr size page m n_consume t pages gives fits h room in
    let (t₂, run', freed) = again t₁ stored in (t₁, t₂, run, run', freed)
  where
    idx : ℕ
    idx = class_index size

    ptr : ℕ
    ptr = (page + addr % 4096) % 2 ^ 64

    ix : Indices
    ix = indices_of page

    same : indices_of ptr ≡ ix
    same = indices-offset page (addr % 4096) aligned low (omega arith)

    some_ptr : ptr ≢ 0
    some_ptr z = absurd (omega arith)

    again :
        (t₁ : Trie)
        → Stored idx addr ix (suc m) t t₁
        → (t₂ : Trie) × (free_aliases sizes junk ptr t₁
            ≡ some (
              block
                  (canon (head_word idx addr))
                  (size_index (head_word idx addr))
                  (size_of sizes (head_word idx addr))
                  (suc m),
              t₂,
            ))
          × (AtRest t₂ × ((k : Indices) → InRange k → word t₂ k ≡ word t k))
    again t₁ (rest, words) =
        let in_word : ((x : ℕ)
            → ix.i0 ≤ x
            → x < ix.i0 + suc m
            → word t₁ (indices x ix.i1 ix.i2 ix.i3) ≡ block_word idx addr (x - ix.i0)) =
          λ x first last.
            words (indices x ix.i1 ix.i2 ix.i3) (omega arith, omega arith, omega arith)
            ∙ ap
                (λ (b : Bool).
                  if b
                  then block_word idx addr (x - ix.i0)
                  else word t (indices x ix.i1 ix.i2 ix.i3))
                (in_pages-at ix (suc m) x first last) in
        let zero_off : ix.i0 - ix.i0 ≡ 0 = omega arith in
        let head : word t₁ ix ≡ head_word idx addr =
          in_word ix.i0 (omega arith) (omega arith) ∙ ap (block_word idx addr) zero_off in
        let head' : word t₁ (indices_of ptr) ≡ head_word idx addr = ap (word t₁) same ∙ head in
        let (t₂, run', freed) =
          free_aliases-Freed sizes junk ptr m t₁ rest some_ptr
            (subst (λ (q : Indices). q.i0 + suc m ≤ 512) (sym same) fits)
            (ap (λ (u : ℕ). alias_pages (canon u) (size_of sizes u)) head' ∙ told)
            (subst
              (λ (q : Indices).
                (x : ℕ) → q.i0 ≤ x → x < q.i0 + suc m → word t₁ (indices x q.i1 q.i2 q.i3) ≢ 0)
              (sym same)
              (λ x first last z.
                some_word (x - ix.i0) (omega arith) (sym (in_word x first last) ∙ z))) in
        (
          t₂,
          run'
              ∙ ap (λ (u : ℕ). some (block (canon u) (size_index u) (size_of sizes u) (suc m), t₂))
                  head',
          (
            freed.0,
            λ k kr.
                freed.1 k kr
                ∙ ap (λ (q : Indices). if in_pages q (suc m) k then 0 else word t₁ k) same
                ∙ ap (λ (u : ℕ). if in_pages ix (suc m) k then 0 else u) (words k kr)
                ∙ back (word t k) (block_word idx addr (k.i0 - ix.i0)) (in_pages ix (suc m) k)
                    (fresh k),
          ),
        )
