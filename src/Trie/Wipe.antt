-- ===== src/Trie/Wipe.antt =====
-- The words of several pages of one table, set to 0 one after the other.
use budalloc.Prelude.{
  ℕ, zero, suc, ◌+◌, ◌-◌, ◌≤◌, ◌<◌, ◌≡◌, ◌==◌, refl, ap, Bool, true, false, not, ◌&&◌, leb, ltb,
  some, if◌then◌else◌, arith, Bool-cases, inl, inr,
}
use budalloc.Trie.{
  destroyed, node, Entry1, Entry2, Trie, Indices, indices, set, drop_cnt, unlock, ◌>>=◌,
}
use budalloc.Trie.Tables.{tally, tally-set, tally-none, one_if}
use budalloc.Trie.Iter.{trie_iter_next, trie_iter_dec_cnt, wrap_add}
use budalloc.Trie.Runs.{tree1, at0-tree, at1-tree, lower_lem}
use budalloc.Trie.Rest.{Rest1, live, nonzero, word1}
use budalloc.Trie.Access.{clear_rest}

unfoldable pub clear_words : ℕ → ℕ → (ℕ → ℕ) → ℕ → ℕ
clear_words i zero s = s
clear_words i (suc n) s = clear_words (suc i) n (set s i 0)

abbrev pub in_block : ℕ → ℕ → ℕ → Bool
in_block i n j = leb i j && ltb j (i + n)

pub clear_words-at :
    (n i : ℕ) (s : ℕ → ℕ) (j : ℕ) → clear_words i n s j ≡ (if in_block i n j then 0 else s j)
unfolding clear_words set
clear_words-at zero i s j = ground arith
clear_words-at (suc n) i s j = ground (arith, clear_words-at n (suc i) (set s i 0) j)

set-other : (s : ℕ → ℕ) (i j : ℕ) → i < j → nonzero (s j) ≡ true → nonzero (set s i 0 j) ≡ true
unfolding set
set-other s i j h used = ground arith

-- Words that are not 0 are so many fewer.
pub tally-clear_words :
    (n i : ℕ) (s : ℕ → ℕ)
    → i + n ≤ 512
    → ((j : ℕ) → i ≤ j → j < i + n → nonzero (s j) ≡ true)
    → tally nonzero 512 (clear_words i n s) + n ≡ tally nonzero 512 s
unfolding clear_words
tally-clear_words zero i s h used = omega arith
tally-clear_words (suc n) i s h used = omega (
  arith,
  tally-clear_words n (suc i) (set s i 0) (omega arith) still,
  tally-set nonzero 512 s i 0 (omega arith),
  ap one_if (used i (omega arith) (omega arith)),
)
  where
    still : (j : ℕ) → suc i ≤ j → j < suc i + n → nonzero (set s i 0 j) ≡ true
    still j low high = set-other s i j (omega arith) (used j (omega arith) (omega arith))

-- The entry of a table of which `d` pages are left, when it is unlocked.
abbrev pub shut : ℕ → (ℕ → ℕ) → Entry1
shut d s = if d == 0 then destroyed else node d false s

pub unlock-shut : (d : ℕ) (s : ℕ → ℕ) → d ≤ 512 → unlock (node d true s) ≡ some (shut d s, d == 0)
unfolding unlock
unlock-shut d s most = ground arith

pub live-shut : (d : ℕ) (s : ℕ → ℕ) → live (shut d s) ≡ not (d == 0)
live-shut d s = elim (Bool-cases (d == 0)) [ inl e ↦ rw e refl | inr e ↦ rw e refl ]

pub shut-Rest1 : (d : ℕ) (s : ℕ → ℕ) → d ≤ 512 → tally nonzero 512 s ≤ d → Rest1 (shut d s)
shut-Rest1 d s most few = elim (Bool-cases (d == 0)) [
  | inl e ↦ rw e tt
  | inr e ↦ rw e (refl, ground arith, most, few, λ i. tt)
]

pub word-shut :
    (k : Indices) (d : ℕ) (s : ℕ → ℕ)
    → k.i0 < 512
    → tally nonzero 512 s ≤ d
    → word1 k (shut d s) ≡ s k.i0
word-shut k d s h few = elim (Bool-cases (d == 0)) [
  | inl e ↦ rw e (ground (arith, tally-none nonzero 512 s k.i0 h (ground arith)))
  | inr e ↦ rw e refl
]

-- The loop of `__ota_free` in one table, of which `d` pages are left behind it.
module _ (j k l : ℕ) (t : Trie) (c : ℕ) (s : ℕ → Entry2) (c' : ℕ) (s' : ℕ → Entry1) where
  abbrev pub held : ℕ → (ℕ → ℕ) → Trie
  held n w = tree1 (indices 0 j k l) t c s c' s' (node n true w)

  next_in :
      (i : ℕ) (u : Trie)
      → suc i < 512
      → trie_iter_next (indices i j k l) u ≡ some ((true, indices (suc i) j k l), u)
  unfolding trie_iter_next
  next_in i u h =
      let p : wrap_add i ≡ suc i = omega arith in
      let q : (suc i == 0) ≡ false = ground arith in rw (p, q) refl

  pub clear_rest_lem :
      (m i e d n : ℕ) (w : ℕ → ℕ)
      → i + m ≡ e
      → d + m ≡ n
      → e < 512
      → n ≤ 512
      → clear_rest m (indices i j k l) (held n w)
        ≡ some (indices e j k l, held d (clear_words (suc i) m w))
  unfolding clear_rest clear_words trie_iter_dec_cnt
  clear_rest_lem zero i e d n w at left small most =
      let p : i ≡ e = omega arith in let q : n ≡ d = omega arith in rw (p, q) refl
  clear_rest_lem (suc m) i e d n w at left small most =
      rw
        (
          next_in i (held n w) (omega arith),
          at0-tree (indices (suc i) j k l) t c s c' s' n true w (λ _. some (0, tt)) refl,
          at1-tree (indices (suc i) j k l) t c s c' s' (drop_cnt 1) (node n true (set w (suc i) 0))
              (lower_lem n (set w (suc i) 0) (omega arith) most),
          ◌>>=◌,
        )
        (clear_rest_lem m (suc i) e d (n - 1) (set w (suc i) 0) (omega arith) (omega arith) small
          (omega arith))
