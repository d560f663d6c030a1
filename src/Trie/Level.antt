-- ===== src/Trie/Level.antt =====
-- One level of a path on which an entry is written: what that does to the node above it.
use budalloc.Prelude.{
  ℕ, ◌+◌, ◌<◌, ◌≡◌, ◌==◌, refl, sym, ap, ◌∙◌, inl, inr, Bool, true, false, not, ◌&&◌, if◌then◌else◌,
  arith, Bool-cases,
}
use budalloc.Trie.{Slot, empty, destroyed, node, set}
use budalloc.Trie.Tables.{tally, tally-set, tally-none, one_if}
use budalloc.Trie.Runs.{cut, gone}
use budalloc.Trie.Rest.{Rest, live, below, set-all}

==→eq : (a b : ℕ) → (a == b) ≡ true → a ≡ b
==→eq a b h = ground arith

dead_below : {A : Type 0} (j : ℕ) (f : A → ℕ) (z : Slot A) → live z ≡ false → below j f z ≡ 0
dead_below j f empty h = refl
dead_below j f destroyed h = refl
dead_below j f (node c l s) h = absurd (cc h)

pub live-cut :
    {A : Type 0} (c : ℕ) (s : ℕ → A) (z : Slot A)
    → live z ≡ false
    → (last : Bool) → live (cut z last c s) ≡ not (gone last c)
live-cut c s z dead false = refl
live-cut c s z dead true = elim (Bool-cases (c == 1)) [
  | inl one ↦ rw one dead
  | inr more ↦ rw more refl
]

-- A value of the entries, after a write that makes it `n` where `changed` holds.
pub get-set :
    {A : Type 0} (f : A → ℕ) (s : ℕ → A) (i : ℕ) (v : A) (j : ℕ) (changed : Bool) (n : ℕ)
    → f v ≡ (if changed then n else f (s i))
    → f (set s i v j) ≡ (if i == j && changed then n else f (s j))
unfolding set
get-set f s i v j changed n w = elim (Bool-cases (i == j)) [
  | inl here ↦ rw here (w ∙ ap (λ (k : ℕ). if changed then n else f (s k)) (==→eq i j here))
  | inr elsewhere ↦ rw elsewhere refl
]

-- Entries have a test `used`, the condition at rest and a word for a page, which is 0 where they are
-- not used.
module _ {A : Type 0} (D : Type 0) (used : A → Bool) (P : A → Type 0) (c : ℕ) (s : ℕ → A) (i : ℕ)
    (v : A) (in_range : i < 512) (rest : Rest D used P (node c false s))
    (was_used : used (s i) ≡ true) (new_rest : P v) where
  -- An entry that stays in use.
  pub Rest-kept : used v ≡ true → Rest D used P (node c false (set s i v))
  Rest-kept still = (
    refl,
    rest.1,
    rest.2,
    omega (arith, rest.3, tally-set used 512 s i v in_range, ap one_if was_used, ap one_if still),
    set-all P s i v rest.4 new_rest,
  )

  -- An entry that is used no more, with the count lowered.
  fewer : used v ≡ false → tally used 512 (set s i v) + 1 ≡ tally used 512 s
  fewer no_more =
      omega (arith, tally-set used 512 s i v in_range, ap one_if was_used, ap one_if no_more)

  pub Rest-cut :
      (z : Slot A)
      → Rest D used P z
      → (last : Bool) → used v ≡ not last
      → Rest D used P (cut z last c (set s i v))
  Rest-cut z z_rest false e = Rest-kept e
  Rest-cut z z_rest true e = elim (Bool-cases (c == 1)) [
    | inl one ↦ rw one z_rest
    | inr more ↦ rw more (
      refl,
      ground (arith, rest.1),
      omega (arith, rest.2),
      omega (arith, rest.3, fewer e),
      set-all P s i v rest.4 new_rest,
    )
  ]

  -- Where the count comes to 0, no entry is in use.
  pub all_unused : used v ≡ false → (c == 1) ≡ true → (j : ℕ) → j < 512 → used (set s i v j) ≡ false
  all_unused e one j h = tally-none used 512 (set s i v) j h (ground (arith, rest.3, fewer e))

  module _ (f : A → ℕ) (unused : (a : A) → used a ≡ false → f a ≡ 0) (j : ℕ)
      (j_range : j < 512) where
    -- The word is erased at the page of index `i` for which it is erased below.
    pub below-cut :
        (z : Slot A)
        → live z ≡ false
        → (last : Bool) → used v ≡ not last
        → (erased : Bool) → f v ≡ (if erased then 0 else f (s i))
        → below j f (cut z last c (set s i v))
          ≡ (if i == j && erased then 0 else below j f (node c false s))
    below-cut z dead false e erased w = get-set f s i v j erased 0 w
    below-cut z dead true e erased w = elim (Bool-cases (c == 1)) [
      | inl one ↦ rw one (
          dead_below j f z dead
          ∙ sym (unused (set s i v j) (all_unused e one j j_range))
          ∙ get-set f s i v j erased 0 w)
      | inr more ↦ rw more (get-set f s i v j erased 0 w)
    ]
