-- ===== src/AliasCache/Slots.antt =====
-- The cache as a multiset of addresses: what each loop of `alloc_alias` takes from it and puts in.
use budalloc.Prelude.{
  ℕ, ◌+◌, ◌*◌, ◌^◌, ◌≤◌, ◌<◌, ◌≡◌, refl, inl, inr, ◌&&◌, Option, none, some, List, [], ◌∷◌, ltb,
  leb, ◌==◌, arith, Bool-cases, if◌then◌else◌, add64,
}
use budalloc.AliasCache.{AliasRange, rest_of, take_from, fill, clear, set_first}

-- 1 where the address lies in `[lo, hi)`, else 0.
abbrev pub inside : ℕ → ℕ → ℕ → ℕ
inside lo hi a = if leb lo a && ltb a hi then 1 else 0

-- How many slots hold an address.
unfoldable pub holders : ℕ → List AliasRange → ℕ
holders a [] = 0
holders a (r ∷ l) = inside r.start r.end a + holders a l

-- Every slot is a range, and ends where addresses have been handed out up to.
abbrev pub Below : ℕ → List AliasRange → Type 0
Below high [] = Unit {0}
Below high (r ∷ l) = (r.start ≤ r.end) × (r.end ≤ high) × Below high l

pub Below-mono : (h h' : ℕ) (l : List AliasRange) → h ≤ h' → Below h l → Below h' l
Below-mono h h' [] p b = tt
Below-mono h h' (r ∷ l) p b = (b.0, omega arith, Below-mono h h' l p b.2)

pub holders-above : (h a : ℕ) (l : List AliasRange) → Below h l → h ≤ a → holders a l ≡ 0
unfolding holders
holders-above h a [] b p = refl
holders-above h a (r ∷ l) b p = ground (arith, holders-above h a l b.2 p)

-- What the first loop finds.
abbrev pub Taken : ℕ → ℕ → List AliasRange → Option (ℕ × ℕ × List AliasRange) → Type 0
Taken high len l none = Unit {0}
Taken high len l (some (s, n, l')) =
    Below high l'
    × (s + len + n * 4096 ≤ high)
    × ((a : ℕ) → holders a l' + inside s (s + len + n * 4096) a ≤ holders a l)

module _ (high len : ℕ) (room : high + len < 2 ^ 64) where
  -- A slot gives away its first `len` bytes, and the pages that are too few to keep.
  rest_of_lem :
      (r : AliasRange) (a : ℕ)
      → r.start ≤ r.end
      → r.end ≤ high
      → r.start + len ≤ r.end
      → (inside (rest_of r len).0.start (rest_of r len).0.end a
            + inside r.start (r.start + len + (rest_of r len).1 * 4096) a
          ≤ inside r.start r.end a)
        × ((rest_of r len).0.start ≤ (rest_of r len).0.end)
        × ((rest_of r len).0.end ≤ r.end)
  unfolding rest_of
  rest_of_lem r a p q fits = ground arith

  Taken-cons :
      (r : AliasRange) (l : List AliasRange) (o : Option (ℕ × ℕ × List AliasRange))
      → r.start ≤ r.end
      → r.end ≤ high
      → Taken high len l o
      → Taken high len (r ∷ l) (elim o [ none ↦ none | some (s, m, l') ↦ some (s, m, r ∷ l') ])
  unfolding holders
  Taken-cons r l none p q t = tt
  Taken-cons r l (some (s, m, l')) p q (below, top, kept) =
      ((p, q, below), top, λ a. omega (arith, kept a))

  rest_of_top :
      (r : AliasRange)
      → r.end ≤ high
      → r.start + len ≤ r.end
      → r.start + len + (rest_of r len).1 * 4096 ≤ r.end
  unfolding rest_of
  rest_of_top r p fits = ground arith

  pub take_from_lem : (l : List AliasRange) → Below high l → Taken high len l (take_from len l)
  unfolding take_from holders
  take_from_lem [] b = tt
  take_from_lem (r ∷ l) b = elim (Bool-cases (leb (add64 r.start len) r.end)) [
    | inr e ↦ rw e (Taken-cons r l (take_from len l) b.0 b.1 (take_from_lem l b.2))
    | inl e ↦
        let fits : r.start + len ≤ r.end = ground arith in
        rw e (
          ((rest_of_lem r 0 b.0 b.1 fits).1, omega (arith, (rest_of_lem r 0 b.0 b.1 fits).2), b.2),
          omega (arith, rest_of_top r b.1 fits),
          λ a. omega (arith, (rest_of_lem r a b.0 b.1 fits).0),
        )
  ]

-- What the second loop does with a range.
abbrev pub Filled : ℕ → AliasRange → List AliasRange → Option (List AliasRange) → Type 0
Filled high r l none = Unit {0}
Filled high r l (some l') =
    Below high l' × ((a : ℕ) → holders a l' ≤ inside r.start r.end a + holders a l)

module _ (high : ℕ) (r : AliasRange) (order : r.start ≤ r.end) (top : r.end ≤ high) where
  Filled-cons :
      (u : AliasRange) (l : List AliasRange) (o : Option (List AliasRange))
      → u.start ≤ u.end
      → u.end ≤ high
      → Filled high r l o
      → Filled high r (u ∷ l) (elim o [ none ↦ none | some l' ↦ some (u ∷ l') ])
  unfolding holders
  Filled-cons u l none p q f = tt
  Filled-cons u l (some l') p q (below, kept) = ((p, q, below), λ a. omega (arith, kept a))

  pub fill_lem : (l : List AliasRange) → Below high l → Filled high r l (fill r l)
  unfolding fill holders
  fill_lem [] b = tt
  fill_lem (u ∷ l) b = elim (Bool-cases (u.end == 0)) [
    | inr e ↦ rw e (Filled-cons u l (fill r l) b.0 b.1 (fill_lem l b.2))
    | inl e ↦ rw e ((order, top, b.2), λ a. ground arith)
  ]

  Below-clear : (l : List AliasRange) → Below high (clear l)
  unfolding clear
  Below-clear [] = tt
  Below-clear (u ∷ l) = (omega arith, omega arith, Below-clear l)

  holders-clear : (a : ℕ) (l : List AliasRange) → holders a (clear l) ≡ 0
  unfolding clear holders
  holders-clear a [] = refl
  holders-clear a (u ∷ l) = ground (arith, holders-clear a l)

  -- A cleared cache with the range in slot 0 holds no more than the range.
  pub set_first-clear :
      (l : List AliasRange)
      → Below high (set_first r (clear l))
        × ((a : ℕ) → holders a (set_first r (clear l)) ≤ inside r.start r.end a)
  unfolding set_first clear holders
  set_first-clear [] = (tt, λ a. omega arith)
  set_first-clear (u ∷ l) = ((order, top, Below-clear l), λ a. ground (arith, holders-clear a l))
