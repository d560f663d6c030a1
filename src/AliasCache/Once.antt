-- ===== src/AliasCache/Once.antt =====
-- One call of `alloc_alias`: what it hands out was free before the call, and is not free after it.
use budalloc.Prelude.{
  ℕ, ◌+◌, ◌*◌, ◌/◌, ◌%◌, ◌^◌, ◌≤◌, ◌<◌, ◌≡◌, inl, inr, Option, none, some, List, [], ◌∷◌, ltb, leb,
  ◌==◌, arith, Bool-cases, if◌then◌else◌, add64,
}
use budalloc.AliasCache.{
  AliasRange, span, AliasState, Grant, grant, shl64, take_from, fill, clear, set_first, used,
  keep_rest, grow, get_new_huge_aliases, grant_from, alloc_alias,
}
use budalloc.AliasCache.Slots.{
  inside, holders, Below, Below-mono, holders-above, Taken, take_from_lem, Filled, fill_lem,
  set_first-clear,
}

-- How often an address can still be handed out: by each slot that holds it, and by the counter.
unfoldable pub supply : ℕ → AliasState → ℕ
supply a s = (if leb s.high a then 1 else 0) + holders a s.cache

-- Whether a grant of `n` pages, with the pages given up behind them, has the address.
abbrev pub granted : ℕ → ℕ → Grant → ℕ
granted a n g = inside g.start (g.start + n * 4096 + g.n_consume * 4096) a

-- The bytes of new huge pages for a request.
abbrev pub huge_len : ℕ → ℕ
huge_len n = (n + 511) / 512 * 2097152

abbrev pub Outcome : ℕ → ℕ → AliasState → AliasState × Grant → Type 0
Outcome n top s (s', g) =
    Below s'.high s'.cache
    × (s.high ≤ s'.high)
    × (s'.high ≤ top)
    × ((a : ℕ) → supply a s' + granted a n g ≤ supply a s)

module _ (n : ℕ) (s : AliasState) (below : Below s.high s.cache)
    (room : s.high + huge_len n < 2 ^ 64) where
  abbrev top : ℕ
  top = s.high + huge_len n

  -- What is left of the new huge pages.
  abbrev left : AliasRange
  left = span (s.high + n * 4096) top

  abbrev taken : AliasState
  taken = record s { high = top }

  filled :
      (o : Option (List AliasRange))
      → s.high + n * 4096 ≤ top
      → Filled top left s.cache o
      → Outcome n top s (elim o [
        | some l ↦ (record taken { cache = l }, grant s.high 0 [])
        | none ↦
            (record taken { cache = set_first left (clear s.cache) }, grant s.high 0 (used s.cache))
      ])
  unfolding supply
  filled none le f =
      let (kept, few) = set_first-clear top left le (omega arith) s.cache in
      (
        kept,
        omega arith,
        omega arith,
        λ a. ground (arith, few a, holders-above s.high a s.cache below),
      )
  filled (some l) le (kept, few) = (
    kept,
    omega arith,
    omega arith,
    λ a. ground (arith, few a, holders-above s.high a s.cache below),
  )

  keep_rest_lem : Outcome n top s (keep_rest taken s.high (s.high + n * 4096) top)
  unfolding keep_rest supply
  keep_rest_lem = elim (Bool-cases (ltb (s.high + n * 4096) top)) [
    | inr e ↦ rw e (
      Below-mono s.high top s.cache (omega arith) below,
      omega arith,
      omega arith,
      λ a. ground (arith, holders-above s.high a s.cache below),
    )
    | inl e ↦ rw e (
        filled (fill left s.cache) (ground arith) (
          fill_lem top left (ground arith) (omega arith) s.cache
            (Below-mono s.high top s.cache (omega arith) below)))
  ]

  -- Slot 0 is too short for the request and ends where the new huge pages begin.
  joined_lem :
      (u : AliasRange) (l : List AliasRange)
      → Below s.high (u ∷ l)
      → s.high ≡ u.end
      → Outcome n top
          (record s { cache = u ∷ l })
          (record s { high = top; cache = span (u.start + n * 4096) top ∷ l }, grant u.start 0 [])
  unfolding supply holders
  joined_lem u l b e = (
    (omega arith, omega arith, Below-mono s.high top l (omega arith) b.2),
    omega arith,
    omega arith,
    λ a. ground (arith, holders-above s.high a l b.2),
  )

grow_lem :
    (n high : ℕ) (l : List AliasRange)
    → Below high l
    → high + huge_len n < 2 ^ 64
    → Outcome n
        (high + huge_len n)
        (record { high = high; cache = l })
        (grow (record { high = high; cache = l }) (n * 4096) (huge_len n) l)
unfolding grow get_new_huge_aliases
grow_lem n high [] b room =
    let s : AliasState = record { high = high; cache = [] } in
    let e₀ : add64 high (n * 4096) ≡ high + n * 4096 = omega arith in
    let e₁ : add64 high (huge_len n) ≡ high + huge_len n = omega arith in
    rw (e₀, e₁) (keep_rest_lem n s b room)
grow_lem n high (u ∷ l) b room =
    let s : AliasState = record { high = high; cache = u ∷ l } in
    let e₀ : add64 high (n * 4096) ≡ high + n * 4096 = omega arith in
    let e₁ : add64 high (huge_len n) ≡ high + huge_len n = omega arith in
    let e₂ : add64 u.start (n * 4096) ≡ u.start + n * 4096 = omega arith in
    rw (e₀, e₁, e₂)
      (elim (Bool-cases (high == u.end)) [
        | inl e ↦ rw e (joined_lem n s b room u l b (ground arith))
        | inr e ↦ rw e (keep_rest_lem n s b room)
      ])

grant_from_lem :
    (s : AliasState) (n : ℕ) (o : Option (ℕ × ℕ × List AliasRange))
    → Below s.high s.cache
    → s.high + huge_len n < 2 ^ 64
    → Taken s.high (n * 4096) s.cache o
    → Outcome n (s.high + huge_len n) s (grant_from s (n * 4096) (huge_len n) o)
unfolding grant_from supply
grant_from_lem s n none b room t = grow_lem n s.high s.cache b room
grant_from_lem s n (some (start, m, l)) b room (below, under, kept) =
    (below, omega arith, omega arith, λ a. omega (arith, kept a))

-- One call of `alloc_alias`, with room left below 2 ^ 64: the slots stay below the counter, the
-- counter does not fall and grows by the new huge pages at most, and each address handed out is taken from the supply.
pub alloc_alias_lem :
    (s : AliasState) (n : ℕ)
    → Below s.high s.cache
    → s.high + huge_len n < 2 ^ 64
    → Outcome n (s.high + huge_len n) s (alloc_alias s n)
unfolding alloc_alias
alloc_alias_lem s n b room =
    let e₀ : shl64 n 12 ≡ n * 4096 = omega arith in
    let e₁ : shl64 ((n + 511) % 2 ^ 64 / 2 ^ 9) 21 ≡ huge_len n = omega arith in
    let t = take_from_lem s.high (n * 4096) (omega arith) s.cache b in
    rw (e₀, e₁) (grant_from_lem s n (take_from (n * 4096) s.cache) b room t)
