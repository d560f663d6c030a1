-- ===== src/FreeBatch/Flush.antt =====
-- Which addresses the batch holds, and that a flush unmaps all of them.
use budalloc.Prelude.{
  ℕ, ◌+◌, ◌%◌, ◌≡◌, refl, Bool, true, false, ◌&&◌, List, [], ◌∷◌, ◌++◌, leb, ltb, ◌==◌,
  if◌then◌else◌, arith,
}
use budalloc.FreeBatch.{Pages, pages, Batch, unset_all, emptied, flush}

-- 1 where the address lies in the pages, else 0.
abbrev pub within : ℕ → Pages → ℕ
within a r = if leb r.start a && ltb a (r.start + r.len) then 1 else 0

-- How many of the runs of pages hold the address.
unfoldable pub covers : ℕ → List Pages → ℕ
covers a [] = 0
covers a (r ∷ l) = within a r + covers a l

-- How often the batch holds it.
abbrev pub pending : ℕ → Batch → ℕ
pending a b = covers a (b.cur ∷ b.older)

pub covers-append : (a : ℕ) (k l : List Pages) → covers a (k ++ l) ≡ covers a k + covers a l
unfolding covers
covers-append a [] l = omega arith
covers-append a (r ∷ k) l = omega (arith, covers-append a k l)

module _ (unset : Pages → ℕ) (succeeds : (r : Pages) → unset r ≡ 0) where
  abbrev AllUnset : List Pages → List Pages × List Pages × Bool → Type 0
  AllUnset l (l', calls, ok) = (ok ≡ true) × ((a : ℕ) → covers a calls ≡ covers a l)

  unset_all_lem : (l : List Pages) → AllUnset l (unset_all unset true l)
  unfolding unset_all covers
  unset_all_lem [] = (refl, λ a. refl)
  unset_all_lem (r ∷ l) = go (unset_all unset true l) (unset_all_lem l)
    where
      t : (unset r == 0) ≡ true
      t = ground (arith, succeeds r)

      go :
          (x : List Pages × List Pages × Bool)
          → AllUnset l x
          → AllUnset (r ∷ l) (
              let (l', calls, ok) = x in
              if ok
              then (pages 0 0 ∷ l', calls ++ r ∷ [], unset r == 0)
              else (r ∷ l', calls, false))
      go (l', calls, ok) (e, at) =
          rw e (t, λ a. omega (arith, covers-append a calls (r ∷ []), at a))

  abbrev pub Flushed : Batch → Batch × List Pages × Bool → Type 0
  Flushed b (b', calls, ok) =
      (ok ≡ true)
      × (b'.cur ≡ pages 0 0)
      × (b'.older ≡ [])
      × (b'.buf_empty ≡ true)
      × (b'.buf_cnt ≡ 0)
      × (b'.buf_version ≡ (b.buf_version + 1) % 8)
      × (b'.window_size ≡ b.window_size)
      × ((a : ℕ) → covers a calls ≡ pending a b)

  pub flush_lem : (b : Batch) → Flushed b (flush unset true b)
  unfolding flush emptied
  flush_lem b = go (unset_all unset true (b.cur ∷ b.older)) (unset_all_lem (b.cur ∷ b.older))
    where
      go :
          (x : List Pages × List Pages × Bool)
          → AllUnset (b.cur ∷ b.older) x
          → Flushed b (emptied unset true b x)
      go (l', calls, true) (e, at) = (refl, refl, refl, refl, refl, refl, refl, at)
      go (l', calls, false) (e, at) = absurd (cc e)

  -- Where `flush` finds its memory and every unmapping succeeds: the buffer is empty, with the index,
  -- the count and the flag set for that, the version is the next one modulo 8, the window is as
  -- before, and each address is unmapped just as often as the batch held it.
  pub flush-empties :
      (b : Batch)
      → ((flush unset true b).0.cur ≡ pages 0 0)
        × ((flush unset true b).0.older ≡ [])
        × ((flush unset true b).0.buf_empty ≡ true)
        × ((flush unset true b).0.buf_cnt ≡ 0)
        × ((flush unset true b).0.buf_version ≡ (b.buf_version + 1) % 8)
        × ((flush unset true b).0.window_size ≡ b.window_size)
        × ((a : ℕ) → covers a (flush unset true b).1 ≡ pending a b)
  flush-empties b = let f = flush_lem b in (f.1, f.2, f.3, f.4, f.5, f.6, f.7)
