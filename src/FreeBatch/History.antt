-- ===== src/FreeBatch/History.antt =====
-- Any sequence of frees by one thread.
use budalloc.Prelude.{
  ℕ, ◌+◌, ◌*◌, ◌^◌, ◌<◌, ◌≡◌, refl, inl, Bool, true, Option, none, some, List, [], ◌∷◌, ◌++◌, arith,
}
use budalloc.FreeBatch.{Pages, pages, Batch, new_batch, free_pages}
use budalloc.FreeBatch.Flush.{within, covers, pending, covers-append}
use budalloc.FreeBatch.Pending.{IsBatch}
use budalloc.FreeBatch.Conserve.{Settled, free_pages_lem}

-- A free: the time in milliseconds, the first page, and how many pages.
abbrev pub Free : Type 0
Free = ℕ × ℕ × ℕ

unfoldable pub behind : List Pages → Option (Batch × List Pages) → Option (Batch × List Pages)
behind calls none = none
behind calls (some (b, more)) = some (b, calls ++ more)

-- One free after another.
unfoldable pub free_all : (Pages → ℕ) → Bool → List Free → Batch → Option (Batch × List Pages)
free_all unset found [] b = some (b, [])
free_all unset found ((now, start, n) ∷ l) b = elim (free_pages unset found now start n b) [
  | none ↦ none
  | some (b', calls) ↦ behind calls (free_all unset found l b')
]

-- How many of the frees have the address.
unfoldable pub freed : ℕ → List Free → ℕ
freed a [] = 0
freed a ((now, start, n) ∷ l) = within a (pages start (n * 4096)) + freed a l

-- Each free is of less than 2 ^ 20 pages that lie above 0 and below 2 ^ 64.
abbrev pub AllInSpace : List Free → Type 0
AllInSpace [] = Unit {0}
AllInSpace ((now, start, n) ∷ l) =
    (0 < start) × (n < 2 ^ 20) × (start + n * 4096 < 2 ^ 64) × AllInSpace l

module _ (unset : Pages → ℕ) (succeeds : (r : Pages) → unset r ≡ 0) where
  abbrev Accounted : List Free → Batch → Option (Batch × List Pages) → Type 0
  Accounted l b none = ⊥
  Accounted l b (some (b', calls)) =
      IsBatch b' × ((a : ℕ) → pending a b' + covers a calls ≡ pending a b + freed a l)

  free_all_lem :
      (l : List Free) (b : Batch)
      → IsBatch b
      → AllInSpace l
      → Accounted l b (free_all unset true l b)
  unfolding free_all behind freed covers
  free_all_lem [] b i h = (i, λ a. omega arith)
  free_all_lem ((now, start, n) ∷ l) b i (pos, small, fits, h) =
      go (free_pages unset true now start n b)
        (free_pages_lem unset succeeds now start n b i pos small fits)
        (λ b' i'. free_all_lem l b' i' h)
    where
      rest : Batch → Option (Batch × List Pages)
      rest b' = free_all unset true l b'

      join :
          (b' : Batch) (calls : List Pages) (o : Option (Batch × List Pages))
          → ((a : ℕ)
              → pending a b' + covers a calls ≡ pending a b + within a (pages start (n * 4096)))
          → Accounted l b' o
          → Accounted ((now, start, n) ∷ l) b (behind calls o)
      join b' calls none one k = absurd k
      join b' calls (some (b'', more)) one k =
          (k.0, λ a. omega (arith, covers-append a calls more, one a, k.1 a))

      go :
          (o : Option (Batch × List Pages))
          → Settled (pages start (n * 4096)) b o
          → ((b' : Batch) → IsBatch b' → Accounted l b' (rest b'))
          → Accounted
              ((now, start, n) ∷ l)
              b
              (elim o [ none ↦ none | some (b', calls) ↦ behind calls (rest b') ])
      go none s k = absurd s
      go (some (b', calls)) s k = join b' calls (rest b') s.2 (k b' s.0)

  pub new_batch-IsBatch : IsBatch new_batch
  new_batch-IsBatch = record {
    entries = inl (refl, refl);
    short = omega arith;
    window_low = omega arith;
    window_high = omega arith;
  }

  -- For any sequence of frees by a thread that starts with an empty batch, each of less than 2 ^ 20
  -- pages above 0 and below 2 ^ 64, where `flush` finds its memory and the page table takes every
  -- unmapping: no entry is written behind the buffer, and in the end each address is as often pending
  -- or unmapped as it was freed, so that no page is lost and none is unmapped that was not freed.
  pub free_all-accounts :
      (l : List Free)
      → AllInSpace l
      → (b : Batch) × (calls : List Pages) × (free_all unset true l new_batch ≡ some (b, calls))
        × ((a : ℕ) → pending a b + covers a calls ≡ freed a l)
  unfolding covers
  free_all-accounts l h =
      go (free_all unset true l new_batch) (free_all_lem l new_batch new_batch-IsBatch h)
    where
      go :
          (o : Option (Batch × List Pages))
          → Accounted l new_batch o
          → (b : Batch) × (calls : List Pages) × (o ≡ some (b, calls))
            × ((a : ℕ) → pending a b + covers a calls ≡ freed a l)
      go none k = absurd k
      go (some (b, calls)) k = (b, calls, refl, λ a. ground (arith, k.1 a))
