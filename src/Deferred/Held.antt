-- ===== src/Deferred/Held.antt =====
-- How often a thread holds a canonical address, and what the steps of a free add to it.
use budalloc.Prelude.{
  ℕ, ◌+◌, ◌<◌, ◌≡◌, Bool, true, not, ◌&&◌, ◌||◌, Option, none, some, List, [], ◌∷◌, ltb, ◌==◌,
  if◌then◌else◌, arith, length, Bool-cases, inl, inr,
}
use budalloc.FreeBatch.{Pages, Batch, flush}
use budalloc.FreeBatch.Flush.{Flushed, flush_lem}
use budalloc.FreeBatch.Pending.{IsBatch}
use budalloc.FreeBatch.Conserve.{Flushed-IsBatch}
use budalloc.Deferred.{
  Canon, Thread, canonical_free, canonical_delayed_free, delay_all, release_deferred,
  try_deferred_free, flush_thread, see_unmapped, flush_if_more, reserve, release_all,
  defer_canonical, keep_canonical, delays, reuses,
}
use budalloc.Deferred.Buckets.{
  one, occurs, occurs-append, gone, kept, canonical_free-kept, canonical_free_all-kept,
  canonical_delayed_free-kept, delay_all-kept, see_unmapped-kept,
}

-- How often an address is deferred, is in the hash, or was given to mimalloc or to a reservation.
unfoldable pub held : ℕ → Thread → ℕ
held a s = occurs a s.small + occurs a s.large + kept a s.canon

-- The batch is as it should be, and each address is held as often as before and `k` times more.
abbrev pub Holds : (ℕ → ℕ) → Thread → Thread → Type 0
Holds k s s' = IsBatch s'.batch × ((a : ℕ) → held a s' ≡ held a s + k a)

abbrev pub HoldsOnce : (ℕ → ℕ) → Thread → Option Thread → Type 0
HoldsOnce k s none = ⊥
HoldsOnce k s (some s') = Holds k s s'

abbrev pub same_held : ℕ → ℕ
same_held a = 0

abbrev pub HoldsPut : Thread → Option (Thread × ℕ) → Type 0
HoldsPut s none = ⊥
HoldsPut s (some (s', version)) = Holds same_held s s'

module _ (hash : ℕ → ℕ) (bounded : (k : ℕ) → hash k < 64) where
  pub release_deferred-held : (a : ℕ) (s : Thread) → held a (release_deferred hash s) ≡ held a s
  unfolding held release_deferred occurs
  release_deferred-held a s = omega (
    arith,
    canonical_free_all-kept a s.large (delay_all hash s.small s.canon),
    delay_all-kept hash bounded a s.small s.canon,
  )

  pub try_deferred_free-Holds :
      (s : Thread) → IsBatch s.batch → Holds same_held s (try_deferred_free hash s)
  unfolding try_deferred_free
  try_deferred_free-Holds s i =
      elim (Bool-cases ((s.prev_version == s.batch.buf_version) && not s.batch.buf_empty)) [
        | inl e ↦ rw e (i, λ a. omega arith)
        | inr e ↦ rw e (released i, λ a. omega (arith, release_deferred-held a s))
      ]
    where
      released : IsBatch s.batch → IsBatch (release_deferred hash s).batch
      released i = unfold release_deferred in i

  module _ (tid : ℕ) (unset : Pages → ℕ) (succeeds : (r : Pages) → unset r ≡ 0) where
    flush_thread-Holds :
        (s : Thread) → IsBatch s.batch → Holds same_held s (flush_thread hash tid unset true s)
    unfolding flush_thread held
    flush_thread-Holds s i = go (flush unset true s.batch) (flush_lem unset succeeds s.batch)
      where
        go :
            (x : Batch × List Pages × Bool)
            → Flushed unset succeeds s.batch x
            → Holds same_held s (record s { batch = x.0; canon = see_unmapped x.1 s.canon })
        go (b, calls, ok) f = (
          (Flushed-IsBatch unset succeeds s.batch b calls ok i f).0,
          λ a. omega (arith, see_unmapped-kept a calls s.canon),
        )

    pub flush_if_more-Holds :
        (s : Thread) → IsBatch s.batch → Holds same_held s (flush_if_more hash tid unset true s)
    unfolding flush_if_more
    flush_if_more-Holds s i = elim (Bool-cases (ltb s.batch.window_size s.batch.buf_cnt)) [
      | inl e ↦ rw e (flush_thread-Holds s i)
      | inr e ↦ rw e (i, λ a. omega arith)
    ]

    pub emptied_thread :
        (s : Thread)
        → IsBatch s.batch
        → Holds same_held s (if s.batch.buf_empty then s else flush_thread hash tid unset true s)
    emptied_thread s i = elim (Bool-cases s.batch.buf_empty) [
      | inl e ↦ simp e (i, λ a. omega arith)
      | inr e ↦ simp e (flush_thread-Holds s i)
    ]

    and_last-kept :
        (index a b : ℕ) (c : Canon)
        → kept a (if delays index then canonical_delayed_free hash b c else canonical_free b c)
          ≡ kept a c + one a b
    and_last-kept index a b c = elim (Bool-cases (delays index)) [
      | inl e ↦ rw e (canonical_delayed_free-kept hash bounded a b c)
      | inr e ↦ rw e (canonical_free-kept a b c)
    ]

    release_all-Holds :
        (index b : ℕ) (s : Thread)
        → IsBatch s.batch
        → Holds (λ a. one a b) s (release_all hash tid unset true index b s)
    unfolding release_all
    release_all-Holds index b s i =
        let s' : Thread = if s.batch.buf_empty then s else flush_thread hash tid unset true s in
        let (i', same) = emptied_thread s i in last s' i' same
      where
        last :
            (s' : Thread)
            → IsBatch s'.batch
            → ((a : ℕ) → held a s' ≡ held a s + 0)
            → Holds
                (λ a. one a b)
                s
                (record (release_deferred hash s') {
                  canon =
                      if delays index
                      then canonical_delayed_free hash b (release_deferred hash s').canon
                      else canonical_free b (release_deferred hash s').canon;
                })
        last s' i' same = (
          unfold release_deferred in i',
          λ a.
              let r = release_deferred-held a s' in
              let k = and_last-kept index a b (release_deferred hash s').canon in
              unfold held in omega (arith, same a, r, k),
        )

    pub keep_canonical-Holds :
        (index alloc_size version b : ℕ) (s : Thread)
        → IsBatch s.batch
        → Holds (λ a. one a b) s (keep_canonical hash tid unset true index alloc_size version b s)
    unfolding keep_canonical reserve defer_canonical held gone occurs
    keep_canonical-Holds index alloc_size version b s i =
        elim (Bool-cases (
          reuses index alloc_size
          && ltb (length (s.reservations index).reused) (s.reservations index).cur_idx)) [
            | inl e ↦ rw e (i, λ a. omega arith)
            | inr e ↦ rw e (elim (Bool-cases (length s.small == 1024 || length s.large == 1024)) [
              | inl f ↦ rw f (release_all-Holds index b s i)
              | inr f ↦ rw f (elim (Bool-cases (delays index)) [
                | inl g ↦ rw g (i, λ a. omega (arith, occurs-append a s.small (b ∷ [])))
                | inr g ↦ rw g (i, λ a. omega (arith, occurs-append a s.large (b ∷ [])))
              ])
            ])
          ]
