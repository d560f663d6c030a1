-- ===== src/Deferred/Quiet.antt =====
-- What may be done to canonical memory once nothing is pending.
use budalloc.Prelude.{ℕ, zero, suc, ◌+◌, ◌≡◌, refl, List, [], ◌∷◌, leb, arith, Bool-cases, inl, inr}
use budalloc.FreeBatch.{Pages}
use budalloc.FreeBatch.Flush.{within, covers}
use budalloc.Deferred.{
  Event, put, unmapped, chained, released, reserved, Canon, Thread, canonical_free,
  canonical_free_all, free_buckets, canonical_flush_delayed_free, see_unmapped, hash_add,
  canonical_delayed_free, delay_all, release_deferred,
}

-- How many of the runs of pages that were put hold the address, and how many that were unmapped.
abbrev pub put_at : ℕ → List Event → ℕ
put_at p [] = 0
put_at p (put r ∷ l) = within p r + put_at p l
put_at p (unmapped r ∷ l) = put_at p l
put_at p (chained a ∷ l) = put_at p l
put_at p (released a ∷ l) = put_at p l
put_at p (reserved i a ∷ l) = put_at p l

abbrev pub unmapped_at : ℕ → List Event → ℕ
unmapped_at p [] = 0
unmapped_at p (put r ∷ l) = unmapped_at p l
unmapped_at p (unmapped r ∷ l) = within p r + unmapped_at p l
unmapped_at p (chained a ∷ l) = unmapped_at p l
unmapped_at p (released a ∷ l) = unmapped_at p l
unmapped_at p (reserved i a ∷ l) = unmapped_at p l

-- All pages that were put are unmapped.
abbrev pub AllUnmapped : List Event → Type 0
AllUnmapped l = (p : ℕ) → put_at p l ≡ unmapped_at p l

-- Whenever canonical memory was written by the allocator or given to mimalloc, all the pages put by
-- then were unmapped.
abbrev pub Ordered : List Event → Type 0
Ordered [] = Unit {0}
Ordered (put r ∷ l) = Ordered l
Ordered (unmapped r ∷ l) = Ordered l
Ordered (chained a ∷ l) = AllUnmapped l × Ordered l
Ordered (released a ∷ l) = AllUnmapped l × Ordered l
Ordered (reserved i a ∷ l) = Ordered l

abbrev pub Quiet : Canon → Type 0
Quiet c = AllUnmapped c.events × Ordered c.events

pub canonical_free-Quiet : (a : ℕ) (c : Canon) → Quiet c → Quiet (canonical_free a c)
unfolding canonical_free
canonical_free-Quiet a c q = (q.0, q)

canonical_free_all-Quiet : (l : List ℕ) (c : Canon) → Quiet c → Quiet (canonical_free_all l c)
unfolding canonical_free_all
canonical_free_all-Quiet [] c q = q
canonical_free_all-Quiet (a ∷ l) c q =
    canonical_free_all-Quiet l (canonical_free a c) (canonical_free-Quiet a c q)

free_buckets-Quiet : (n bkt : ℕ) (c : Canon) → Quiet c → Quiet (free_buckets n bkt c)
unfolding free_buckets
free_buckets-Quiet zero bkt c q = q
free_buckets-Quiet (suc n) bkt c q =
    free_buckets-Quiet n (suc bkt) (canonical_free_all (c.free_hash bkt) c)
      (canonical_free_all-Quiet (c.free_hash bkt) c q)

module _ (hash : ℕ → ℕ) where
  pub canonical_delayed_free-Quiet :
      (a : ℕ) (c : Canon) → Quiet c → Quiet (canonical_delayed_free hash a c)
  unfolding canonical_delayed_free hash_add canonical_flush_delayed_free
  canonical_delayed_free-Quiet a c q = elim (Bool-cases (leb 512 (c.count + 1))) [
    | inl e ↦ rw e (free_buckets-Quiet 64 0 (hash_add hash a c) (q.0, q))
    | inr e ↦ rw e (q.0, q)
  ]

  delay_all-Quiet : (l : List ℕ) (c : Canon) → Quiet c → Quiet (delay_all hash l c)
  unfolding delay_all
  delay_all-Quiet [] c q = q
  delay_all-Quiet (a ∷ l) c q =
      delay_all-Quiet l (canonical_delayed_free hash a c) (canonical_delayed_free-Quiet a c q)

  pub release_deferred-Quiet : (s : Thread) → Quiet s.canon → Quiet (release_deferred hash s).canon
  unfolding release_deferred
  release_deferred-Quiet s q =
      canonical_free_all-Quiet s.large (delay_all hash s.small s.canon)
        (delay_all-Quiet s.small s.canon q)

-- Seeing pages unmapped counts them, and breaks no order.
abbrev Seen : List Pages → Canon → Canon → Type 0
Seen l c c' =
    ((p : ℕ) → unmapped_at p c'.events ≡ unmapped_at p c.events + covers p l)
    × ((p : ℕ) → put_at p c'.events ≡ put_at p c.events)
    × (Ordered c.events → Ordered c'.events)

pub see_unmapped_lem : (l : List Pages) (c : Canon) → Seen l c (see_unmapped l c)
unfolding see_unmapped covers
see_unmapped_lem [] c = (λ p. omega arith, λ p. refl, λ o. o)
see_unmapped_lem (r ∷ l) c =
    let (u, m, o) = see_unmapped_lem l (record c { events = unmapped r ∷ c.events }) in
    (λ p. omega (arith, u p), m, o)
