-- ===== src/Deferred/Buckets.antt =====
-- The hash of delayed frees loses no address and frees none twice.
use budalloc.Prelude.{
  ℕ, zero, suc, ◌+◌, ◌*◌, ◌/◌, ◌<◌, ◌≡◌, ◌∙◌, refl, List, [], ◌∷◌, ◌++◌, ◌&&◌, leb, ltb, ◌==◌,
  if◌then◌else◌, arith, Bool-cases, inl, inr,
}
use budalloc.FreeBatch.{Pages}
use budalloc.Deferred.{
  Event, put, unmapped, chained, released, reserved, Canon, canonical_free, canonical_free_all,
  free_buckets, canonical_flush_delayed_free, see_unmapped, hash_add, canonical_delayed_free,
  delay_all,
}

abbrev pub one : ℕ → ℕ → ℕ
one a b = if a == b then 1 else 0

-- How often an address is in a list.
unfoldable pub occurs : ℕ → List ℕ → ℕ
occurs a [] = 0
occurs a (b ∷ l) = one a b + occurs a l

pub occurs-append : (a : ℕ) (k l : List ℕ) → occurs a (k ++ l) ≡ occurs a k + occurs a l
unfolding occurs
occurs-append a [] l = omega arith
occurs-append a (b ∷ k) l = omega (arith, occurs-append a k l)

-- How often it is in `n` buckets from `bkt` on.
unfoldable pub in_buckets : ℕ → ℕ → ℕ → (ℕ → List ℕ) → ℕ
in_buckets zero bkt a free_hash = 0
in_buckets (suc n) bkt a free_hash = occurs a (free_hash bkt) + in_buckets n (suc bkt) a free_hash

-- How often it was given to mimalloc or put back into a reservation.
unfoldable pub gone : ℕ → List Event → ℕ
gone a [] = 0
gone a (put r ∷ l) = gone a l
gone a (unmapped r ∷ l) = gone a l
gone a (chained b ∷ l) = gone a l
gone a (released b ∷ l) = one a b + gone a l
gone a (reserved i b ∷ l) = one a b + gone a l

-- How often it is in the hash or is gone.
abbrev pub kept : ℕ → Canon → ℕ
kept a c = in_buckets 64 0 a c.free_hash + gone a c.events

pub canonical_free-kept : (a b : ℕ) (c : Canon) → kept a (canonical_free b c) ≡ kept a c + one a b
unfolding canonical_free gone
canonical_free-kept a b c = omega arith

-- Freeing addresses leaves the hash as it is.
abbrev Gone : ℕ → ℕ → Canon → Canon → Type 0
Gone a k c c' = (gone a c'.events ≡ gone a c.events + k) × (c'.free_hash ≡ c.free_hash)

canonical_free_all_lem :
    (a : ℕ) (l : List ℕ) (c : Canon) → Gone a (occurs a l) c (canonical_free_all l c)
unfolding canonical_free_all canonical_free occurs gone
canonical_free_all_lem a [] c = (omega arith, refl)
canonical_free_all_lem a (b ∷ l) c =
    let (e, h) = canonical_free_all_lem a l (canonical_free b c) in (omega (arith, e), h)

pub canonical_free_all-kept :
    (a : ℕ) (l : List ℕ) (c : Canon) → kept a (canonical_free_all l c) ≡ kept a c + occurs a l
canonical_free_all-kept a l c = let (e, h) = canonical_free_all_lem a l c in rw h (omega (arith, e))

free_buckets_lem :
    (a n bkt : ℕ) (c : Canon) → Gone a (in_buckets n bkt a c.free_hash) c (free_buckets n bkt c)
unfolding free_buckets in_buckets
free_buckets_lem a zero bkt c = (omega arith, refl)
free_buckets_lem a (suc n) bkt c =
    let c' = canonical_free_all (c.free_hash bkt) c in
    let (e, h) = canonical_free_all_lem a (c.free_hash bkt) c in
    let (f, g) = free_buckets_lem a n (suc bkt) c' in
    let same : in_buckets n (suc bkt) a c'.free_hash ≡ in_buckets n (suc bkt) a c.free_hash =
      rw h refl in
    (omega (arith, e, f, same), g ∙ h)

pub none_in_buckets : (a n bkt : ℕ) → in_buckets n bkt a (λ k. []) ≡ 0
unfolding in_buckets occurs
none_in_buckets a zero bkt = refl
none_in_buckets a (suc n) bkt = omega (arith, none_in_buckets a n (suc bkt))

canonical_flush_delayed_free-kept :
    (a : ℕ) (c : Canon) → kept a (canonical_flush_delayed_free c) ≡ kept a c
unfolding canonical_flush_delayed_free
canonical_flush_delayed_free-kept a c =
    omega (arith, (free_buckets_lem a 64 0 c).0, none_in_buckets a 64 0)

-- One more address at the head of the bucket `i`.
in_buckets-cons :
    (a b i n bkt : ℕ) (free_hash : ℕ → List ℕ)
    → in_buckets n bkt a (λ k. if k == i then b ∷ free_hash k else free_hash k)
      ≡ in_buckets n bkt a free_hash + (if leb bkt i && ltb i (bkt + n) then one a b else 0)
unfolding in_buckets occurs
in_buckets-cons a b i zero bkt free_hash = ground arith
in_buckets-cons a b i (suc n) bkt free_hash =
    ground (arith, in_buckets-cons a b i n (suc bkt) free_hash)

-- The hash has 64 buckets.
module _ (hash : ℕ → ℕ) (bounded : (k : ℕ) → hash k < 64) where
  hash_add-kept : (a b : ℕ) (c : Canon) → kept a (hash_add hash b c) ≡ kept a c + one a b
  unfolding hash_add gone
  hash_add-kept a b c = ground (
    arith,
    in_buckets-cons a b (hash (b / 4096 * 4096)) 64 0 c.free_hash,
    bounded (b / 4096 * 4096),
  )

  pub canonical_delayed_free-kept :
      (a b : ℕ) (c : Canon) → kept a (canonical_delayed_free hash b c) ≡ kept a c + one a b
  unfolding canonical_delayed_free
  canonical_delayed_free-kept a b c = elim (Bool-cases (leb 512 (hash_add hash b c).count)) [
    | inl e ↦ rw e (
        omega (arith, canonical_flush_delayed_free-kept a (hash_add hash b c), hash_add-kept a b c))
    | inr e ↦ rw e (hash_add-kept a b c)
  ]

  pub delay_all-kept :
      (a : ℕ) (l : List ℕ) (c : Canon) → kept a (delay_all hash l c) ≡ kept a c + occurs a l
  unfolding delay_all occurs
  delay_all-kept a [] c = omega arith
  delay_all-kept a (b ∷ l) c = omega (
    arith,
    delay_all-kept a l (canonical_delayed_free hash b c),
    canonical_delayed_free-kept a b c,
  )

pub see_unmapped-kept : (a : ℕ) (l : List Pages) (c : Canon) → kept a (see_unmapped l c) ≡ kept a c
unfolding see_unmapped gone
see_unmapped-kept a [] c = refl
see_unmapped-kept a (r ∷ l) c = see_unmapped-kept a l (record c { events = unmapped r ∷ c.events })
