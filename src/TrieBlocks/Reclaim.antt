-- ===== src/TrieBlocks/Reclaim.antt =====
-- `reclaim` keeps or unmaps each page that it is given, once, and keeps fewer than 128.
use budalloc.Prelude.{
  ℕ, ◌+◌, ◌-◌, ◌/◌, ◌^◌, ◌≤◌, ◌<◌, ◌≡◌, refl, sym, ap, ◌∙◌, ◌⊎◌, inl, inr, ◌&&◌, Option, none, some,
  List, [], ◌∷◌, ◌++◌, leb, ltb, ◌==◌, if◌then◌else◌, arith, length, Bool-cases, add64, sub64,
}
use mathlib.Core.Path.{subst}
use budalloc.TrieBlocks.{
  Range, range, join_range, fill_range, Reclaims, unmap_all, settle, evict, reclaim_filled,
  reclaim_joined, reclaim,
}

-- Whether an address lies in a range, and how many ranges of a list it lies in.
abbrev pub in_span : ℕ → Range → ℕ
in_span a r = if leb r.start a && ltb a r.end then 1 else 0

abbrev pub spans : ℕ → List Range → ℕ
spans a [] = 0
spans a (r ∷ l) = in_span a r + spans a l

abbrev n_pages : Range → ℕ
n_pages r = (r.end - r.start) / 4096

-- The pages of all ranges.
abbrev pub total : List Range → ℕ
total [] = 0
total (r ∷ l) = n_pages r + total l

-- An entry not in use, or the start and the end of at least a page.
abbrev pub IsRange : Range → Type 0
IsRange r =
    ((r.start ≡ 0) × (r.end ≡ 0)) ⊎ ((0 < r.start) × (r.start + 4096 ≤ r.end) × (r.end < 2 ^ 64))

abbrev pub AllRange : List Range → Type 0
AllRange [] = Unit {0}
AllRange (r ∷ l) = IsRange r × AllRange l

spans-append : (a : ℕ) (l m : List Range) → spans a (l ++ m) ≡ spans a l + spans a m
spans-append a [] m = omega arith
spans-append a (r ∷ l) m = omega (arith, spans-append a l m)

module _ (page : ℕ) (pos : 0 < page) (fits : page + 4096 < 2 ^ 64) where
  -- What adding the page to a list of ranges gives, if it does.
  abbrev Added : List Range → Option (List Range) → Type 0
  Added l none = Unit {0}
  Added l (some l') =
      AllRange l'
      × (length l' ≡ length l)
      × (total l' ≡ total l + 1)
      × ((a : ℕ) → spans a l' ≡ spans a l + in_span a (range page (page + 4096)))

  Added-cons :
      (r : Range) (l : List Range) (o : Option (List Range))
      → IsRange r
      → Added l o
      → Added (r ∷ l) (elim o [ none ↦ none | some l' ↦ some (r ∷ l') ])
  Added-cons r l none i h = tt
  Added-cons r l (some l') i h =
      ((i, h.0), omega (arith, h.1), omega (arith, h.2), λ a. omega (arith, h.3 a))

  join_range_lem : (l : List Range) → AllRange l → Added l (join_range page l)
  unfolding join_range
  join_range_lem [] h = tt
  join_range_lem (r ∷ l) h = elim (Bool-cases (r.end == page)) [
    | inl e ↦ rw e (
      (inr (ground (arith, h.0), ground (arith, h.0), ground (arith, h.0)), h.1),
      refl,
      ground (arith, h.0),
      λ a. ground (arith, h.0),
    )
    | inr e ↦ rw e (elim (Bool-cases (r.start == add64 page 4096)) [
      | inl e' ↦ rw e' (
        (inr (ground (arith, h.0), ground (arith, h.0), ground (arith, h.0)), h.1),
        refl,
        ground (arith, h.0),
        λ a. ground (arith, h.0),
      )
      | inr e' ↦ rw e' (Added-cons r l (join_range page l) h.0 (join_range_lem l h.1))
    ])
  ]

  fill_range_lem : (l : List Range) → AllRange l → Added l (fill_range page l)
  unfolding fill_range
  fill_range_lem [] h = tt
  fill_range_lem (r ∷ l) h = elim (Bool-cases (r.end == 0)) [
    | inl e ↦ rw e (
      (inr (ground arith, ground arith, ground arith), h.1),
      refl,
      ground (arith, h.0),
      λ a. ground (arith, h.0),
    )
    | inr e ↦ rw e (Added-cons r l (fill_range page l) h.0 (fill_range_lem l h.1))
  ]

-- What the loop behind RET makes of the ranges.
unmap_all_lem :
    (l : List Range)
    → AllRange l
    → AllRange (unmap_all l).0
      × (length (unmap_all l).0 ≡ length l)
      × (total (unmap_all l).0 ≡ 0)
      × ((a : ℕ) → spans a (unmap_all l).0 + spans a (unmap_all l).1 ≡ spans a l)
unfolding unmap_all
unmap_all_lem [] h = (tt, refl, refl, λ a. omega arith)
unmap_all_lem (r ∷ l) h =
    let (i, len, none_left, same) = unmap_all_lem l h.1 in
    elim (Bool-cases (r.end == 0)) [
      | inl e ↦ rw e ((h.0, i), omega (arith, len), ground (arith, h.0), λ a. omega (arith, same a))
      | inr e ↦ rw e (
        (inl (refl, refl), i),
        omega (arith, len),
        omega (arith, none_left),
        λ a. ground (arith, same a),
      )
    ]

-- Eight ranges, as many pages in them as are counted, and fewer than 128.
pub record IsReclaims (s : Reclaims) : Type 0 where
  pub all : AllRange s.ranges
  pub eight : length s.ranges ≡ 8
  pub counted : s.n_reclaims ≡ total s.ranges
  pub few : s.n_reclaims < 128

-- A list of reclaimed pages that was given one page more, and the ranges unmapped.
abbrev pub Reclaimed : ℕ → Reclaims → Reclaims × List Range → Type 0
Reclaimed page s (s', calls) =
    IsReclaims s'
    × ((a : ℕ)
        → spans a s'.ranges + spans a calls
          ≡ spans a s.ranges + in_span a (range page (page + 4096)))

settle_lem :
    (page : ℕ) (s : Reclaims) (l : List Range) (n : ℕ) (calls : List Range)
    → AllRange l
    → length l ≡ 8
    → n ≡ total l
    → n ≤ 128
    → ((a : ℕ)
        → spans a l + spans a calls ≡ spans a s.ranges + in_span a (range page (page + 4096)))
    → Reclaimed page s (settle l n calls)
unfolding settle
settle_lem page s l n calls i len eq small same =
    let (i', len', none_left, same') = unmap_all_lem l i in
    elim (Bool-cases (n == 128)) [
      | inl e ↦ rw e (
        record { all = i'; eight = len' ∙ len; counted = sym none_left; few = omega arith },
        λ a. omega (arith, spans-append a calls (unmap_all l).1, same' a, same a),
      )
      | inr e ↦ rw e (record { all = i; eight = len; counted = eq; few = ground arith }, same)
    ]

module _ (page : ℕ) (pos : 0 < page) (fits : page + 4096 < 2 ^ 64) (s : Reclaims)
    (h : IsReclaims s) where
  added_lem :
      (l' : List Range)
      → Added page pos fits s.ranges (some l')
      → Reclaimed page s (settle l' (s.n_reclaims + 1) [])
  added_lem l' (i, len, count, same) =
      settle_lem page s l' (s.n_reclaims + 1) [] i (len ∙ h.eight) (omega (arith, h.counted))
        (omega (arith, h.few)) (λ a. omega (arith, same a))

  evict_lem : (l : List Range) → s.ranges ≡ l → Reclaimed page s (evict page (s.n_reclaims + 1) l)
  unfolding evict
  evict_lem [] e = absurd (omega (arith, ap length e, h.eight))
  evict_lem (r ∷ l) e =
      let i : AllRange (r ∷ l) = subst AllRange e h.all in
      let counted : s.n_reclaims ≡ n_pages r + total l = h.counted ∙ ap total e in
      settle_lem page s (range page (add64 page 4096) ∷ l)
        (sub64 (s.n_reclaims + 1) (sub64 r.end r.start / 4096)) (r ∷ [])
        (inr (pos, ground arith, ground arith), i.1) (sym (ap length e) ∙ h.eight)
        (ground (arith, i.0, h.few)) (ground (arith, i.0, h.few)) (λ a. rw e (ground arith))

  reclaim_filled_lem :
      (o : Option (List Range))
      → Added page pos fits s.ranges o
      → Reclaimed page s (reclaim_filled page (s.n_reclaims + 1) s.ranges o)
  unfolding reclaim_filled
  reclaim_filled_lem none a = evict_lem s.ranges refl
  reclaim_filled_lem (some l') a = added_lem l' a

  reclaim_joined_lem :
      (o : Option (List Range))
      → Added page pos fits s.ranges o
      → Reclaimed page s (reclaim_joined page (s.n_reclaims + 1) s.ranges o)
  unfolding reclaim_joined
  reclaim_joined_lem none a =
      reclaim_filled_lem (fill_range page s.ranges) (fill_range_lem page pos fits s.ranges h.all)
  reclaim_joined_lem (some l') a = added_lem l' a

  -- For a page above 0 that ends below 2 ^ 64, and a list of eight ranges whose pages are counted and
  -- fewer than 128: `reclaim` leaves such a list, and each address is in as many of the ranges kept and
  -- unmapped as it was in before, and once more if it is in the page.
  pub reclaim_lem : Reclaimed page s (reclaim page s)
  unfolding reclaim
  reclaim_lem =
      reclaim_joined_lem (join_range page s.ranges) (join_range_lem page pos fits s.ranges h.all)
