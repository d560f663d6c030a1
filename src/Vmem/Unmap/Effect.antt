-- ===== src/Vmem/Unmap/Effect.antt =====
-- `vma_unmap` unmaps the pages of its range, keeps all others, and tells the page table so.
use mathlib.Core.List.{append_assoc}
use budalloc.Prelude.{
  ℕ, ◌+◌, ◌≤◌, ◌<◌, ◌≡◌, ◌≢◌, refl, sym, ◌∙◌, ap, ◌⊎◌, inl, inr, Bool, true, false, Option, none,
  some, List, [], ◌∷◌, ◌++◌, ◌&&◌, ◌||◌, leb, ltb, ◌==◌, arith, Bool-cases, if◌then◌else◌, size_max,
}
use budalloc.Vmem.Vma.{
  in_range, Vma, Errno, eperm, enoent, enomem, eexist, einval, eoverflow, enotsup, Call, unmap,
  set_prot, Run, done, failed, panic, page_aligned, attr_at, Attr,
}
use budalloc.Vmem.Find.{Span}
use budalloc.Vmem.Split.{Parts, parts, refused, first, split_vma}
use budalloc.Vmem.Unmap.{unmap_all, unmap_span, unmap_refused, vma_unmap}
use budalloc.Vmem.Bounds.{
  Between, Between-le, Between-weaken, Between-append, Same, attr_at-append, attr_at-above,
  attr_at-below, or_else,
}
use budalloc.Vmem.Parted.{IsSplit, SplitResult, split_vma_lem}

-- Whether the calls unmap the address.
abbrev pub covered : ℕ → List Call → Bool
covered a [] = false
covered a (unmap lo hi ∷ l) = leb lo a && ltb a hi || covered a l
covered a (set_prot lo hi p ∷ l) = covered a l

abbrev pub is_some : Option Attr → Bool
is_some none = false
is_some (some x) = true

-- What `vma_unmap` may answer. On success the areas are in order, no page of the range is mapped,
-- every other page is mapped as before, and the calls unmap just the pages of the range that were
-- mapped. EINVAL changes nothing and says that an end of the range is not aligned; any other error
-- is ENOMEM and changes the mapping of no page. A panic means that the page table program failed.
abbrev pub UnmapResult : (Call → ℕ) → List Vma → ℕ → ℕ → Run → Type 0
UnmapResult run vmas vaddr len (done l calls) =
    Between 0 size_max l
    × ((a : ℕ) → attr_at a l ≡ (if in_range vaddr len a then none else attr_at a vmas))
    × ((a : ℕ) → covered a calls ≡ (in_range vaddr len a && is_some (attr_at a vmas)))
UnmapResult run vmas vaddr len (failed einval l) =
    (l ≡ vmas) × ((page_aligned vaddr && page_aligned (vaddr + len)) ≡ false)
UnmapResult run vmas vaddr len (failed e l) = (e ≡ enomem) × Same vmas l × Between 0 size_max l
UnmapResult run vmas vaddr len panic = (c : Call) × (run c ≢ 0)

module _ (run : Call → ℕ) where
  -- The calls for a list of areas cover what the list maps.
  abbrev Calls : List Vma → Option (List Call) → Type 0
  Calls l none = (c : Call) × (run c ≢ 0)
  Calls l (some calls) = (a : ℕ) → covered a calls ≡ is_some (attr_at a l)

  unmap_all_lem : (l : List Vma) → Calls l (unmap_all run l)
  unfolding unmap_all attr_at
  unmap_all_lem [] = λ a. refl
  unmap_all_lem (v ∷ l) = elim (Bool-cases (run (unmap v.vm_start v.vm_end) == 0)) [
    | inl e ↦ rw e (go (unmap_all run l) (unmap_all_lem l))
    | inr e ↦ rw e (unmap v.vm_start v.vm_end, ground arith)
  ]
    where
      go :
          (o : Option (List Call))
          → Calls l o
          → Calls
              (v ∷ l)
              (elim o [ none ↦ none | some calls ↦ some (unmap v.vm_start v.vm_end ∷ calls) ])
      go none c = c
      go (some calls) c = λ a. ground (arith, c a)

module _ (vmas : List Vma) (vaddr len : ℕ) where
  Between-middle :
      (s : Span)
      → IsSplit vmas vaddr len none s
      → Between vaddr (vaddr + len) (s.mid ++ s.last ∷ [])
  Between-middle s i =
      Between-append vaddr s.last.vm_start s.last.vm_start (vaddr + len) s.mid (s.last ∷ [])
        (Between-weaken _ _ _ _ s.mid (within i.left) (omega arith) i.middle) (omega arith)
        (omega arith, i.fits, within' i.right)
    where
      within : (vaddr ≤ (first s.mid s.last).vm_start) ⊎ ⊥ → vaddr ≤ (first s.mid s.last).vm_start
      within (inl p) = p
      within (inr k) = absurd k

      within' : (s.last.vm_end ≤ vaddr + len) ⊎ ⊥ → s.last.vm_end ≤ vaddr + len
      within' (inl p) = p
      within' (inr k) = absurd k

  module _ (s : Span) (i : IsSplit vmas vaddr len none s) (a : ℕ) where
    -- What the whole list says of a page, by its three parts.
    parts_at :
        attr_at a vmas
        ≡ or_else
            (attr_at a s.before)
            (or_else (attr_at a (s.mid ++ s.last ∷ [])) (attr_at a s.after))
    parts_at =
        i.same a
        ∙ attr_at-append a s.before (s.mid ++ s.last ∷ s.after)
        ∙ ap (or_else (attr_at a s.before)) (
            ap (attr_at a) (sym (append_assoc s.mid (s.last ∷ []) s.after))
            ∙ attr_at-append a (s.mid ++ s.last ∷ []) s.after)

    before_none : vaddr ≤ a → attr_at a s.before ≡ none
    before_none le = attr_at-above a 0 _ s.before i.front (omega arith)

    after_none : a < vaddr + len → attr_at a s.after ≡ none
    after_none lt = attr_at-below a _ size_max s.after i.behind (omega arith)

    middle_below : a < vaddr → attr_at a (s.mid ++ s.last ∷ []) ≡ none
    middle_below lt = attr_at-below a vaddr (vaddr + len) _ (Between-middle s i) lt

    middle_above : vaddr + len ≤ a → attr_at a (s.mid ++ s.last ∷ []) ≡ none
    middle_above le = attr_at-above a vaddr (vaddr + len) _ (Between-middle s i) le

    kept_at :
        attr_at a (s.before ++ s.after) ≡ (if in_range vaddr len a then none else attr_at a vmas)
    kept_at =
        attr_at-append a s.before s.after
        ∙ ground (arith, parts_at, before_none, after_none, middle_below, middle_above)

    dropped_at :
        is_some (attr_at a (s.mid ++ s.last ∷ []))
        ≡ (in_range vaddr len a && is_some (attr_at a vmas))
    dropped_at = ground (arith, parts_at, before_none, after_none, middle_below, middle_above)

module _ (run : Call → ℕ) (vmas : List Vma) (vaddr len : ℕ) where
  unmap_span_lem :
      (s : Span) → IsSplit vmas vaddr len none s → UnmapResult run vmas vaddr len (unmap_span run s)
  unfolding unmap_span
  unmap_span_lem s i = go (unmap_all run (s.mid ++ s.last ∷ [])) (unmap_all_lem run _)
    where
      order : Between 0 size_max (s.before ++ s.after)
      order =
          Between-append 0 _ _ size_max s.before s.after i.front
            (omega (arith, Between-le _ _ s.mid i.middle)) i.behind

      go :
          (o : Option (List Call))
          → Calls run (s.mid ++ s.last ∷ []) o
          → UnmapResult run vmas vaddr len
              (elim o [ none ↦ panic | some calls ↦ done (s.before ++ s.after) calls ])
      go none c = c
      go (some calls) c =
          (order, (λ a. kept_at vmas vaddr len s i a), λ a. c a ∙ dropped_at vmas vaddr len s i a)

  unmap_refused_lem :
      (e : Errno) (l : List Vma)
      → Between 0 size_max vmas
      → SplitResult vmas vaddr len none (refused e l)
      → UnmapResult run vmas vaddr len (unmap_refused run e l)
  unfolding unmap_refused
  unmap_refused_lem enoent l order (same, free) = (
    rw same order,
    (λ a. ground (arith, ap (attr_at a) same, free a)),
    λ a. ground (arith, free a),
  )
  unmap_refused_lem einval l order h = h
  unmap_refused_lem enomem l order h = h
  unmap_refused_lem eperm l order h = h
  unmap_refused_lem eexist l order h = h
  unmap_refused_lem eoverflow l order h = h
  unmap_refused_lem enotsup l order h = h

  -- `vma_unmap` of a range that does not wrap, in an address space in order: what each of its
  -- answers means, as `UnmapResult` says, whatever `kmalloc` and the page table program answer.
  pub vma_unmap_lem :
      (k₀ k₁ : Bool)
      → Between 0 size_max vmas
      → vaddr + len ≤ size_max
      → UnmapResult run vmas vaddr len (vma_unmap run vmas vaddr len k₀ k₁)
  unfolding vma_unmap
  vma_unmap_lem k₀ k₁ order fit = elim (Bool-cases (len == 0)) [
    | inl e ↦ rw e (order, (λ a. ground arith), λ a. ground arith)
    | inr e ↦ rw e (
        go (split_vma vmas vaddr len none k₀ k₁)
          (split_vma_lem vmas vaddr len none fit k₀ k₁ order (ground arith)))
  ]
    where
      go :
          (p : Parts)
          → SplitResult vmas vaddr len none p
          → UnmapResult run vmas vaddr len
              (elim p [ parts s ↦ unmap_span run s | refused e l ↦ unmap_refused run e l ])
      go (parts s) i = unmap_span_lem s i
      go (refused e l) h = unmap_refused_lem e l order h
