-- ===== src/Vmem/Advise/Effect.antt =====
-- `vma_advise` has the pages of its range unmapped that an area maps, and no others.
use budalloc.Prelude.{
  ℕ, ◌+◌, ◌≤◌, ◌<◌, ◌≡◌, ◌≢◌, refl, sym, ◌∙◌, ap, inl, inr, false, Option, none, some, List, [],
  ◌∷◌, ◌++◌, ◌&&◌, leb, ltb, ◌==◌, arith, Bool-cases, size_max, add64, sub64,
}
use mathlib.Core.List.{append_assoc}
use budalloc.Vmem.Vma.{
  in_range, Vma, eperm, enoent, enomem, eexist, einval, eoverflow, enotsup, Call, unmap, Run, done,
  failed, panic, page_aligned, attr_at,
}
use budalloc.Vmem.Find.{Span, Found, range, none_such, find_range}
use budalloc.Vmem.Split.{first}
use budalloc.Vmem.Advise.{advise_one, advise_from, advised, advise_span, advise_refused, vma_advise}
use budalloc.Vmem.Unmap.Effect.{covered, is_some}
use budalloc.Vmem.Bounds.{
  Between, Between-le, Between-append, attr_at-append, attr_at-above, attr_at-below, or_else,
}
use budalloc.Vmem.Range.{IsRange, FoundResult, find_range_lem}

-- What `vma_advise` may answer. The areas stay as they are; on success the calls unmap just the
-- pages of the range that are mapped; an error is EINVAL and says that an end of the range is not
-- aligned; a panic means that the page table program failed.
abbrev pub AdviseResult : (Call → ℕ) → List Vma → ℕ → ℕ → Run → Type 0
AdviseResult run vmas vaddr len (done l calls) =
    (l ≡ vmas) × ((a : ℕ) → covered a calls ≡ (in_range vaddr len a && is_some (attr_at a vmas)))
AdviseResult run vmas vaddr len (failed e l) =
    (e ≡ einval) × (l ≡ vmas) × ((page_aligned vaddr && page_aligned (vaddr + len)) ≡ false)
AdviseResult run vmas vaddr len panic = (c : Call) × (run c ≢ 0)

module _ (run : Call → ℕ) where
  -- The calls cover just the pages from `vaddr` up to `vend` that the areas map.
  abbrev Advised : ℕ → ℕ → List Vma → Option (List Call) → Type 0
  Advised vaddr vend l none = (c : Call) × (run c ≢ 0)
  Advised vaddr vend l (some calls) =
      (a : ℕ) → covered a calls ≡ (leb vaddr a && ltb a vend && is_some (attr_at a l))

  one_lem :
      (vaddr vend : ℕ) (v : Vma) (l : List Vma) (o : Option (List Call)) (next : ℕ)
      → v.vm_start ≤ vaddr
      → vaddr < v.vm_end
      → v.vm_end ≤ next
      → next < vend
      → v.vm_end ≤ size_max
      → Between next size_max l
      → Advised next vend l o
      → Advised vaddr vend (v ∷ l) (advise_one run vaddr (sub64 v.vm_end vaddr) o)
  unfolding advise_one attr_at
  one_lem vaddr vend v l none next p q r s t b h = h
  one_lem vaddr vend v l (some calls) next p q r s t b h =
      let e : add64 vaddr (sub64 v.vm_end vaddr) ≡ v.vm_end = omega arith in
      rw e (elim (Bool-cases (run (unmap vaddr v.vm_end) == 0)) [
        | inl f ↦ rw f (λ a. ground (arith, h a, attr_at-below a next size_max l b))
        | inr f ↦ rw f (unmap vaddr v.vm_end, ground arith)
      ])

  last_lem :
      (vaddr vend : ℕ) (last : Vma)
      → last.vm_start ≤ vaddr
      → vaddr < vend
      → vend ≤ last.vm_end
      → last.vm_end ≤ size_max
      → Advised vaddr vend (last ∷ []) (advise_one run vaddr (sub64 vend vaddr) (some []))
  unfolding advise_one attr_at
  last_lem vaddr vend last p q r s =
      let e : add64 vaddr (sub64 vend vaddr) ≡ vend = omega arith in
      rw e (elim (Bool-cases (run (unmap vaddr vend) == 0)) [
        | inl f ↦ rw f (λ a. ground arith)
        | inr f ↦ rw f (unmap vaddr vend, ground arith)
      ])

  Between-last :
      (m : List Vma) (last : Vma) (lo : ℕ)
      → Between lo last.vm_start m
      → last.vm_start < last.vm_end
      → last.vm_end ≤ size_max
      → Between (first m last).vm_start size_max (m ++ last ∷ [])
  unfolding first
  Between-last [] last lo b p q = (omega arith, p, q)
  Between-last (v ∷ m) last lo b p q = (
    omega arith,
    b.1,
    Between-append v.vm_end last.vm_start last.vm_start size_max m (last ∷ []) b.2 (omega arith)
        (omega arith, p, q),
  )

  -- The first of the areas starts where the bound allows, and before the last one ends.
  first-ge :
      (m : List Vma) (last : Vma) (lo vend : ℕ)
      → Between lo last.vm_start m
      → last.vm_start < last.vm_end
      → last.vm_start < vend
      → (lo ≤ (first m last).vm_start)
        × ((first m last).vm_start < vend)
        × ((first m last).vm_start < (first m last).vm_end)
  unfolding first
  first-ge [] last lo vend b p q = (omega arith, q, p)
  first-ge (v ∷ m) last lo vend b p q =
      (b.0, omega (arith, b.1, Between-le v.vm_end last.vm_start m b.2), b.1)

  advise_from_lem :
      (m : List Vma) (last : Vma) (lo vaddr vend : ℕ)
      → Between lo last.vm_start m
      → (first m last).vm_start ≤ vaddr
      → vaddr < (first m last).vm_end
      → vaddr < vend
      → last.vm_start < vend
      → vend ≤ last.vm_end
      → last.vm_end ≤ size_max
      → Advised vaddr vend (m ++ last ∷ []) (advise_from run vaddr vend m last)
  unfolding advise_from first
  advise_from_lem [] last lo vaddr vend b p q lt r s t = last_lem vaddr vend last p lt s t
  advise_from_lem (v ∷ m) last lo vaddr vend b p q lt r s t =
      let (low, high, some_len) = first-ge m last v.vm_end vend b.2 (omega arith) r in
      one_lem vaddr vend v (m ++ last ∷ []) (advise_from run (first m last).vm_start vend m last)
        (first m last).vm_start p q low high
        (omega (arith, Between-le v.vm_end last.vm_start m b.2))
        (Between-last m last v.vm_end b.2 (omega arith) t)
        (advise_from_lem m last v.vm_end (first m last).vm_start vend b.2 (omega arith) some_len
          high r s t)

module _ (run : Call → ℕ) (vmas : List Vma) (vaddr len : ℕ) where
  -- The pages of the span are those of the range.
  span_at :
      (s : Span)
      → IsRange vmas vaddr len s
      → (a : ℕ)
      → (leb s.vaddr a && ltb a (s.vaddr + s.len) && is_some (attr_at a (s.mid ++ s.last ∷ [])))
        ≡ (in_range vaddr len a && is_some (attr_at a vmas))
  span_at s r a =
      let whole : attr_at a vmas
          ≡ or_else (attr_at a s.before)
              (or_else (attr_at a (s.mid ++ s.last ∷ [])) (attr_at a s.after)) =
        ap (attr_at a) r.joined
        ∙ attr_at-append a s.before (s.mid ++ s.last ∷ s.after)
        ∙ ap (or_else (attr_at a s.before)) (
            ap (attr_at a) (sym (append_assoc s.mid (s.last ∷ []) s.after))
            ∙ attr_at-append a (s.mid ++ s.last ∷ []) s.after) in
      let top = Between-le _ size_max s.after r.behind in
      let b = Between-last run s.mid s.last _ r.middle r.fits (omega arith) in
      let c =
        Between-append (first s.mid s.last).vm_start s.last.vm_start s.last.vm_start s.last.vm_end
          s.mid (s.last ∷ []) r.middle (omega arith) (omega arith, r.fits, omega arith) in
      ground (
        arith,
        whole,
        r.vaddr_eq,
        r.end_eq,
        attr_at-above a 0 _ s.before r.front,
        attr_at-below a _ size_max s.after r.behind,
        attr_at-below a _ size_max (s.mid ++ s.last ∷ []) b,
        attr_at-above a _ s.last.vm_end (s.mid ++ s.last ∷ []) c,
      )

  advise_span_lem :
      (s : Span)
      → IsRange vmas vaddr len s
      → AdviseResult run vmas vaddr len (advise_span run vmas s)
  unfolding advise_span advised
  advise_span_lem s r =
      let top = Between-le _ size_max s.after r.behind in
      let e : add64 s.vaddr s.len ≡ s.vaddr + s.len = omega (arith, r.end_eq) in
      rw e (
        go (advise_from run s.vaddr (s.vaddr + s.len) s.mid s.last) (
          advise_from_lem run s.mid s.last (first s.mid s.last).vm_start s.vaddr (s.vaddr + s.len)
            r.middle (omega (arith, r.vaddr_eq)) r.first_ends (omega (arith, r.some_len))
            (omega (arith, r.end_eq, r.starts, r.fits)) (omega (arith, r.end_eq)) (omega arith)))
    where
      go :
          (o : Option (List Call))
          → Advised run s.vaddr (s.vaddr + s.len) (s.mid ++ s.last ∷ []) o
          → AdviseResult run vmas vaddr len (advised vmas o)
      go none h = h
      go (some calls) h = (refl, λ a. h a ∙ span_at s r a)

  -- `vma_advise` of a range that does not wrap, in an address space in order: what each of its
  -- answers means, as `AdviseResult` says, whatever the page table program answers.
  pub vma_advise_lem :
      Between 0 size_max vmas
      → vaddr + len ≤ size_max
      → AdviseResult run vmas vaddr len (vma_advise run vmas vaddr len)
  unfolding vma_advise advise_refused
  vma_advise_lem order fit = elim (Bool-cases (len == 0)) [
    | inl e ↦ rw e (refl, λ a. ground arith)
    | inr e ↦
        rw e
          (go (find_range vmas vaddr len) (find_range_lem vmas vaddr len order (ground arith) fit))
  ]
    where
      go :
          (f : Found)
          → FoundResult vmas vaddr len f
          → AdviseResult run vmas vaddr len (elim f [
            | range s ↦ advise_span run vmas s
            | none_such e ↦ advise_refused run e vmas
          ])
      go (range s) r = advise_span_lem s r
      go (none_such enoent) r = (refl, λ a. ground (arith, r a))
      go (none_such einval) r = (refl, refl, r.1)
      go (none_such eperm) r = absurd (cc r.0)
      go (none_such enomem) r = absurd (cc r.0)
      go (none_such eexist) r = absurd (cc r.0)
      go (none_such eoverflow) r = absurd (cc r.0)
      go (none_such enotsup) r = absurd (cc r.0)
