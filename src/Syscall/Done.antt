-- ===== src/Syscall/Done.antt =====
-- With memory, and with a page table program that succeeds, `munmap` of an aligned range is done.
use budalloc.Prelude.{
  ℕ, ◌+◌, ◌≤◌, ◌<◌, ◌≡◌, refl, ap, inl, inr, true, false, ◌&&◌, Option, none, some, List, [], ◌∷◌,
  ◌++◌, ltb, ◌==◌, arith, Bool-cases, size_max, sub64, add64,
}
use budalloc.Vmem.Vma.{
  Vma, eperm, enoent, enomem, eexist, einval, eoverflow, enotsup, Call, unmap, done, page_aligned,
  page_align,
}
use budalloc.Vmem.Find.{Span, Found, range, none_such, find_range}
use budalloc.Vmem.Range.{FoundResult, find_range_lem}
use budalloc.Vmem.Split.{
  Parts, parts, refused, first, need_split, split_first, split_end, split_range, split_vma,
}
use budalloc.Vmem.Unmap.{unmap_all, unmap_span, unmap_refused, vma_unmap}
use budalloc.Vmem.Bounds.{Between}
use budalloc.Syscall.{munmap, no_error}
use budalloc.Syscall.Success.{Aligned, Aligned-absurd, fits}

-- A split that memory does not stop: it is made, there is nothing to split, or an end of the range is
-- not aligned.
abbrev Granted : ℕ → ℕ → Parts → Type 0
Granted vaddr len (parts s) = Unit {0}
Granted vaddr len (refused enoent l) = Unit {0}
Granted vaddr len (refused e l) = (page_aligned vaddr && page_aligned (vaddr + len)) ≡ false

module _ (vaddr len : ℕ) where
  split_end-Granted : (s : Span) (prot : Option ℕ) → Granted vaddr len (split_end s prot true)
  unfolding split_end
  split_end-Granted s prot =
      elim (Bool-cases
        (ltb 0 s.len && need_split s.last (sub64 s.last.vm_end (add64 s.vaddr s.len)) prot)) [
          | inl e ↦ rw e tt
          | inr e ↦ rw e tt
        ]

  split_range-Granted :
      (vmas : List Vma) (s : Span) (prot : Option ℕ)
      → Granted vaddr len (split_range vmas s prot true true)
  unfolding split_range
  split_range-Granted vmas s prot =
      elim (Bool-cases
        (need_split (first s.mid s.last) (sub64 s.vaddr (first s.mid s.last).vm_start) prot)) [
          | inl e ↦ rw e (split_end-Granted (split_first s s.mid) prot)
          | inr e ↦ rw e (split_end-Granted s prot)
        ]

  split_vma-Granted :
      (vmas : List Vma) (prot : Option ℕ)
      → Between 0 size_max vmas
      → 0 < len
      → vaddr + len ≤ size_max
      → Granted vaddr len (split_vma vmas vaddr len prot true true)
  unfolding split_vma
  split_vma-Granted vmas prot order pos fit =
      go (find_range vmas vaddr len) (find_range_lem vmas vaddr len order pos fit)
    where
      go :
          (f : Found)
          → FoundResult vmas vaddr len f
          → Granted vaddr len (elim f [
            | none_such e ↦ refused e vmas
            | range s ↦ split_range vmas s prot true true
          ])
      go (range s) r = split_range-Granted vmas s prot
      go (none_such enoent) r = tt
      go (none_such einval) r = r.1
      go (none_such eperm) r = r.1
      go (none_such enomem) r = r.1
      go (none_such eexist) r = r.1
      go (none_such eoverflow) r = r.1
      go (none_such enotsup) r = r.1

module _ (run : Call → ℕ) (succeeds : (c : Call) → run c ≡ 0) where
  unmap_all-some : (l : List Vma) → (calls : List Call) × (unmap_all run l ≡ some calls)
  unfolding unmap_all
  unmap_all-some [] = ([], refl)
  unmap_all-some (v ∷ l) =
      let (calls, e) = unmap_all-some l in
      let t : (run (unmap v.vm_start v.vm_end) == 0) ≡ true =
        ground (arith, succeeds (unmap v.vm_start v.vm_end)) in
      (unmap v.vm_start v.vm_end ∷ calls, rw (t, e) refl)

  unmap_span-done :
      (s : Span) → (l : List Vma) × (calls : List Call) × (unmap_span run s ≡ done l calls)
  unfolding unmap_span
  unmap_span-done s =
      let (calls, e) = unmap_all-some (s.mid ++ s.last ∷ []) in
      (s.before ++ s.after, calls, rw (unmap_span, e) refl)

  module _ (vmas : List Vma) (addr len : ℕ) (aligned : Aligned addr len)
      (order : Between 0 size_max vmas) where
    -- `munmap` at an aligned address of a length that is not 0 and does not reach the last page of the
    -- address space, with the areas in order, where both calls of `kmalloc` give memory and the page
    -- table program succeeds on every call: it is done, without an error.
    pub munmap-done :
        (l : List Vma) × (calls : List Call) × (munmap run vmas addr len true true ≡ done l calls)
    unfolding munmap vma_unmap unmap_refused no_error
    munmap-done =
        let e : (len == 0) ≡ false = ground (arith, aligned.1) in
        let f : (page_align len == 0) ≡ false = ground (arith, aligned.1, aligned.2) in
        rw (e, f)
          (go (split_vma vmas addr (page_align len) none true true) (
            split_vma-Granted addr (page_align len) vmas none order
              (omega (arith, aligned.1, aligned.2)) (fits addr len aligned)))
      where
        go :
            (p : Parts)
            → Granted addr (page_align len) p
            → (l : List Vma) × (calls : List Call) × (no_error
                  (elim p [ parts s ↦ unmap_span run s | refused e l ↦ unmap_refused run e l ])
                ≡ done l calls)
        go (parts s) g = let (l, calls, e) = unmap_span-done s in (l, calls, ap no_error e)
        go (refused enoent l) g = (l, [], refl)
        go (refused einval l) g = absurd (Aligned-absurd addr len aligned g)
        go (refused eperm l) g = absurd (Aligned-absurd addr len aligned g)
        go (refused enomem l) g = absurd (Aligned-absurd addr len aligned g)
        go (refused eexist l) g = absurd (Aligned-absurd addr len aligned g)
        go (refused eoverflow l) g = absurd (Aligned-absurd addr len aligned g)
        go (refused enotsup l) g = absurd (Aligned-absurd addr len aligned g)
