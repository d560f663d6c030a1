-- ===== src/Syscall/Success.antt =====
-- `munmap` and `mprotect` of aligned ranges succeed where memory and the page table program allow.
use budalloc.Prelude.{
  ℕ, ◌+◌, ◌%◌, ◌≤◌, ◌<◌, ◌≡◌, ◌≢◌, Bool, false, ◌&&◌, none, List, ◌==◌, arith, if◌then◌else◌,
  size_max,
}
use budalloc.Vmem.Vma.{
  in_range, Vma, eperm, enoent, enomem, eexist, einval, eoverflow, enotsup, Call, Run, done, failed,
  panic, page_aligned, page_align, attr_at,
}
use budalloc.Vmem.Unmap.{vma_unmap}
use budalloc.Vmem.Unmap.Effect.{UnmapResult, vma_unmap_lem, covered, is_some}
use budalloc.Vmem.Protect.{vma_set_prot}
use budalloc.Vmem.Protect.Effect.{SetProtResult, with_prot}
use budalloc.Vmem.Protect.Pages.{vma_set_prot_lem}
use budalloc.Vmem.Bounds.{Between, Same}
use budalloc.Syscall.{munmap, mprotect, no_error, no_memory, extend}

-- A range of whole pages below the top of the address space.
abbrev pub Aligned : ℕ → ℕ → Type 0
Aligned addr len = (addr % 4096 ≡ 0) × (0 < len) × (addr + len + 4095 ≤ size_max)

pub Aligned-absurd :
    (addr len : ℕ)
    → Aligned addr len
    → (page_aligned addr && page_aligned (addr + page_align len)) ≡ false
    → ⊥
Aligned-absurd addr len a e = ground (arith, a.0, a.1, a.2, e)

pub fits : (addr len : ℕ) → Aligned addr len → addr + page_align len ≤ size_max
fits addr len a = omega (arith, a.2)

-- What is left of `UnmapResult` for an aligned range: success, ENOMEM, or a failed call.
abbrev pub MunmapResult : (Call → ℕ) → List Vma → ℕ → ℕ → Run → Type 0
MunmapResult run vmas addr len (done l calls) =
    Between 0 size_max l
    × ((a : ℕ) → attr_at a l ≡ (if in_range addr (page_align len) a then none else attr_at a vmas))
    × ((a : ℕ) → covered a calls ≡ (in_range addr (page_align len) a && is_some (attr_at a vmas)))
MunmapResult run vmas addr len (failed e l) = (e ≡ enomem) × Same vmas l × Between 0 size_max l
MunmapResult run vmas addr len panic = (c : Call) × (run c ≢ 0)

-- What is left of `SetProtResult`, likewise.
abbrev pub MprotectResult : (Call → ℕ) → List Vma → ℕ → ℕ → ℕ → Run → Type 0
MprotectResult run vmas addr len p (done l calls) =
    Between 0 size_max l
    × ((a : ℕ)
        → attr_at a l ≡ (
            if in_range addr (page_align len) a
            then with_prot p (attr_at a vmas)
            else attr_at a vmas))
MprotectResult run vmas addr len p (failed e l) = (e ≡ enomem) × Same vmas l × Between 0 size_max l
MprotectResult run vmas addr len p panic = (c : Call) × (run c ≢ 0)

module _ (run : Call → ℕ) (vmas : List Vma) (addr len : ℕ) (aligned : Aligned addr len) where
  munmap-no_error :
      (r : Run)
      → UnmapResult run vmas addr (page_align len) r
      → MunmapResult run vmas addr len (no_error r)
  unfolding no_error
  munmap-no_error (done l calls) h = h
  munmap-no_error (failed einval l) h = absurd (Aligned-absurd addr len aligned h.1)
  munmap-no_error (failed enoent l) h = absurd (cc h.0)
  munmap-no_error (failed enomem l) h = h
  munmap-no_error (failed eperm l) h = h
  munmap-no_error (failed eexist l) h = h
  munmap-no_error (failed eoverflow l) h = h
  munmap-no_error (failed enotsup l) h = h
  munmap-no_error panic h = h

  -- `munmap` at an aligned address of a length that is not 0 and does not reach the last page of the
  -- address space, with the areas in order: what its answers mean, as `MunmapResult` says.
  pub munmap_lem :
      (k₀ k₁ : Bool)
      → Between 0 size_max vmas
      → MunmapResult run vmas addr len (munmap run vmas addr len k₀ k₁)
  unfolding munmap
  munmap_lem k₀ k₁ order =
      let e : (len == 0) ≡ false = ground (arith, aligned.1) in
      rw e (
        munmap-no_error (vma_unmap run vmas addr (page_align len) k₀ k₁)
          (vma_unmap_lem run vmas addr (page_align len) k₀ k₁ order (fits addr len aligned)))

  mprotect-no_memory :
      (p : ℕ) (r : Run)
      → SetProtResult run vmas addr (page_align len) p r
      → MprotectResult run vmas addr len p (no_memory r)
  unfolding no_memory
  mprotect-no_memory p (done l calls) h = h
  mprotect-no_memory p (failed einval l) h = absurd (Aligned-absurd addr len aligned h.1)
  mprotect-no_memory p (failed enoent l) h = absurd (cc h.0)
  mprotect-no_memory p (failed enomem l) h = h
  mprotect-no_memory p (failed eperm l) h = h
  mprotect-no_memory p (failed eexist l) h = h
  mprotect-no_memory p (failed eoverflow l) h = h
  mprotect-no_memory p (failed enotsup l) h = h
  mprotect-no_memory p panic h = h

  -- `mprotect` at an aligned address of a length that is not 0 and does not reach the last page of
  -- the address space, with the areas in order: success gives the mapped pages of the rounded
  -- range the protection and keeps all others, the only error is ENOMEM, which changes the mapping
  -- of no page, and a panic means that the page table program failed.
  pub mprotect_lem :
      (prot : ℕ) (k₀ k₁ : Bool)
      → Between 0 size_max vmas
      → MprotectResult run vmas addr len (extend prot) (mprotect run vmas addr len prot k₀ k₁)
  unfolding mprotect
  mprotect_lem prot k₀ k₁ order =
      mprotect-no_memory (extend prot)
        (vma_set_prot run vmas addr (page_align len) (extend prot) k₀ k₁)
        (vma_set_prot_lem run vmas addr (page_align len) (extend prot) k₀ k₁ order
          (fits addr len aligned))
