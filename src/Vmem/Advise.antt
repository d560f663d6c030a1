-- ===== src/Vmem/Advise.antt =====
-- `vma_advise`. Its one advice is MADV_DONTNEED, for which `vma_op_advise` unmaps the pages.
pub mod Effect
use budalloc.Prelude.{ℕ, ◌+◌, Option, none, some, List, [], ◌∷◌, ◌==◌, if◌then◌else◌, add64, sub64}
use budalloc.Vmem.Vma.{Vma, Errno, enoent, Call, unmap, Run, done, failed, panic}
use budalloc.Vmem.Find.{Span, Found, range, none_such, find_range}
use budalloc.Vmem.Split.{first}

-- The areas stay as they are.
unfoldable pub advised : List Vma → Option (List Call) → Run
advised vmas none = panic
advised vmas (some calls) = done vmas calls

module _ (run : Call → ℕ) where
  -- `vmem_vma_advise` and `vma_op_advise`, with what the calls behind it are.
  unfoldable pub advise_one : ℕ → ℕ → Option (List Call) → Option (List Call)
  advise_one vaddr len none = none
  advise_one vaddr len (some calls) =
      let call = unmap vaddr (add64 vaddr len) in
      if run call == 0 then some (call ∷ calls) else none

  -- The loop from `vma_start` to `vma_end`, and the call behind it; `none` where one of them panics.
  unfoldable pub advise_from : ℕ → ℕ → List Vma → Vma → Option (List Call)
  advise_from vaddr vend [] last = advise_one vaddr (sub64 vend vaddr) (some [])
  advise_from vaddr vend (v ∷ m) last =
      advise_one vaddr (sub64 v.vm_end vaddr) (advise_from (first m last).vm_start vend m last)

  unfoldable pub advise_span : List Vma → Span → Run
  advise_span vmas s = advised vmas (advise_from s.vaddr (add64 s.vaddr s.len) s.mid s.last)

  unfoldable pub advise_refused : Errno → List Vma → Run
  advise_refused enoent l = done l []
  advise_refused e l = failed e l

  unfoldable pub vma_advise : List Vma → ℕ → ℕ → Run
  vma_advise vmas vaddr len = if len == 0 then done vmas [] else elim (find_range vmas vaddr len) [
    | range s ↦ advise_span vmas s
    | none_such e ↦ advise_refused e vmas
  ]
