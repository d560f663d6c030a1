-- ===== src/Vmem/Unmap.antt =====
-- `vma_unmap`.
pub mod Effect
use budalloc.Prelude.{ℕ, Bool, Option, none, some, List, [], ◌∷◌, ◌++◌, ◌==◌, if◌then◌else◌}
use budalloc.Vmem.Vma.{Vma, Errno, enoent, Call, unmap, Run, done, failed, panic}
use budalloc.Vmem.Find.{Span}
use budalloc.Vmem.Split.{Parts, parts, refused, split_vma}

-- `run` is what `sbpf_call_function` answers for the call.
module _ (run : Call → ℕ) where
  -- The calls of `vmem_unmap_and_free_vma`, in list order; `none` where one of them fails.
  unfoldable pub unmap_all : List Vma → Option (List Call)
  unmap_all [] = some []
  unmap_all (v ∷ l) =
      let rest = unmap_all l in
      let call = unmap v.vm_start v.vm_end in
      if run call == 0 then elim rest [ none ↦ none | some calls ↦ some (call ∷ calls) ] else none

  unfoldable pub unmap_span : Span → Run
  unmap_span s = elim (unmap_all (s.mid ++ s.last ∷ [])) [
    | none ↦ panic
    | some calls ↦ done (s.before ++ s.after) calls
  ]

  -- An error of the split; ENOENT means that nothing was mapped.
  unfoldable pub unmap_refused : Errno → List Vma → Run
  unmap_refused enoent l = done l []
  unmap_refused e l = failed e l

  unfoldable pub vma_unmap : List Vma → ℕ → ℕ → Bool → Bool → Run
  vma_unmap vmas vaddr len k₀ k₁ =
      if len == 0 then done vmas [] else elim (split_vma vmas vaddr len none k₀ k₁) [
        | parts s ↦ unmap_span s
        | refused e l ↦ unmap_refused e l
      ]
