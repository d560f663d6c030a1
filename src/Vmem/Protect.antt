-- ===== src/Vmem/Protect.antt =====
-- `vma_set_prot`.
pub mod Effect
pub mod Pages
use budalloc.Prelude.{ℕ, Bool, Option, none, some, List, [], ◌∷◌, ◌++◌, ◌==◌, if◌then◌else◌}
use budalloc.Vmem.Vma.{Vma, Errno, enoent, Call, set_prot, Run, done, failed, panic}
use budalloc.Vmem.Find.{Span}
use budalloc.Vmem.Merge.{merge_with_next, merge_with_prev}
use budalloc.Vmem.Split.{Parts, parts, refused, split_vma}

module _ (run : Call → ℕ) (prot : ℕ) where
  -- `vmem_vma_set_prot` on each area of a list; `none` where the page table program fails.
  unfoldable pub set_all : List Vma → Option (List Vma × List Call)
  set_all [] = some ([], [])
  set_all (v ∷ l) =
      let rest = set_all l in
      let call = set_prot v.vm_start v.vm_end prot in
      if v.vm_page_prot == prot
      then elim rest [ none ↦ none | some (l', calls) ↦ some (v ∷ l', calls) ]
      else if run call == 0
      then elim rest [
        | none ↦ none
        | some (l', calls) ↦ some (record v { vm_page_prot = prot } ∷ l', call ∷ calls)
      ]
      else none

-- The second pass of `vmem_set_prot_vma`, over the areas from `start` to `end`: the end area is
-- merged with the next one first, then each area with the one before it.
unfoldable pub merge_pass : List Vma → List Vma → List Vma → List Vma
merge_pass before [] after = before ++ after
merge_pass before (v ∷ []) after =
    let (w, rest) = merge_with_next v after in merge_with_prev before w ++ rest
merge_pass before (v ∷ u ∷ l) after = merge_pass (merge_with_prev before v) (u ∷ l) after

module _ (run : Call → ℕ) where
  unfoldable pub set_prot_span : ℕ → Span → Run
  set_prot_span prot s = elim (set_all run prot (s.mid ++ s.last ∷ [])) [
    | none ↦ panic
    | some (l, calls) ↦ done (merge_pass s.before l s.after) calls
  ]

  unfoldable pub set_prot_refused : Errno → List Vma → Run
  set_prot_refused enoent l = done l []
  set_prot_refused e l = failed e l

  unfoldable pub vma_set_prot : List Vma → ℕ → ℕ → ℕ → Bool → Bool → Run
  vma_set_prot vmas vaddr len prot k₀ k₁ =
      if len == 0 then done vmas [] else elim (split_vma vmas vaddr len (some prot) k₀ k₁) [
        | parts s ↦ set_prot_span prot s
        | refused e l ↦ set_prot_refused e l
      ]
