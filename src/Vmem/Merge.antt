-- ===== src/Vmem/Merge.antt =====
-- The merging of adjacent areas: `vmem_vma_can_merge` and the functions `vmem_vma_try_merge*`. A
-- merge keeps the first area, extends it, and drops the second.
use budalloc.Prelude.{Bool, ◌&&◌, List, [], ◌∷◌, ◌++◌, ◌==◌, if◌then◌else◌}
use budalloc.Vmem.Vma.{Vma, name_eq}

unfoldable pub can_merge : Vma → Vma → Bool
can_merge v next =
    v.vm_end == next.vm_start
    && v.vm_flags == next.vm_flags
    && v.vm_page_prot == next.vm_page_prot
    && name_eq v.name next.name

-- `vmem_vma_do_try_merge_with_next`: the area and what follows it.
unfoldable pub merge_with_next : Vma → List Vma → Vma × List Vma
merge_with_next v [] = (v, [])
merge_with_next v (next ∷ l) =
    if can_merge v next then (record v { vm_end = next.vm_end }, l) else (v, next ∷ l)

-- `vmem_vma_try_merge_with_prev`: the areas up to and with `v`, after the attempt.
unfoldable pub merge_with_prev : List Vma → Vma → List Vma
merge_with_prev [] v = v ∷ []
merge_with_prev (p ∷ []) v =
    if can_merge p v then record p { vm_end = v.vm_end } ∷ [] else p ∷ v ∷ []
merge_with_prev (p ∷ q ∷ l) v = p ∷ merge_with_prev (q ∷ l) v

-- `vmem_vma_try_merge` of the area `v` that stands between two lists
unfoldable pub try_merge : List Vma → Vma → List Vma → List Vma
try_merge before v after =
    let (w, rest) = merge_with_next v after in merge_with_prev before w ++ rest
