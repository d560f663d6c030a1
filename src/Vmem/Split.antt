-- ===== src/Vmem/Split.antt =====
-- `vmem_vma_split` and `vmem_split_vma`: cutting areas at the ends of a range.
use budalloc.Prelude.{
  ℕ, Bool, not, ◌&&◌, Option, none, some, List, [], ◌∷◌, ◌++◌, ltb, ◌==◌, if◌then◌else◌, add64,
  sub64,
}
use budalloc.Vmem.Vma.{Vma, Errno, enomem}
use budalloc.Vmem.Find.{Span, mk, range, none_such, find_range}
use budalloc.Vmem.Merge.{try_merge}

pub data Parts : Type 0 where
  parts : Span → Parts
  refused : Errno → List Vma → Parts

-- The two areas that `vmem_vma_split` makes of one. It does not set `aux` of the new one.
abbrev pub low : Vma → ℕ → Vma
low v a = record v { vm_end = a }

abbrev pub high : Vma → ℕ → Vma
high v a = record v { vm_start = a; aux = none }

-- `vmem_vma_need_split`
unfoldable pub need_split : Vma → ℕ → Option ℕ → Bool
need_split v len none = ltb 0 len
need_split v len (some p) = ltb 0 len && not (v.vm_page_prot == p)

-- The area that `start` points to.
unfoldable pub first : List Vma → Vma → Vma
first [] last = last
first (v ∷ m) last = v

-- The split of the start area: `start` moves to the new area, and `end` with it if it was the same.
unfoldable pub split_first : Span → List Vma → Span
split_first s [] =
    mk s.vaddr s.len (s.before ++ low s.last s.vaddr ∷ []) [] (high s.last s.vaddr) s.after
split_first s (v ∷ m) =
    mk s.vaddr s.len (s.before ++ low v s.vaddr ∷ []) (high v s.vaddr ∷ m) s.last s.after

unfoldable pub split_last : Span → ℕ → Span
split_last s vend = record s { last = low s.last vend; after = high s.last vend ∷ s.after }

-- `vmem_vma_try_merge(vma_start)` on the way out of a failed second split
unfoldable pub merge_first : Span → List Vma → List Vma
merge_first s [] = try_merge s.before s.last s.after
merge_first s (v ∷ m) = try_merge s.before v (m ++ s.last ∷ s.after)

-- The second half of `vmem_split_vma`; `k` says whether `kmalloc` gives memory.
unfoldable pub split_end : Span → Option ℕ → Bool → Parts
split_end s prot k =
    let vend = add64 s.vaddr s.len in
    if ltb 0 s.len && need_split s.last (sub64 s.last.vm_end vend) prot
    then if k then parts (split_last s vend) else refused enomem (merge_first s s.mid)
    else parts s

-- The first half; `k₀` and `k₁` are the answers of the two calls of `kmalloc`.
unfoldable pub split_range : List Vma → Span → Option ℕ → Bool → Bool → Parts
split_range vmas s prot k₀ k₁ =
    let v = first s.mid s.last in
    if need_split v (sub64 s.vaddr v.vm_start) prot
    then if k₀ then split_end (split_first s s.mid) prot k₁ else refused enomem vmas
    else split_end s prot k₁

unfoldable pub split_vma : List Vma → ℕ → ℕ → Option ℕ → Bool → Bool → Parts
split_vma vmas vaddr len prot k₀ k₁ = elim (find_range vmas vaddr len) [
  | none_such e ↦ refused e vmas
  | range s ↦ split_range vmas s prot k₀ k₁
]
