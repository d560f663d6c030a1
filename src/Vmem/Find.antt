-- ===== src/Vmem/Find.antt =====
-- `vmem_find_vma` and `vmem_vma_find_range`. The pointers `start` and `end` into the list of areas
-- are the list cut at these two areas.
use Prim.Native.Nat.{max}
use budalloc.Prelude.{
  ℕ, Bool, not, ◌&&◌, Option, none, some, List, [], ◌∷◌, ◌++◌, ltb, leb, if◌then◌else◌, add64,
  sub64,
}
use budalloc.Vmem.Vma.{Vma, Errno, enoent, einval, page_aligned}

-- The areas before the one that `start` points to, those from it up to the one before `end`, the
-- one that `end` points to, and those behind it; with the range adjusted to lie within.
pub record Span : Type 0 where
  pub vaddr : ℕ
  pub len : ℕ
  pub before : List Vma
  pub mid : List Vma
  pub last : Vma
  pub after : List Vma

abbrev pub mk : ℕ → ℕ → List Vma → List Vma → Vma → List Vma → Span
mk vaddr len before mid last after = record {
  vaddr = vaddr;
  len = len;
  before = before;
  mid = mid;
  last = last;
  after = after;
}

abbrev pub to_list : Span → List Vma
to_list s = s.before ++ (s.mid ++ s.last ∷ s.after)

pub data Found : Type 0 where
  range : Span → Found
  none_such : Errno → Found

abbrev pub overlaps : ℕ → ℕ → Vma → Bool
overlaps vstart vend v = ltb v.vm_start vend && ltb vstart v.vm_end

-- The loop of `vmem_find_vma`: the list cut at the first area that overlaps.
unfoldable pub cut : ℕ → ℕ → List Vma → Option (List Vma × Vma × List Vma)
cut vstart vend [] = none
cut vstart vend (v ∷ l) =
    if overlaps vstart vend v
    then some ([], v, l)
    else elim (cut vstart vend l) [ none ↦ none | some (b, w, r) ↦ some (v ∷ b, w, r) ]

-- `vmem_find_vma`
unfoldable pub find_vma : List Vma → ℕ → ℕ → Option (List Vma × Vma × List Vma)
find_vma vmas vaddr len = cut vaddr (add64 vaddr (max len 1)) vmas

-- The loop that looks for the end area, from `cur` with `rest` behind it.
unfoldable pub find_end : ℕ → Vma → List Vma → List Vma × Vma × List Vma
find_end vend cur [] = ([], cur, [])
find_end vend cur (next ∷ rest) =
    let (m, last, after) = find_end vend next rest in
    if ltb cur.vm_start vend && leb vend cur.vm_end
    then ([], cur, next ∷ rest)
    else if leb vend next.vm_start
    then ([], cur, next ∷ rest)
    else (cur ∷ m, last, after)

abbrev pub span : ℕ → ℕ → List Vma → List Vma × Vma × List Vma → Found
span vstart vend before (mid, last, after) =
    range (mk vstart (sub64 vend vstart) before mid last after)

-- The end is moved into the end area, or has to be aligned within it.
unfoldable pub adjust_end : ℕ → ℕ → List Vma → List Vma × Vma × List Vma → Found
adjust_end vstart vend before (mid, last, after) =
    if ltb last.vm_end vend
    then span vstart last.vm_end before (mid, last, after)
    else if ltb vend last.vm_end && not (page_aligned vend)
    then none_such einval
    else span vstart vend before (mid, last, after)

-- The rest of `vmem_vma_find_range` once `vmem_find_vma` has answered.
unfoldable pub range_from : ℕ → ℕ → Option (List Vma × Vma × List Vma) → Found
range_from vaddr vend none = none_such enoent
range_from vaddr vend (some (before, v, rest)) =
    if ltb vaddr v.vm_start
    then adjust_end v.vm_start vend before (find_end vend v rest)
    else if ltb v.vm_start vaddr && not (page_aligned vaddr)
    then none_such einval
    else adjust_end vaddr vend before (find_end vend v rest)

-- `vmem_vma_find_range`, called with `*start == NULL` by each of its callers, and with `len > 0`.
unfoldable pub find_range : List Vma → ℕ → ℕ → Found
find_range vmas vaddr len = range_from vaddr (add64 vaddr len) (find_vma vmas vaddr len)
