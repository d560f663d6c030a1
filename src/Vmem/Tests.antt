-- ===== src/Vmem/Tests.antt =====
-- Runs of the operations on the address space, and the theorems at a concrete one.
use Prim.Native.Nat.{bit_or}
use budalloc.Prelude.{
  ℕ, ◌%◌, ◌+◌, ◌≤◌, ◌≡◌, ◌≢◌, refl, ◌⊎◌, true, none, some, List, [], ◌∷◌, ◌++◌, if◌then◌else◌,
  arith, size_max,
}
use budalloc.Vmem.Vma.{Vma, Call, unmap, name_eq, done, attr_at, in_range, vaddr_base}
use budalloc.Vmem.Find.{find_range, cut, find_vma, range_from, find_end, adjust_end}
use budalloc.Vmem.Merge.{can_merge, merge_with_next, merge_with_prev, try_merge}
use budalloc.Vmem.Split.{
  split_vma, split_range, split_end, split_first, split_last, need_split, first,
}
use budalloc.Vmem.Unmap.{unmap_all, unmap_span, vma_unmap}
use budalloc.Vmem.Unmap.Effect.{UnmapResult, vma_unmap_lem}
use budalloc.Vmem.Protect.{vma_set_prot}
use budalloc.Vmem.Protect.Effect.{SetProtResult}
use budalloc.Vmem.Protect.Pages.{vma_set_prot_lem}
use budalloc.Vmem.Map.{
  retry, round_to_hint, vma_map, mapped, insert_at, place, put, new_area, first_try,
}
use budalloc.Vmem.Map.Fit.{Free}
use budalloc.Vmem.Map.Retry.{round_to_hint-ge}
use budalloc.Vmem.Map.Effect.{vma_map_lem}
use budalloc.Vmem.Map.Total.{IsHint, IsAnonymous, vma_map_total}
use budalloc.Vmem.Advise.{vma_advise}
use budalloc.Vmem.Advise.Effect.{AdviseResult, vma_advise_lem}
use budalloc.Vmem.Bounds.{Between}
use budalloc.Vmem.Parted.{SplitResult, split_vma_lem}
use budalloc.Vmem.Range.{FoundResult, find_range_lem}

abbrev area : ℕ → ℕ → Vma
area s e = record {
  vm_start = s;
  vm_end = e;
  vm_page_prot = 3;
  vm_flags = 0x30;
  name = none;
  aux = some 0;
}

abbrev low_area : Vma
low_area = area 0x100000000 0x100004000

abbrev high_area : Vma
high_area = area 0x100008000 0x10000a000

abbrev space : List Vma
space = low_area ∷ high_area ∷ []

-- A page table program that always succeeds.
abbrev succeeds : Call → ℕ
succeeds c = 0

abbrev base_hint : ℕ
base_hint = 0x100000000

space-Between : Between 0 size_max space
space-Between = (omega arith, omega arith, (omega arith, omega arith, omega arith))

space-low : Between 0 0x10000a000 space
space-low = (omega arith, omega arith, (omega arith, omega arith, omega arith))

-- The middle of the first area is unmapped: two areas are left of it.
unmap_middle :
    vma_unmap succeeds space 0x100001000 0x1000 true true
    ≡ done
        (area 0x100000000 0x100001000
          ∷ record (area 0x100002000 0x100004000) { aux = none }
          ∷ high_area
          ∷ [])
        (unmap 0x100001000 0x100002000 ∷ [])
unfolding vma_unmap unmap_span unmap_all split_vma split_range split_end split_first split_last
    need_split find_range find_vma cut range_from find_end adjust_end first
unmap_middle = refl

vma_unmap_lem_example :
    UnmapResult succeeds space 0x100003000 0x6000
      (vma_unmap succeeds space 0x100003000 0x6000 true true)
vma_unmap_lem_example =
    vma_unmap_lem succeeds space 0x100003000 0x6000 true true space-Between (omega arith)

vma_set_prot_lem_example :
    SetProtResult succeeds space 0x100001000 0x1000 1
      (vma_set_prot succeeds space 0x100001000 0x1000 1 true true)
vma_set_prot_lem_example =
    vma_set_prot_lem succeeds space 0x100001000 0x1000 1 true true space-Between (omega arith)

-- One page at the end of the first area.
split_vma_lem_example :
    SplitResult space 0x100003000 0x1000 none (split_vma space 0x100003000 0x1000 none true true)
split_vma_lem_example =
    split_vma_lem space 0x100003000 0x1000 none (omega arith) true true space-Between (omega arith)

find_range_lem_example : FoundResult space 0x100003000 0x6000 (find_range space 0x100003000 0x6000)
find_range_lem_example =
    find_range_lem space 0x100003000 0x6000 space-Between (omega arith) (omega arith)

round_to_hint-ge_example : 0x100004000 ≤ round_to_hint 0x100000000 0x100004000
round_to_hint-ge_example = round_to_hint-ge 0x100000000 0x100004000 (omega arith) (omega arith)

-- A hint that is taken already: the mapping goes to the next multiple of the hint.
map_above :
    vma_map space 0x100000000 0x3000 3 0x20 none 7 true
    ≡ mapped 0x200000000 (space ++ new_area 0x200000000 0x3000 3 0x20 none 7 ∷ [])
unfolding vma_map retry find_vma cut first_try round_to_hint place put insert_at new_area try_merge
    merge_with_next merge_with_prev can_merge name_eq
map_above = refl

vma_map_lem_example :
    Free space 0x200000000 0x3000
    × ((base_hint ≢ 0) ⊎ ((vaddr_base ≤ 0x200000000) × (0x200000000 % 4096 ≡ 0)))
    × Between 0 size_max (space ++ new_area 0x200000000 0x3000 3 0x20 none 7 ∷ [])
    × ((x : ℕ)
        → attr_at x (space ++ new_area 0x200000000 0x3000 3 0x20 none 7 ∷ []) ≡ (
            if in_range 0x200000000 0x3000 x
            then some (3, bit_or 0x20 0x10, none)
            else attr_at x space))
vma_map_lem_example =
    vma_map_lem space 0x100000000 0x3000 3 0x20 none 7 true 0x200000000 0x10000a000
      (space ++ new_area 0x200000000 0x3000 3 0x20 none 7 ∷ []) space-low (omega arith)
      (omega arith) (omega arith) map_above

three_pages-IsAnonymous : IsAnonymous 0x3000 0x20
three_pages-IsAnonymous = record {
  some_page = omega arith;
  pages = refl;
  not_populate = refl;
  anonymous = refl;
}

-- A hint of 2 MB below VADDR_BASE.
abbrev small_hint : ℕ
small_hint = 0x200000

small_hint-IsHint : IsHint small_hint
small_hint-IsHint = record { nonzero = omega arith; whole = omega arith; power = λ p. refl }

vma_map_total_example :
    (va : ℕ) × (first_try small_hint ≤ va)
    × (va % 4096 ≡ 0)
    × (va + 0x3000 ≤ size_max)
    × Free space va 0x3000
    × (vma_map space small_hint 0x3000 3 0x20 none 7 true
        ≡ mapped va (put (new_area va 0x3000 3 0x20 none 7) space))
vma_map_total_example =
    vma_map_total space small_hint 0x3000 3 0x20 none 7 0x10000a000 small_hint-IsHint
      three_pages-IsAnonymous space-low (omega arith) (omega arith)

vma_advise_lem_example :
    AdviseResult succeeds space 0x100003000 0x6000 (vma_advise succeeds space 0x100003000 0x6000)
vma_advise_lem_example =
    vma_advise_lem succeeds space 0x100003000 0x6000 space-Between (omega arith)
