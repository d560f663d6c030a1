-- ===== src/Vmem/Map.antt =====
-- `vmem_first_fit`, `vmem_insert_vma` and `vma_map`.
pub mod Fit
pub mod Retry
pub mod Place
pub mod Effect
pub mod Total
use Prim.Native.Nat.{max, bit_and, bit_or}
use Prim.Native.String.{String}
use budalloc.Prelude.{
  ℕ, zero, suc, ◌+◌, ◌-◌, ◌*◌, ◌/◌, ◌%◌, ◌^◌, Bool, true, false, not, Option, none, some, List, [],
  ◌∷◌, ◌++◌, ltb, leb, ◌==◌, if◌then◌else◌, add64, size_max, length,
}
use budalloc.Vmem.Vma.{Vma, Errno, enomem, einval, vaddr_base, page_aligned, page_align}
use budalloc.Vmem.Find.{find_vma}
use budalloc.Vmem.Merge.{try_merge}

-- The loop of `vmem_first_fit`, with `align` = PAGE_SIZE as its one caller has it. VADDR_INV is
-- SIZE_MAX.
unfoldable pub first_fit_from : ℕ → ℕ → ℕ → List Vma → ℕ
first_fit_from base len vaddr [] =
    if ltb (size_max - 4096) vaddr then size_max else page_align vaddr
first_fit_from base len vaddr (cur ∷ l) =
    let rest = first_fit_from base len (max cur.vm_end base) l in
    let va = page_align vaddr in
    if ltb (size_max - 4096) vaddr
    then size_max
    else if ltb (size_max - len) va
    then size_max
    else if leb (va + len) cur.vm_start
    then va
    else rest

unfoldable pub first_fit : List Vma → ℕ → ℕ → ℕ
first_fit vmas base len = first_fit_from base len base vmas

-- The list cut where `vmem_insert_vma` links the area `v` in.
unfoldable pub insert_at : Vma → List Vma → List Vma × List Vma
insert_at v [] = ([], [])
insert_at v (cur ∷ l) =
    if ltb v.vm_start cur.vm_end then ([], cur ∷ l) else let (b, a) = insert_at v l in (cur ∷ b, a)

-- `(x + vaddr - 1) & ~(vaddr - 1)` on 64-bit words, for `0 < vaddr`
unfoldable pub round_to_hint : ℕ → ℕ → ℕ
round_to_hint vaddr x = bit_and ((x + vaddr - 1) % 2 ^ 64) (2 ^ 64 - vaddr)

-- The loop at the label `retry`. `*vaddr` is not 0 there, so its branch with EEXIST is dead, and so
-- is the code behind the loop that splits and replaces areas. `none`: out of fuel.
unfoldable pub retry : ℕ → List Vma → ℕ → ℕ → ℕ → Option ℕ
retry zero vmas hint len va = none
retry (suc fuel) vmas hint len va = elim (find_vma vmas va len) [
  | none ↦ some va
  | some (b, v, r) ↦ retry fuel vmas hint len (round_to_hint hint v.vm_end)
]

pub data Mapped : Type 0 where
  mapped : ℕ → List Vma → Mapped
  refused : Errno → Mapped
  todo : Mapped  -- MAP_POPULATE
  unset_ops : Mapped  -- a call through the uninitialised `vm_ops` of an area that is not anonymous
  out_of_fuel : Mapped

-- Bit `k` of a word of flags. MAP_ANONYMOUS is bit 5, MAP_POPULATE bit 15, MAP_FIXED is 0x10.
abbrev pub flag : ℕ → ℕ → Bool
flag flags k = flags / 2 ^ k % 2 == 1

-- The new area of `vma_map`: its fields after the assignments.
unfoldable pub new_area : ℕ → ℕ → ℕ → ℕ → Option String → ℕ → Vma
new_area va len prot flags name aux = record {
  vm_start = va;
  vm_end = add64 va len;
  vm_page_prot = prot;
  vm_flags = bit_or flags 0x10;
  name = name;
  aux = some aux;
}

-- `vmem_insert_vma` and `vmem_vma_try_merge`
unfoldable pub put : Vma → List Vma → List Vma
put v vmas = let (before, after) = insert_at v vmas in try_merge before v after

-- The new area is made and put in; `k` is the answer of `kmalloc`.
unfoldable pub place : List Vma → ℕ → ℕ → ℕ → ℕ → Option String → ℕ → Bool → Mapped
place vmas va len prot flags name aux k =
    if not k
    then refused enomem
    else if flag flags 15
    then todo
    else if not (flag flags 5)
    then unset_ops
    else mapped va (put (new_area va len prot flags name aux) vmas)

-- Where a mapping with the hint `*vaddr` goes, by the two branches of `vma_map`.
unfoldable pub first_try : ℕ → ℕ
first_try vaddr = if ltb vaddr vaddr_base then round_to_hint vaddr vaddr_base else vaddr

unfoldable pub vma_map : List Vma → ℕ → ℕ → ℕ → ℕ → Option String → ℕ → Bool → Mapped
vma_map vmas vaddr len prot flags name aux k =
    let fit = first_fit vmas vaddr_base len in
    let found = retry (suc (length vmas)) vmas vaddr len (first_try vaddr) in
    if not (page_aligned len)
    then refused einval
    else if vaddr == 0
    then if fit == size_max then refused enomem else place vmas fit len prot flags name aux k
    else if page_align vaddr == 0
    then refused einval
    else elim found [ none ↦ out_of_fuel | some va ↦ place vmas va len prot flags name aux k ]
