-- ===== src/Syscall/Tests.antt =====
-- Runs of the system calls, and the theorems at concrete requests.
use Prim.Native.Nat.{bit_or}
use budalloc.Prelude.{
  ℕ, ◌+◌, ◌%◌, ◌≤◌, ◌≡◌, ◌≢◌, refl, ◌⊎◌, true, false, none, some, List, [], ◌∷◌, arith,
  if◌then◌else◌, size_max,
}
use budalloc.Vmem.Vma.{
  Vma, einval, enomem, eperm, Call, done, page_align, attr_at, in_range, vaddr_base, name_eq,
}
use budalloc.Vmem.Merge.{can_merge, merge_with_next, merge_with_prev, try_merge}
use budalloc.Vmem.Map.{
  vma_map, first_fit, first_fit_from, first_try, place, put, insert_at, new_area,
}
use budalloc.Vmem.Map.Fit.{Free}
use budalloc.Vmem.Unmap.Effect.{covered}
use budalloc.Vmem.Bounds.{Between}
use budalloc.Syscall.{extend, map_anonymous, do_mmap, returns, answer, mmap, mprotect, munmap}
use budalloc.Syscall.Success.{MunmapResult, munmap_lem, MprotectResult, mprotect_lem}
use budalloc.Syscall.Done.{munmap-done}
use budalloc.Vmem.Map.Total.{IsHint}
use budalloc.Syscall.Map.{mmap_lem, mmap-granted}
use budalloc.Syscall.Roundtrip.{munmap-mmap}

abbrev area : ℕ → ℕ → Vma
area s e = record {
  vm_start = s;
  vm_end = e;
  vm_page_prot = 3;
  vm_flags = 0x32;
  name = none;
  aux = some 0;
}

-- One area, and the list after a mapping of two pages behind it, which merges with it.
abbrev one_area : List Vma
one_area = area 0x100000000 0x100004000 ∷ []

abbrev longer : List Vma
longer = area 0x100000000 0x100006000 ∷ []

abbrev succeeds : Call → ℕ
succeeds c = 0

always : (c : Call) → succeeds c ≡ 0
always c = refl

order : Between 0 size_max one_area
order = (omega arith, omega arith, omega arith)

order_low : Between 0 0x100004000 one_area
order_low = (omega arith, omega arith, omega arith)

abbrev base_hint : ℕ
base_hint = 0x100000000

abbrev no_hint : ℕ
no_hint = 0

-- Some of the requests that `mmap` refuses.
refused_requests :
    (mmap one_area 0 0 3 0x22 0 true ≡ returns size_max (some einval) one_area)
    × (mmap one_area 0 size_max 3 0x22 0 true ≡ returns size_max (some enomem) one_area)
    × (mmap one_area 0 4096 3 0x32 0 true ≡ returns size_max (some eperm) one_area)
    × (mmap one_area 0 4096 3 0x20 0 true ≡ returns size_max (some einval) one_area)
unfolding mmap answer do_mmap map_anonymous
refused_requests = (refl, refl, refl, refl)

mmap_pages : mmap one_area no_hint 0x1800 3 0x22 0 true ≡ returns 0x100004000 none longer
unfolding mmap answer do_mmap map_anonymous vma_map first_fit first_fit_from place put insert_at
    new_area try_merge merge_with_next merge_with_prev can_merge name_eq
mmap_pages = refl

mmap_lem_example :
    Free one_area 0x100004000 (page_align 0x1800)
    × ((no_hint ≢ 0) ⊎ ((vaddr_base ≤ 0x100004000) × (0x100004000 % 4096 ≡ 0)))
    × Between 0 size_max longer
    × ((x : ℕ)
        → attr_at x longer ≡ (
            if in_range 0x100004000 (page_align 0x1800) x
            then some (extend 3, bit_or (extend 0x22) 0x10, none)
            else attr_at x one_area))
mmap_lem_example =
    mmap_lem one_area no_hint 0x1800 3 0x22 0 true 0x100004000 0x100004000 longer order_low
      (omega arith) (omega arith) mmap_pages

base_hint-IsHint : IsHint base_hint
base_hint-IsHint = record {
  nonzero = omega arith;
  whole = omega arith;
  power = λ p. absurd (omega arith);
}

mmap-granted_example :
    (va : ℕ) × (first_try base_hint ≤ va)
    × (va % 4096 ≡ 0)
    × (va + page_align 0x1800 ≤ size_max)
    × Free one_area va (page_align 0x1800)
    × (mmap one_area base_hint 0x1800 3 0x22 0 true
        ≡ returns va none (put (new_area va (page_align 0x1800) (extend 3) 0x22 none 0) one_area))
mmap-granted_example =
    mmap-granted one_area base_hint 0x1800 3 0x100004000 base_hint-IsHint (omega arith)
      (omega arith) order_low (omega arith) (omega arith)

munmap_lem_example :
    MunmapResult succeeds one_area 0x100001000 0x800
      (munmap succeeds one_area 0x100001000 0x800 true false)
munmap_lem_example =
    munmap_lem succeeds one_area 0x100001000 0x800 (refl, omega arith, omega arith) true false order

mprotect_lem_example :
    MprotectResult succeeds one_area 0x100001000 0x800
      (extend 1)
      (mprotect succeeds one_area 0x100001000 0x800 1 true true)
mprotect_lem_example =
    mprotect_lem succeeds one_area 0x100001000 0x800 (refl, omega arith, omega arith) 1 true true
      order

munmap-done_example :
    (l : List Vma) × (calls : List Call) × (munmap succeeds one_area 0x100001000 0x800 true true
      ≡ done l calls)
munmap-done_example =
    munmap-done succeeds always one_area 0x100001000 0x800 (refl, omega arith, omega arith) order

munmap-mmap_example :
    (l' : List Vma) × (calls : List Call) × (munmap succeeds longer 0x100004000 0x1800 true true
      ≡ done l' calls)
    × ((x : ℕ) → attr_at x l' ≡ attr_at x one_area)
    × ((x : ℕ) → covered x calls ≡ in_range 0x100004000 (page_align 0x1800) x)
munmap-mmap_example =
    munmap-mmap succeeds one_area no_hint 0x1800 3 0x22 0 true 0x100004000 0x100004000 longer always
      (refl, omega arith, omega arith) order_low (omega arith) mmap_pages
