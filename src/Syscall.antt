-- ===== src/Syscall.antt =====
-- The system calls of libkernel/src/mmap/mmap.c on the address space. The mutex that is held around
-- each operation is left out: a call is one step. `addr`, `len` and `offset` are 64-bit patterns,
-- `prot` and `flags` are `int`s by their 32-bit patterns.
pub mod Success
pub mod Done
pub mod Map
pub mod Roundtrip
mod Tests
use Prim.Native.String.{String}
use budalloc.Prelude.{
  ℕ, ◌+◌, ◌-◌, ◌/◌, ◌%◌, ◌^◌, Bool, true, false, not, ◌&&◌, ◌||◌, Option, none, some, List, [], ltb,
  ◌==◌, if◌then◌else◌, size_max,
}
use budalloc.Vmem.Vma.{
  Vma, Errno, eperm, enoent, enomem, einval, eoverflow, enotsup, Call, Run, done, failed, panic,
  page_aligned, page_align,
}
use budalloc.Vmem.Map.{Mapped, mapped, refused, todo, flag, vma_map}
use budalloc.Vmem.Unmap.{vma_unmap}
use budalloc.Vmem.Protect.{vma_set_prot}
use budalloc.Vmem.Advise.{vma_advise}

-- An `int` as `unsigned long`: its sign is extended.
abbrev pub extend : ℕ → ℕ
extend x = if ltb x (2 ^ 31) then x else x + (2 ^ 64 - 2 ^ 32)

-- The tests of `do_mmap` on an anonymous mapping. MAP_SHARED is bit 0, MAP_PRIVATE bit 1,
-- MAP_SHARED_VALIDATE both, MAP_GROWSDOWN bit 8, MAP_HUGETLB bit 18, MAP_UNINITIALIZED bit 26.
unfoldable pub map_anonymous : List Vma → ℕ → ℕ → ℕ → ℕ → ℕ → Bool → Mapped
map_anonymous vmas vaddr len prot flags aux k =
    if not (flag flags 0 || flags % 4 == 3) && not (flag flags 1)
    then refused einval
    else if flag flags 8
    then refused enotsup
    else if flag flags 26
    then todo
    else if flag flags 18
    then refused einval
    else if flag flags 15
    then todo
    else vma_map vmas vaddr (page_align len) (extend prot) (extend flags) none aux k

-- `do_mmap`. MAP_FIXED is bit 4, MAP_ANONYMOUS bit 5, MAP_FIXED_NOREPLACE bit 20.
unfoldable pub do_mmap : List Vma → ℕ → ℕ → ℕ → ℕ → ℕ → ℕ → Bool → Mapped
do_mmap vmas addr len prot flags offset aux k =
    if len == 0
    then refused einval
    else if ltb (size_max - 4096) len
    then refused enomem
    else if not (ltb offset (2 ^ 63)) || not (page_aligned offset)
    then refused einval
    else if ltb (size_max - len) offset
    then refused eoverflow
    else if not (addr == 0) && flag flags 4
    then todo
    else if addr == 0 && flag flags 4
    then refused eperm
    else if addr == 0 && flag flags 20
    then refused eperm
    else if flag flags 5
    then map_anonymous vmas addr len prot flags aux k
    else refused enotsup

-- What `mmap` leaves: the value that it returns, `errno` where it sets it, and the areas.
pub data Answer : Type 0 where
  returns : ℕ → Option Errno → List Vma → Answer
  stops : Answer  -- TODO, a call through an unset pointer, or a loop without end

unfoldable pub answer : List Vma → Mapped → Answer
answer vmas (mapped va l) = returns va none l
answer vmas (refused e) = returns (2 ^ 64 - 1) (some e) vmas
answer vmas m = stops

unfoldable pub mmap : List Vma → ℕ → ℕ → ℕ → ℕ → ℕ → Bool → Answer
mmap vmas addr len prot flags offset k = answer vmas (do_mmap vmas addr len prot flags offset 0 k)

-- ENOENT is answered as ENOMEM, by `mprotect` and `madvise`.
unfoldable pub no_memory : Run → Run
no_memory (failed enoent l) = failed enomem l
no_memory r = r

-- ENOENT is no error of `munmap`.
unfoldable pub no_error : Run → Run
no_error (failed enoent l) = done l []
no_error r = r

module _ (run : Call → ℕ) where
  unfoldable pub mprotect : List Vma → ℕ → ℕ → ℕ → Bool → Bool → Run
  mprotect vmas addr len prot k₀ k₁ =
      no_memory (vma_set_prot run vmas addr (page_align len) (extend prot) k₀ k₁)

  unfoldable pub munmap : List Vma → ℕ → ℕ → Bool → Bool → Run
  munmap vmas addr len k₀ k₁ =
      if len == 0
      then failed einval vmas
      else no_error (vma_unmap run vmas addr (page_align len) k₀ k₁)

  unfoldable pub madvise : List Vma → ℕ → ℕ → Run
  madvise vmas addr len = no_memory (vma_advise run vmas addr len)
