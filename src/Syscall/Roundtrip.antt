-- ===== src/Syscall/Roundtrip.antt =====
-- `munmap` of what `mmap` has mapped gives back the pages of before.
use budalloc.Prelude.{ℕ, ◌+◌, ◌^◌, ◌≤◌, ◌<◌, ◌≡◌, Bool, true, none, List, arith, size_max}
use budalloc.Vmem.Vma.{Vma, Call, done, page_align, attr_at, in_range}
use budalloc.Vmem.Unmap.Effect.{covered}
use budalloc.Vmem.Bounds.{Between}
use budalloc.Syscall.{returns, mmap, munmap}
use budalloc.Syscall.Success.{Aligned, MunmapResult, munmap_lem}
use budalloc.Syscall.Done.{munmap-done}
use budalloc.Syscall.Map.{mmap_lem}

-- Where `mmap` returns an aligned address of a range below the last page of the address space, from
-- areas in order below a bound that leaves room for the hint, and `munmap` of that range has memory
-- and a page table program that succeeds: `munmap` is done, every page is mapped as before `mmap`,
-- and its calls unmap the pages of the range and no others.
pub munmap-mmap :
    (run : Call → ℕ) (vmas : List Vma) (addr len prot flags offset : ℕ) (k : Bool) (va top : ℕ)
    (l : List Vma)
    → ((c : Call) → run c ≡ 0)
    → Aligned va len
    → Between 0 top vmas
    → top + addr < 2 ^ 64
    → mmap vmas addr len prot flags offset k ≡ returns va none l
    → (l' : List Vma) × (calls : List Call) × (munmap run l va len true true ≡ done l' calls)
      × ((x : ℕ) → attr_at x l' ≡ attr_at x vmas)
      × ((x : ℕ) → covered x calls ≡ in_range va (page_align len) x)
munmap-mmap run vmas addr len prot flags offset k va top l succeeds aligned order room e =
    let fit : va + page_align len ≤ size_max = omega (arith, aligned.2) in
    let (free, _, order', at) =
      mmap_lem vmas addr len prot flags offset k va top l order room fit e in
    let (l', calls, f) = munmap-done run succeeds l va len aligned order' in
    let result : MunmapResult run l va len (munmap run l va len true true) =
      munmap_lem run l va len aligned true true order' in
    let now : MunmapResult run l va len (done l' calls) = rw f at result in
    (l', calls, f, (λ x. ground (arith, now.1 x, at x, free x)), λ x. ground (arith, now.2 x, at x))
