-- ===== src/Syscall/Map.antt =====
-- `mmap` of anonymous memory: what a mapping that it returns holds, and that a request with a hint is
-- granted where there is memory.
use Prim.Native.Nat.{bit_or}
use budalloc.Prelude.{
  ℕ, ◌+◌, ◌-◌, ◌%◌, ◌^◌, ◌≤◌, ◌<◌, ◌≡◌, ◌≢◌, refl, ap, ◌⊎◌, Bool, true, none, some, List, arith,
  if◌then◌else◌, size_max,
}
use budalloc.Vmem.Vma.{Vma, page_align, attr_at, in_range, vaddr_base}
use budalloc.Vmem.Map.{
  Mapped, mapped, refused, todo, unset_ops, out_of_fuel, vma_map, put, new_area, first_try,
}
use budalloc.Vmem.Map.Fit.{Free}
use budalloc.Vmem.Map.Effect.{vma_map_lem}
use budalloc.Vmem.Map.Total.{IsHint, IsAnonymous, vma_map_total}
use budalloc.Vmem.Bounds.{Between}
use budalloc.Syscall.{extend, map_anonymous, do_mmap, returns, answer, mmap}

module _ (vmas : List Vma) (addr len prot flags offset : ℕ) (k : Bool) where
  -- What `do_mmap` maps, `vma_map` has mapped, by a request that passed the tests.
  do_mmap-mapped :
      (va : ℕ) (l : List Vma)
      → do_mmap vmas addr len prot flags offset 0 k ≡ mapped va l
      → (0 < len)
        × (len ≤ size_max - 4096)
        × (vma_map vmas addr (page_align len) (extend prot) (extend flags) none 0 k ≡ mapped va l)
  unfolding do_mmap map_anonymous
  do_mmap-mapped va l e = ground (arith, e)

  answer-returns :
      (m : Mapped) (va : ℕ) (l : List Vma) → answer vmas m ≡ returns va none l → m ≡ mapped va l
  unfolding answer
  answer-returns (mapped va' l') va l e = cc e
  answer-returns (refused x) va l e = cc e
  answer-returns todo va l e = cc e
  answer-returns unset_ops va l e = cc e
  answer-returns out_of_fuel va l e = cc e

  -- Where the areas are in order below a bound that leaves room for the hint, and `mmap` returns an
  -- address without an error and without wrapping at the top of the address space: no page of the
  -- range, whose length is the one asked for rounded up to pages, was mapped before, all of it is
  -- mapped as asked now, every other page is mapped as before, and the areas are in order. Without a
  -- hint the range is aligned and lies above VADDR_BASE.
  pub mmap_lem :
      (va top : ℕ) (l : List Vma)
      → Between 0 top vmas
      → top + addr < 2 ^ 64
      → va + page_align len ≤ size_max
      → mmap vmas addr len prot flags offset k ≡ returns va none l
      → Free vmas va (page_align len)
        × ((addr ≢ 0) ⊎ ((vaddr_base ≤ va) × (va % 4096 ≡ 0)))
        × Between 0 size_max l
        × ((x : ℕ)
            → attr_at x l ≡ (
                if in_range va (page_align len) x
                then some (extend prot, bit_or (extend flags) 0x10, none)
                else attr_at x vmas))
  unfolding mmap
  mmap_lem va top l order room fit e =
      let (pos, small, e') =
        do_mmap-mapped va l (answer-returns (do_mmap vmas addr len prot flags offset 0 k) va l e) in
      vma_map_lem vmas addr (page_align len) (extend prot) (extend flags) none 0 k va top l order
        room (omega (arith, pos, small)) fit e'

module _ (vmas : List Vma) (addr len prot top : ℕ) where
  private_mapped :
      (va : ℕ) (l : List Vma)
      → addr ≢ 0
      → 0 < len
      → len ≤ size_max - 4096
      → vma_map vmas addr (page_align len) (extend prot) 0x22 none 0 true ≡ mapped va l
      → do_mmap vmas addr len prot 0x22 0 0 true ≡ mapped va l
  unfolding do_mmap map_anonymous
  private_mapped va l ne pos small e = ground (arith, ne, pos, small, e)

  -- `mmap` of private anonymous memory with a hint of whole pages, which is a power of 2 where it lies
  -- below VADDR_BASE, for a length that is not 0 and can be rounded up, with the areas in order below a
  -- bound, where the hint and the rounded length can be added to the bound and to VADDR_BASE, and with
  -- memory, ends and returns an address: a page not below the first one that vma_map tries, from which
  -- the range does not wrap and no page was mapped.
  pub mmap-granted :
      IsHint addr
      → 0 < len
      → len ≤ size_max - 4096
      → Between 0 top vmas
      → top + addr + page_align len ≤ size_max
      → vaddr_base + addr + page_align len ≤ size_max
      → (va : ℕ) × (first_try addr ≤ va)
        × (va % 4096 ≡ 0)
        × (va + page_align len ≤ size_max)
        × Free vmas va (page_align len)
        × (mmap vmas addr len prot 0x22 0 true
            ≡ returns va none (put (new_area va (page_align len) (extend prot) 0x22 none 0) vmas))
  unfolding mmap answer
  mmap-granted hint pos small order room base =
      let ne : addr ≢ 0 = ground (arith, hint.nonzero) in
      let asked : IsAnonymous (page_align len) 0x22 = record {
        some_page = omega (arith, pos, small);
        pages = ground arith;
        not_populate = refl;
        anonymous = refl;
      } in
      let (va, up, page, fit, free, e) =
        vma_map_total vmas addr (page_align len) (extend prot) 0x22 none 0 top hint asked order room
          base in
      (va, up, page, fit, free, ap (answer vmas) (private_mapped va _ ne pos small e))
