-- ===== src/Vmem/Map/Effect.antt =====
-- `vma_map` maps a free range and nothing else, and its loop ends.
use Prim.Native.Nat.{bit_or}
use Prim.Native.String.{String}
use budalloc.Prelude.{
  ℕ, suc, ◌+◌, ◌%◌, ◌^◌, ◌≤◌, ◌<◌, ◌≡◌, ◌≢◌, ◌⊎◌, inl, inr, Bool, true, false, Option, none, some,
  List, ◌==◌, arith, Bool-cases, if◌then◌else◌, size_max, length,
}
use budalloc.Vmem.Vma.{in_range, Vma, enomem, attr_at, page_aligned, page_align, vaddr_base}
use budalloc.Vmem.Map.{retry, first_fit, first_try, place, mapped, refused, out_of_fuel, vma_map}
use budalloc.Vmem.Map.Fit.{Free, FitResult, first_fit_lem, above-le-length}
use budalloc.Vmem.Map.Retry.{Chosen, retry_lem, find_vma-none}
use budalloc.Vmem.Map.Place.{place_lem, place-mapped}
use budalloc.Vmem.Bounds.{Between, Between-weaken}

module _ (vmas : List Vma) (vaddr len prot flags : ℕ) (name : Option String) (aux : ℕ) (k : Bool)
    (va top : ℕ) (l : List Vma) (order : Between 0 top vmas) (room : top + vaddr < 2 ^ 64)
    (pos : 0 < len) (fit : va + len ≤ size_max) where
  abbrev Effect : Type 0
  Effect =
      Free vmas va len
      × ((vaddr ≢ 0) ⊎ ((vaddr_base ≤ va) × (va % 4096 ≡ 0)))
      × Between 0 size_max l
      × ((x : ℕ)
          → attr_at x l
            ≡ (if in_range va len x then some (prot, bit_or flags 0x10, name) else attr_at x vmas))

  order' : Between 0 size_max vmas
  order' = Between-weaken 0 0 top size_max vmas (omega arith) (omega arith) order

  placed :
      (va' : ℕ)
      → place vmas va' len prot flags name aux k ≡ mapped va l
      → (va' + len ≤ size_max → Free vmas va' len)
      → (vaddr ≢ 0) ⊎ ((vaddr_base ≤ va') × (va' % 4096 ≡ 0))
      → Effect
  placed va' e free where_to =
      let (same, _) = place-mapped vmas va' len prot flags name aux k va l e in
      let fit' : va' + len ≤ size_max = omega arith in
      let (_, kept, at) =
        place_lem vmas va' len prot flags name aux k va l order' pos fit' (free fit') e in
      rw same (free fit', where_to, kept, at)

  fitted :
      (va' : ℕ)
      → FitResult vmas vaddr_base len va'
      → (if va' == size_max then refused enomem else place vmas va' len prot flags name aux k)
        ≡ mapped va l
      → Effect
  fitted va' (inl full) e =
      let t : (va' == size_max) ≡ true = ground arith in absurd (cc (rw t at e))
  fitted va' (inr (base, aligned, free)) e =
      let t : (va' == size_max) ≡ false = ground arith in
      placed va' (rw t at e) (λ _. free) (inr (base, aligned))

  retried :
      (o : Option ℕ)
      → vaddr ≢ 0
      → Chosen vmas len (first_try vaddr) o
      → (elim o [ none ↦ out_of_fuel | some va ↦ place vmas va len prot flags name aux k ])
        ≡ mapped va l
      → Effect
  retried none ne c e = absurd c
  retried (some va') ne c e =
      placed va' e (λ fit'. find_vma-none vmas va' len order' pos fit' c.1) (inl ne)

  -- Where the areas are in order below a bound that leaves room for the hint, and vma_map succeeds
  -- without wrapping at the top of the address space: no page of the new range was mapped before,
  -- all of it is mapped as asked now, every other page is mapped as before, and the areas are in
  -- order. Without a hint the range is aligned and lies above VADDR_BASE.
  pub vma_map_lem :
      vma_map vmas vaddr len prot flags name aux k ≡ mapped va l
      → Free vmas va len
        × ((vaddr ≢ 0) ⊎ ((vaddr_base ≤ va) × (va % 4096 ≡ 0)))
        × Between 0 size_max l
        × ((x : ℕ)
            → attr_at x l ≡ (
                if in_range va len x then some (prot, bit_or flags 0x10, name) else attr_at x vmas))
  unfolding vma_map
  vma_map_lem e = elim (Bool-cases (page_aligned len)) [
    | inr f ↦ absurd (cc (rw f at e))
    | inl f ↦ elim (Bool-cases (vaddr == 0)) [
      | inl z ↦
          fitted (first_fit vmas vaddr_base len) (first_fit_lem vmas vaddr_base len order')
            (rw (f, z) at e)
      | inr z ↦ elim (Bool-cases (page_align vaddr == 0)) [
        | inl w ↦ absurd (cc (rw (f, z, w) at e))
        | inr w ↦
            retried (retry (suc (length vmas)) vmas vaddr len (first_try vaddr)) (ground arith)
              (retry_lem vmas vaddr len top (ground arith) order (omega arith) (suc (length vmas))
                (first_try vaddr) (omega (arith, above-le-length (first_try vaddr) vmas)))
              (rw (f, z, w) at e)
      ]
    ]
  ]
