-- ===== src/Vmem/Map/Total.antt =====
-- `vma_map` with a hint: that it ends, and where it maps.
use Prim.Native.Nat.{bit_and}
use Prim.Native.String.{String}
use budalloc.Prelude.{
  ℕ, suc, ◌+◌, ◌-◌, ◌%◌, ◌≤◌, ◌<◌, ◌≡◌, refl, true, false, Option, none, some, List, ◌==◌, arith,
  length, size_max, Bool-cases, inl, inr, ltb,
}
use budalloc.Vmem.Vma.{Vma, page_aligned, page_align, vaddr_base}
use budalloc.Vmem.Map.{
  retry, first_try, round_to_hint, place, put, new_area, flag, mapped, out_of_fuel, vma_map,
}
use budalloc.Vmem.Map.Fit.{Free, above-le-length}
use budalloc.Vmem.Map.Retry.{Chosen, retry_lem, retry-keeps, round_to_hint-page, find_vma-none}
use budalloc.Vmem.Bounds.{Between, Between-weaken}

-- A hint that `vma_map` takes as its ASSERTs ask for it: whole pages, and a power of 2 below VADDR_BASE.
pub record IsHint (vaddr : ℕ) : Type 0 where
  pub nonzero : 0 < vaddr
  pub whole : vaddr % 4096 ≡ 0
  pub power : vaddr < vaddr_base → bit_and vaddr (vaddr - 1) ≡ 0

-- Whole pages, anonymous, not MAP_POPULATE.
pub record IsAnonymous (len flags : ℕ) : Type 0 where
  pub some_page : 0 < len
  pub pages : page_aligned len ≡ true
  pub not_populate : flag flags 15 ≡ false
  pub anonymous : flag flags 5 ≡ true

module _ (vmas : List Vma) (vaddr len prot flags : ℕ) (name : Option String) (aux top : ℕ)
    (hint : IsHint vaddr) (asked : IsAnonymous len flags) where
  put_at :
      (va : ℕ)
      → place vmas va len prot flags name aux true
        ≡ mapped va (put (new_area va len prot flags name aux) vmas)
  unfolding place
  put_at va = rw (asked.not_populate, asked.anonymous) refl

  -- A page, from which `len` bytes end within the address space.
  abbrev Fits : ℕ → Type 0
  Fits va = (va % 4096 ≡ 0) × (va + len ≤ size_max)

  module _ (order : Between 0 top vmas) (room : top + vaddr + len ≤ size_max)
      (base : vaddr_base + vaddr + len ≤ size_max) where
    rounded-Fits : (x : ℕ) → x ≤ top → Fits (round_to_hint vaddr x)
    rounded-Fits x le =
        let (page, below) = round_to_hint-page vaddr x hint.nonzero hint.whole (omega arith) in
        (page, omega (arith, below))

    first_try-Fits : Fits (first_try vaddr)
    unfolding first_try
    first_try-Fits = elim (Bool-cases (ltb vaddr vaddr_base)) [
      | inl e ↦
          let (page, below) =
            round_to_hint-page vaddr vaddr_base hint.nonzero hint.whole (omega arith) in
          rw e (page, omega (arith, below))
      | inr e ↦ rw e (hint.whole, omega arith)
    ]

    -- With a hint of whole pages, which is a power of 2 where it lies below VADDR_BASE, for an anonymous
    -- mapping of whole pages, with the areas in order below a bound, where the hint and the length can
    -- be added to the bound and to VADDR_BASE, and with memory, vma_map ends and maps: at a page not
    -- below the first one that it tries, from which the range does not wrap and no page is mapped. So
    -- its ASSERTs on the address hold.
    pub vma_map_total :
        (va : ℕ) × (first_try vaddr ≤ va)
        × (va % 4096 ≡ 0)
        × (va + len ≤ size_max)
        × Free vmas va len
        × (vma_map vmas vaddr len prot flags name aux true
            ≡ mapped va (put (new_area va len prot flags name aux) vmas))
    unfolding vma_map
    vma_map_total =
        let z : (vaddr == 0) ≡ false = ground (arith, hint.nonzero) in
        let r : (page_align vaddr == 0) ≡ false = ground (arith, hint.nonzero, hint.whole) in
        rw (asked.pages, z, r)
          (go (retry (suc (length vmas)) vmas vaddr len (first_try vaddr))
            (retry_lem vmas vaddr len top hint.nonzero order (omega arith) (suc (length vmas))
              (first_try vaddr) (omega (arith, above-le-length (first_try vaddr) vmas)))
            (λ va e.
              retry-keeps vmas vaddr len top order Fits rounded-Fits (suc (length vmas))
                (first_try vaddr) va first_try-Fits e))
      where
        go :
            (o : Option ℕ)
            → Chosen vmas len (first_try vaddr) o
            → ((va : ℕ) → o ≡ some va → Fits va)
            → (va : ℕ) × (first_try vaddr ≤ va)
              × (va % 4096 ≡ 0)
              × (va + len ≤ size_max)
              × Free vmas va len
              × ((elim o [
                | none ↦ out_of_fuel
                | some va ↦ place vmas va len prot flags name aux true
              ])
                  ≡ mapped va (put (new_area va len prot flags name aux) vmas))
        go none c f = absurd c
        go (some va) c f =
            let (page, fit) = f va refl in
            let low = Between-weaken 0 0 top size_max vmas (omega arith) (omega arith) order in
            (va, c.0, page, fit, find_vma-none vmas va len low asked.some_page fit c.1, put_at va)
