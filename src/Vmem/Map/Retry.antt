-- ===== src/Vmem/Map/Retry.antt =====
-- The loop at `retry` in `vma_map` ends, and the range that it chooses is free.
use Prim.Native.Nat.{max}
use budalloc.Prelude.{
  ℕ, zero, suc, ◌+◌, ◌-◌, ◌%◌, ◌^◌, ◌≤◌, ◌<◌, ◌≡◌, refl, Option, none, some, List, arith, size_max,
  add64, bit_and-complement, bit_and-complement-whole, sym,
}
use budalloc.Vmem.Vma.{Vma}
use budalloc.Vmem.Find.{find_vma, cut}
use budalloc.Vmem.Map.{retry, round_to_hint}
use budalloc.Vmem.Map.Fit.{Free, above, above-lt, Between-end}
use budalloc.Vmem.Bounds.{Between}
use budalloc.Vmem.Cut.{IsCut, CutResult, cut_lem}

-- Rounding by the hint never goes down, whatever the hint is.
pub round_to_hint-ge : (hint x : ℕ) → 0 < hint → x + hint ≤ 2 ^ 64 → x ≤ round_to_hint hint x
unfolding round_to_hint
round_to_hint-ge hint x p q =
    let e : (x + hint - 1) % 2 ^ 64 ≡ x + hint - 1 = omega arith in
    rw e (omega (arith, bit_and-complement (x + hint - 1) hint (omega arith) p (omega arith)))

-- The loop gives an address from the first one on, where `vmem_find_vma` finds nothing.
abbrev pub Chosen : List Vma → ℕ → ℕ → Option ℕ → Type 0
Chosen vmas len va none = ⊥
Chosen vmas len va (some r) = (va ≤ r) × (find_vma vmas r len ≡ none)

-- What `vmem_find_vma` leaves out is not mapped.
pub find_vma-none :
    (vmas : List Vma) (va len : ℕ)
    → Between 0 size_max vmas
    → 0 < len
    → va + len ≤ size_max
    → find_vma vmas va len ≡ none
    → Free vmas va len
unfolding find_vma
find_vma-none vmas va len order pos fit e =
    let u : add64 va (max len 1) ≡ va + len = omega arith in
    go (cut va (va + len) vmas) (cut_lem va (va + len) size_max 0 vmas order) (rw u at e)
  where
    go :
        (o : Option (List Vma × Vma × List Vma))
        → CutResult 0 size_max va (va + len) vmas o
        → o ≡ none
        → Free vmas va len
    go none c e = c
    go (some x) c e = cc

module _ (vmas : List Vma) (hint len top : ℕ) (pos : 0 < hint) (order : Between 0 top vmas)
    (room : top + hint ≤ 2 ^ 64) where
  Chosen-next :
      (va : ℕ) (b : List Vma) (v : Vma) (r : List Vma) (vend : ℕ)
      → IsCut 0 top va vend vmas b v r
      → (va ≤ round_to_hint hint v.vm_end)
        × (above (round_to_hint hint v.vm_end) vmas < above va vmas)
  Chosen-next va b v r vend c =
      let top_le : v.vm_end ≤ top = Between-end 0 top b v r (rw c.joined at order) in
      let up = round_to_hint-ge hint v.vm_end pos (omega arith) in
      (
        omega (arith, c.ends),
        rw c.joined (above-lt va (round_to_hint hint v.vm_end) b v r c.ends up),
      )

  -- The loop at `retry` ends, for a hint that is not 0, areas in order below a bound that the hint can
  -- be added to, and more fuel than there are areas that end above the address: it gives an address from
  -- the first one on where `vmem_find_vma` finds nothing.
  pub retry_lem :
      (fuel va : ℕ) → above va vmas < fuel → Chosen vmas len va (retry fuel vmas hint len va)
  unfolding retry find_vma
  retry_lem zero va lt = absurd (omega arith)
  retry_lem (suc fuel) va lt =
      go (cut va (add64 va (max len 1)) vmas) (cut_lem va (add64 va (max len 1)) top 0 vmas order)
        refl (retry_lem fuel)
    where
      rest : ℕ → Option ℕ
      rest va' = retry fuel vmas hint len va'

      go :
          (o : Option (List Vma × Vma × List Vma))
          → CutResult 0 top va (add64 va (max len 1)) vmas o
          → cut va (add64 va (max len 1)) vmas ≡ o
          → ((va' : ℕ) → above va' vmas < fuel → Chosen vmas len va' (rest va'))
          → Chosen vmas len va
              (elim o [ none ↦ some va | some (b, v, r) ↦ rest (round_to_hint hint v.vm_end) ])
      go none c e ih = (omega arith, e)
      go (some (b, v, r)) c e ih =
          let (up, down) = Chosen-next va b v r _ c in
          later (rest (round_to_hint hint v.vm_end)) up
            (ih (round_to_hint hint v.vm_end) (omega arith))
        where
          later : {va' : ℕ} (o : Option ℕ) → va ≤ va' → Chosen vmas len va' o → Chosen vmas len va o
          later none le h = h
          later (some r) le h = (omega arith, h.1)

module _ (vmas : List Vma) (hint len top : ℕ) (order : Between 0 top vmas) where
  -- The address that the loop gives is the first one, or an end of an area rounded by the hint.
  pub retry-keeps :
      (P : ℕ → Type 0)
      → ((x : ℕ) → x ≤ top → P (round_to_hint hint x))
      → (fuel va r : ℕ) → P va
      → retry fuel vmas hint len va ≡ some r
      → P r
  unfolding retry find_vma
  retry-keeps P rounded zero va r p e = cc
  retry-keeps P rounded (suc fuel) va r p e =
      go (cut va (add64 va (max len 1)) vmas) (cut_lem va (add64 va (max len 1)) top 0 vmas order)
        (λ va' q f. retry-keeps P rounded fuel va' r q f) e
    where
      go :
          (o : Option (List Vma × Vma × List Vma))
          → CutResult 0 top va (add64 va (max len 1)) vmas o
          → ((va' : ℕ) → P va' → retry fuel vmas hint len va' ≡ some r → P r)
          → (elim o [
            | none ↦ some va
            | some (b, v, k) ↦ retry fuel vmas hint len (round_to_hint hint v.vm_end)
          ])
            ≡ some r
          → P r
      go none c ih e = let f : va ≡ r = cc in rw (sym f) p
      go (some (b, v, k)) c ih e =
          let joined = rw c.joined at order in
          ih (round_to_hint hint v.vm_end) (rounded v.vm_end (Between-end 0 top b v k joined)) e

-- Where a hint of whole pages is added without a wrap, rounding by it gives a page, below the address
-- and the hint together.
pub round_to_hint-page :
    (hint x : ℕ)
    → 0 < hint
    → hint % 4096 ≡ 0
    → x + hint ≤ 2 ^ 64
    → (round_to_hint hint x % 4096 ≡ 0) × (round_to_hint hint x < x + hint)
unfolding round_to_hint
round_to_hint-page hint x pos whole fit =
    let e : (x + hint - 1) % 2 ^ 64 ≡ x + hint - 1 = omega arith in
    let b = bit_and-complement (x + hint - 1) hint (omega arith) pos (omega arith) in
    rw e (bit_and-complement-whole (x + hint - 1) hint whole (omega arith), omega (arith, b.1))
