-- ===== src/Vmem/Map/Fit.antt =====
-- `vmem_first_fit` and the loop at `retry`: the addresses that they choose are free.
use Prim.Native.Nat.{max}
use budalloc.Prelude.{
  ℕ, suc, ◌+◌, ◌-◌, ◌%◌, ◌≤◌, ◌<◌, ◌≡◌, refl, ◌⊎◌, inl, inr, none, List, [], ◌∷◌, ◌++◌, leb, ltb,
  arith, Bool-cases, if◌then◌else◌, size_max, length,
}
use budalloc.Vmem.Vma.{Vma, attr_at, page_align}
use budalloc.Vmem.Map.{first_fit_from, first_fit}
use budalloc.Vmem.Bounds.{Between, Between-le, attr_at-below}

-- No page of the range is mapped.
abbrev pub Free : List Vma → ℕ → ℕ → Type 0
Free vmas va len = (a : ℕ) → va ≤ a → a < va + len → attr_at a vmas ≡ none

abbrev pub FitResult : List Vma → ℕ → ℕ → ℕ → Type 0
FitResult vmas vaddr len va = (va ≡ size_max) ⊎ ((vaddr ≤ va) × (va % 4096 ≡ 0) × Free vmas va len)

first_fit_from_lem :
    (base len vaddr lo : ℕ) (l : List Vma)
    → vaddr ≤ max lo base
    → Between lo size_max l
    → FitResult l vaddr len (first_fit_from base len vaddr l)
unfolding first_fit_from attr_at
first_fit_from_lem base len vaddr lo [] b h = elim (Bool-cases (ltb (size_max - 4096) vaddr)) [
  | inl e ↦ rw e (inl refl)
  | inr e ↦ rw e (inr (ground arith, omega arith, λ a p q. refl))
]
first_fit_from_lem base len vaddr lo (cur ∷ l) b h =
    elim (Bool-cases (ltb (size_max - 4096) vaddr)) [
      | inl e ↦ rw e (inl refl)
      | inr e ↦ rw e (elim (Bool-cases (ltb (size_max - len) (page_align vaddr))) [
        | inl f ↦ rw f (inl refl)
        | inr f ↦ rw f (elim (Bool-cases (leb (page_align vaddr + len) cur.vm_start)) [
          | inl g ↦ rw g (
              inr (
                ground arith,
                omega arith,
                λ a p q.
                    attr_at-below a cur.vm_start size_max (cur ∷ l) (omega arith, h.1, h.2)
                      (ground arith),
              ))
          | inr g ↦ rw g (
              go (first_fit_from_lem base len (max cur.vm_end base) cur.vm_end l (omega arith) h.2))
        ])
      ])
    ]
  where
    rest : ℕ
    rest = first_fit_from base len (max cur.vm_end base) l

    go : FitResult l (max cur.vm_end base) len rest → FitResult (cur ∷ l) vaddr len rest
    go (inl e) = inl e
    go (inr (p, q, free)) = inr (omega arith, q, λ a s t. ground (arith, free a s t))

-- With the areas in order, vmem_first_fit fails, or gives an aligned address from base on where
-- len bytes are free.
pub first_fit_lem :
    (vmas : List Vma) (base len : ℕ)
    → Between 0 size_max vmas
    → FitResult vmas base len (first_fit vmas base len)
unfolding first_fit
first_fit_lem vmas base len h = first_fit_from_lem base len base 0 vmas (omega arith) h

-- How many areas end above an address.
unfoldable pub above : ℕ → List Vma → ℕ
above a [] = 0
above a (v ∷ l) = if ltb a v.vm_end then suc (above a l) else above a l

above-le : (a b : ℕ) (l : List Vma) → a ≤ b → above b l ≤ above a l
unfolding above
above-le a b [] h = omega arith
above-le a b (v ∷ l) h = ground (arith, above-le a b l h)

pub above-lt :
    (a b : ℕ) (k : List Vma) (v : Vma) (l : List Vma)
    → a < v.vm_end
    → v.vm_end ≤ b
    → above b (k ++ v ∷ l) < above a (k ++ v ∷ l)
unfolding above
above-lt a b [] v l p q = ground (arith, above-le a b l)
above-lt a b (u ∷ k) v l p q = ground (arith, above-lt a b k v l p q)

pub above-le-length : (a : ℕ) (l : List Vma) → above a l ≤ length l
unfolding above
above-le-length a [] = omega arith
above-le-length a (v ∷ l) = ground (arith, above-le-length a l)

pub Between-end :
    (lo hi : ℕ) (k : List Vma) (v : Vma) (l : List Vma) → Between lo hi (k ++ v ∷ l) → v.vm_end ≤ hi
Between-end lo hi [] v l h = Between-le v.vm_end hi l h.2
Between-end lo hi (u ∷ k) v l h = Between-end u.vm_end hi k v l h.2
