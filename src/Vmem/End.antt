-- ===== src/Vmem/End.antt =====
-- What the loop for the end area in `vmem_vma_find_range` finds in a list in order.
use Prim.Native.Nat.{max}
use budalloc.Prelude.{
  ℕ, ◌≤◌, ◌<◌, ◌≡◌, refl, ap, ◌⊎◌, inl, inr, List, [], ◌∷◌, ◌++◌, ◌&&◌, leb, ltb, arith, Bool-cases,
}
use budalloc.Vmem.Vma.{Vma}
use budalloc.Vmem.Find.{find_end}
use budalloc.Vmem.Bounds.{Between, Between-weaken}

-- The areas from `cur` on are cut behind the last one that starts before `vend`.
pub record IsEnd (vend hi : ℕ) (cur : Vma) (rest m : List Vma) (last : Vma) (after : List Vma)
    : Type 0 where
  pub joined : cur ∷ rest ≡ m ++ last ∷ after
  pub middle : Between cur.vm_start last.vm_start m
  pub fits : last.vm_start < last.vm_end
  pub starts : last.vm_start < vend
  pub behind : Between (max last.vm_end vend) hi after

module _ (vend hi : ℕ) (fit : vend ≤ hi) where
  IsEnd-here :
      (cur : Vma) (rest : List Vma)
      → cur.vm_start < cur.vm_end
      → cur.vm_start < vend
      → Between cur.vm_end hi rest
      → Between (max cur.vm_end vend) hi rest
      → IsEnd vend hi cur rest [] cur rest
  IsEnd-here cur rest p q h k = record {
    joined = refl;
    middle = omega arith;
    fits = p;
    starts = q;
    behind = k;
  }

  IsEnd-cons :
      (cur next : Vma) (rest m : List Vma) (last : Vma) (after : List Vma)
      → cur.vm_start < cur.vm_end
      → cur.vm_end ≤ next.vm_start
      → IsEnd vend hi next rest m last after
      → IsEnd vend hi cur (next ∷ rest) (cur ∷ m) last after
  IsEnd-cons cur next rest m last after p q c = record {
    joined = ap (λ k. cur ∷ k) c.joined;
    middle = (omega arith, p, Between-weaken _ _ _ _ m q (omega arith) c.middle);
    fits = c.fits;
    starts = c.starts;
    behind = c.behind;
  }

  Between-max :
      (e : ℕ) (next : Vma) (rest : List Vma)
      → Between e hi (next ∷ rest)
      → (vend ≤ e) ⊎ (vend ≤ next.vm_start)
      → Between (max e vend) hi (next ∷ rest)
  Between-max e next rest h (inl p) = (omega arith, h.1, h.2)
  Between-max e next rest h (inr p) = (omega arith, h.1, h.2)

  abbrev Ends : Vma → List Vma → List Vma × Vma × List Vma → Type 0
  Ends cur rest (m, last, after) = IsEnd vend hi cur rest m last after

  pub find_end_lem :
      (cur : Vma) (rest : List Vma)
      → cur.vm_start < cur.vm_end
      → cur.vm_start < vend
      → Between cur.vm_end hi rest
      → Ends cur rest (find_end vend cur rest)
  unfolding find_end
  find_end_lem cur [] p q h = IsEnd-here cur [] p q h (omega arith)
  find_end_lem cur (next ∷ rest) p q h =
      elim (Bool-cases (ltb cur.vm_start vend && leb vend cur.vm_end)) [
        | inl e ↦
            rw e
              (IsEnd-here cur (next ∷ rest) p q h (Between-max _ next rest h (inl (ground arith))))
        | inr e ↦ rw e (elim (Bool-cases (leb vend next.vm_start)) [
          | inl f ↦
              rw f (
                IsEnd-here cur (next ∷ rest) p q h (Between-max _ next rest h (inr (ground arith))))
          | inr f ↦
              rw f (
                IsEnd-cons cur next rest _ _ _ p h.0
                  (find_end_lem next rest h.1 (ground arith) h.2))
        ])
      ]
