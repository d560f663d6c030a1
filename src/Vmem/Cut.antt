-- ===== src/Vmem/Cut.antt =====
-- What `vmem_find_vma` finds in a list in order.
use Prim.Native.Nat.{min, max}
use budalloc.Prelude.{
  ℕ, ◌≤◌, ◌<◌, ◌≡◌, refl, ap, inl, inr, true, false, Option, none, some, List, [], ◌∷◌, ◌++◌, arith,
  Bool-cases,
}
use budalloc.Vmem.Vma.{Vma, attr_at}
use budalloc.Vmem.Find.{cut, overlaps}
use budalloc.Vmem.Bounds.{Between, Between-weaken}

-- The list is cut at the first area that overlaps `[vstart, vend)`.
pub record IsCut (lo hi vstart vend : ℕ) (l b : List Vma) (v : Vma) (r : List Vma) : Type 0 where
  pub joined : l ≡ b ++ v ∷ r
  pub front : Between (min lo vstart) (min vstart v.vm_start) b
  pub fits : v.vm_start < v.vm_end
  pub rest : Between v.vm_end hi r
  pub bound : lo ≤ v.vm_start
  pub starts : v.vm_start < vend
  pub ends : vstart < v.vm_end

abbrev pub CutResult : ℕ → ℕ → ℕ → ℕ → List Vma → Option (List Vma × Vma × List Vma) → Type 0
CutResult lo hi vstart vend l none = (a : ℕ) → vstart ≤ a → a < vend → attr_at a l ≡ none
CutResult lo hi vstart vend l (some (b, v, r)) = IsCut lo hi vstart vend l b v r

module _ (vstart vend : ℕ) (hi : ℕ) where
  IsCut-here :
      (lo : ℕ) (v : Vma) (l : List Vma)
      → Between lo hi (v ∷ l)
      → overlaps vstart vend v ≡ true
      → IsCut lo hi vstart vend (v ∷ l) [] v l
  IsCut-here lo v l h e = record {
    joined = refl;
    front = ground arith;
    fits = h.1;
    rest = h.2;
    bound = h.0;
    starts = ground arith;
    ends = ground arith;
  }

  IsCut-cons :
      (lo : ℕ) (u : Vma) (l b : List Vma) (v : Vma) (r : List Vma)
      → lo ≤ u.vm_start
      → u.vm_start < u.vm_end
      → overlaps vstart vend u ≡ false
      → IsCut u.vm_end hi vstart vend l b v r
      → IsCut lo hi vstart vend (u ∷ l) (u ∷ b) v r
  IsCut-cons lo u l b v r p q e c =
      let past : u.vm_end ≤ vstart = ground (arith, c.starts, c.bound) in
      record {
        joined = ap (λ k. u ∷ k) c.joined;
        front = (
          omega arith,
          q,
          Between-weaken (min u.vm_end vstart) u.vm_end _ _ b (omega arith) (omega arith) c.front,
        );
        fits = c.fits;
        rest = c.rest;
        bound = omega (arith, c.bound);
        starts = c.starts;
        ends = c.ends;
      }

  CutResult-cons :
      (lo : ℕ) (u : Vma) (l : List Vma) (o : Option (List Vma × Vma × List Vma))
      → lo ≤ u.vm_start
      → u.vm_start < u.vm_end
      → overlaps vstart vend u ≡ false
      → CutResult u.vm_end hi vstart vend l o
      → CutResult lo hi vstart vend
          (u ∷ l)
          (elim o [ none ↦ none | some (b, w, r) ↦ some (u ∷ b, w, r) ])
  unfolding attr_at
  CutResult-cons lo u l none p q e c = λ a s t. ground (arith, c a s t)
  CutResult-cons lo u l (some (b, v, r)) p q e c = IsCut-cons lo u l b v r p q e c

  pub cut_lem :
      (lo : ℕ) (l : List Vma) → Between lo hi l → CutResult lo hi vstart vend l (cut vstart vend l)
  unfolding cut attr_at
  cut_lem lo [] h = λ a s t. refl
  cut_lem lo (u ∷ l) h = elim (Bool-cases (overlaps vstart vend u)) [
    | inl e ↦ rw e (IsCut-here lo u l h e)
    | inr e ↦ rw e (CutResult-cons lo u l (cut vstart vend l) h.0 h.1 e (cut_lem u.vm_end l h.2))
  ]

-- The areas from `cur` on are cut at the last one that starts before `vend`.
pub record IsEnd (cur : Vma) (rest : List Vma) (vend hi : ℕ) (c : List Vma × Vma × List Vma)
    : Type 0 where
  pub joined : cur ∷ rest ≡ c.0 ++ c.1 ∷ c.2
  pub middle : Between cur.vm_start c.1.vm_start c.0
  pub fits : c.1.vm_start < c.1.vm_end
  pub starts : c.1.vm_start < vend
  pub behind : Between (max c.1.vm_end vend) hi c.2
