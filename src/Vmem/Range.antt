-- ===== src/Vmem/Range.antt =====
-- What `vmem_vma_find_range` finds in a list in order.
use Prim.Native.Nat.{min, max}
use budalloc.Prelude.{
  ℕ, ◌+◌, ◌≤◌, ◌<◌, ◌≡◌, refl, ◌∙◌, ap, inl, inr, false, not, Option, none, some, List, [], ◌∷◌,
  ◌++◌, ◌&&◌, ltb, arith, Bool-cases, add64, size_max,
}
use budalloc.Vmem.Vma.{Vma, enoent, einval, page_aligned, attr_at}
use budalloc.Vmem.Find.{
  Span, to_list, Found, range, none_such, find_vma, adjust_end, span, range_from, find_range,
}
use budalloc.Vmem.Split.{first}
use budalloc.Vmem.Bounds.{Between, Between-le, Between-weaken}
use budalloc.Vmem.Cut.{IsCut, CutResult, cut_lem}
use budalloc.Vmem.End.{IsEnd, find_end_lem}

first_of_joined :
    (v : Vma) (rest m : List Vma) (last : Vma) (after : List Vma)
    → v ∷ rest ≡ m ++ last ∷ after
    → first m last ≡ v
unfolding first
first_of_joined v rest [] last after e = cc
first_of_joined v rest (x ∷ m) last after e = cc

first-end-le :
    (m : List Vma) (last : Vma) (lo : ℕ)
    → Between lo last.vm_start m
    → last.vm_start < last.vm_end
    → (first m last).vm_end ≤ last.vm_end
unfolding first
first-end-le [] last lo h p = omega arith
first-end-le (x ∷ m) last lo h p = omega (arith, Between-le x.vm_end last.vm_start m h.2)

-- The cut of a list in order at a range: the span is the range, clamped to the areas that it meets.
pub record IsRange (vmas : List Vma) (vaddr len : ℕ) (s : Span) : Type 0 where
  pub joined : vmas ≡ to_list s
  pub vaddr_eq : s.vaddr ≡ max vaddr (first s.mid s.last).vm_start
  pub end_eq : s.vaddr + s.len ≡ min (vaddr + len) s.last.vm_end
  pub some_len : 0 < s.len
  pub front : Between 0 (min vaddr (first s.mid s.last).vm_start) s.before
  pub first_fits : (first s.mid s.last).vm_start < (first s.mid s.last).vm_end
  pub first_ends : s.vaddr < (first s.mid s.last).vm_end
  pub middle : Between (first s.mid s.last).vm_start s.last.vm_start s.mid
  pub fits : s.last.vm_start < s.last.vm_end
  pub starts : s.last.vm_start < vaddr + len
  pub behind : Between (max s.last.vm_end (vaddr + len)) size_max s.after

-- What a lookup of a range may answer: the range, ENOENT where it maps nothing, EINVAL where an end
-- is not aligned.
abbrev pub FoundResult : List Vma → ℕ → ℕ → Found → Type 0
FoundResult vmas vaddr len (range s) = IsRange vmas vaddr len s
FoundResult vmas vaddr len (none_such enoent) =
    (a : ℕ) → vaddr ≤ a → a < vaddr + len → attr_at a vmas ≡ none
FoundResult vmas vaddr len (none_such e) =
    (e ≡ einval) × ((page_aligned vaddr && page_aligned (vaddr + len)) ≡ false)

module _ (vmas : List Vma) (vaddr len : ℕ) (pos : 0 < len) (fit : vaddr + len ≤ size_max)
    (before : List Vma) (v : Vma) (rest : List Vma)
    (c : IsCut 0 size_max vaddr (vaddr + len) vmas before v rest) where
  IsRange_lem :
      (m : List Vma) (last : Vma) (after : List Vma) (vstart vend : ℕ)
      → IsEnd (vaddr + len) size_max v rest m last after
      → vstart ≡ max vaddr v.vm_start
      → vend ≡ min (vaddr + len) last.vm_end
      → FoundResult vmas vaddr len (span vstart vend before (m, last, after))
  IsRange_lem m last after vstart vend e p q =
      let same = first_of_joined v rest m last after e.joined in
      let lt : v.vm_end ≤ last.vm_end =
        rw same at (first-end-le m last v.vm_start e.middle e.fits) in
      record {
        joined = c.joined ∙ ap (λ k. before ++ k) e.joined;
        vaddr_eq = rw same p;
        end_eq = omega (arith, c.starts, c.ends, c.fits, e.fits, e.starts);
        some_len = omega (arith, c.starts, c.ends, c.fits, e.fits, e.starts);
        front = rw same (Between-weaken _ 0 _ _ before (omega arith) (omega arith) c.front);
        first_fits = rw same c.fits;
        first_ends = rw same (omega (arith, c.ends, c.fits));
        middle = rw same e.middle;
        fits = e.fits;
        starts = e.starts;
        behind = e.behind;
      }

  adjust_end_lem :
      (m : List Vma) (last : Vma) (after : List Vma) (vstart : ℕ)
      → IsEnd (vaddr + len) size_max v rest m last after
      → vstart ≡ max vaddr v.vm_start
      → FoundResult vmas vaddr len (adjust_end vstart (vaddr + len) before (m, last, after))
  unfolding adjust_end
  adjust_end_lem m last after vstart e p = elim (Bool-cases (ltb last.vm_end (vaddr + len))) [
    | inl f ↦ rw f (IsRange_lem m last after vstart _ e p (ground arith))
    | inr f ↦
        rw f
          (elim (Bool-cases (ltb (vaddr + len) last.vm_end && not (page_aligned (vaddr + len)))) [
            | inl g ↦ rw g (refl, ground arith)
            | inr g ↦ rw g (IsRange_lem m last after vstart _ e p (ground arith))
          ])
  ]

  range_from-some :
      FoundResult vmas vaddr len (range_from vaddr (vaddr + len) (some (before, v, rest)))
  unfolding range_from
  range_from-some =
      let e = find_end_lem (vaddr + len) size_max fit v rest c.fits c.starts c.rest in
      elim (Bool-cases (ltb vaddr v.vm_start)) [
        | inl f ↦ rw f (adjust_end_lem _ _ _ v.vm_start e (ground arith))
        | inr f ↦ rw f (elim (Bool-cases (ltb v.vm_start vaddr && not (page_aligned vaddr))) [
          | inl g ↦ rw g (refl, ground arith)
          | inr g ↦ rw g (adjust_end_lem _ _ _ vaddr e (ground arith))
        ])
      ]

range_from_lem :
    (vmas : List Vma) (vaddr len : ℕ)
    → 0 < len
    → vaddr + len ≤ size_max
    → (o : Option (List Vma × Vma × List Vma)) → CutResult 0 size_max vaddr (vaddr + len) vmas o
    → FoundResult vmas vaddr len (range_from vaddr (vaddr + len) o)
unfolding range_from
range_from_lem vmas vaddr len pos fit none c = c
range_from_lem vmas vaddr len pos fit (some (before, v, rest)) c =
    range_from-some vmas vaddr len pos fit before v rest c

-- `vmem_vma_find_range` of a range that is not empty and does not wrap, in an address space in
-- order, answers with the clamped range and the areas it begins and ends in, with ENOENT only
-- where nothing of the range is mapped, and with EINVAL only for a range that is not aligned.
pub find_range_lem :
    (vmas : List Vma) (vaddr len : ℕ)
    → Between 0 size_max vmas
    → 0 < len
    → vaddr + len ≤ size_max
    → FoundResult vmas vaddr len (find_range vmas vaddr len)
unfolding find_range find_vma
find_range_lem vmas vaddr len h pos fit =
    let e₀ : add64 vaddr (max len 1) ≡ vaddr + len = omega arith in
    let e₁ : add64 vaddr len ≡ vaddr + len = omega arith in
    rw (e₀, e₁)
      (range_from_lem vmas vaddr len pos fit _ (cut_lem vaddr (vaddr + len) size_max 0 vmas h))
