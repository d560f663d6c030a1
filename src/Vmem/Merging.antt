-- ===== src/Vmem/Merging.antt =====
-- The merging of areas keeps their order and changes the mapping of no page.
use Prim.Native.String.{String}
use text.Mathlib.TextEquality.{eq_iff}
use budalloc.Prelude.{
  ℕ, ◌<◌, ◌≡◌, refl, ◌∙◌, ap, inl, inr, true, Option, none, some, List, [], ◌∷◌, ◌++◌, arith,
  Bool-cases,
}
use budalloc.Vmem.Vma.{Vma, name_eq, attr_at, attr}
use budalloc.Vmem.Merge.{can_merge, merge_with_next, merge_with_prev, try_merge}
use budalloc.Vmem.Bounds.{Between, Same, Same-append, Between-append, Between-split}

name_eq→eq : (s t : Option String) → name_eq s t ≡ true → s ≡ t
unfolding name_eq
name_eq→eq none none h = refl
name_eq→eq none (some t) h = cc
name_eq→eq (some s) none h = cc
name_eq→eq (some s) (some t) h = ap some ((eq_iff s t).0 h)

-- Areas that can merge have the same attributes and stand end to start.
can_merge_lem : (v w : Vma) → can_merge v w ≡ true → (v.vm_end ≡ w.vm_start) × (attr v ≡ attr w)
unfolding can_merge
can_merge_lem v w h =
    let n : name_eq v.name w.name ≡ true = ground arith in
    (ground arith, ground (arith, name_eq→eq v.name w.name n))

merge-Same :
    (v w : Vma) (l : List Vma)
    → can_merge v w ≡ true
    → v.vm_start < v.vm_end
    → w.vm_start < w.vm_end
    → Same (v ∷ w ∷ l) (record v { vm_end = w.vm_end } ∷ l)
unfolding attr_at
merge-Same v w l h p q = λ a. ground (arith, can_merge_lem v w h)

-- The list of a pair of a first area and the areas behind it.
abbrev consed : Vma × List Vma → List Vma
consed (v, l) = v ∷ l

merge_with_next-Same :
    (lo hi : ℕ) (v : Vma) (l : List Vma)
    → Between lo hi (v ∷ l)
    → Same (v ∷ l) (consed (merge_with_next v l)) × Between lo hi (consed (merge_with_next v l))
unfolding merge_with_next
merge_with_next-Same lo hi v [] h = ((λ a. refl), h)
merge_with_next-Same lo hi v (w ∷ l) h = elim (Bool-cases (can_merge v w)) [
  | inl e ↦ rw e (merge-Same v w l e h.1 h.2.1, (h.0, ground (arith, can_merge_lem v w e), h.2.2))
  | inr e ↦ rw e ((λ a. refl), h)
]

pub merge_with_prev-Same :
    (lo hi : ℕ) (b : List Vma) (v : Vma) (l : List Vma)
    → Between lo hi (b ++ v ∷ l)
    → Same (b ++ v ∷ l) (merge_with_prev b v ++ l) × Between lo hi (merge_with_prev b v ++ l)
unfolding merge_with_prev
merge_with_prev-Same lo hi [] v l h = ((λ a. refl), h)
merge_with_prev-Same lo hi (p ∷ []) v l h = elim (Bool-cases (can_merge p v)) [
  | inl e ↦ rw e (merge-Same p v l e h.1 h.2.1, (h.0, ground (arith, can_merge_lem p v e), h.2.2))
  | inr e ↦ rw e ((λ a. refl), h)
]
merge_with_prev-Same lo hi (p ∷ q ∷ b) v l h =
    let (s, k) = merge_with_prev-Same p.vm_end hi (q ∷ b) v l h.2 in
    (Same-append (p ∷ []) (q ∷ b ++ v ∷ l) _ s, (h.0, h.1, k))

-- `vmem_vma_try_merge` of an area in a list in order changes the mapping of no page, and keeps the
-- areas in order.
pub try_merge-Same :
    (lo hi : ℕ) (b : List Vma) (v : Vma) (l : List Vma)
    → Between lo hi (b ++ v ∷ l)
    → Same (b ++ v ∷ l) (try_merge b v l) × Between lo hi (try_merge b v l)
unfolding try_merge
try_merge-Same lo hi b v l h =
    let (w, rest) = merge_with_next v l in
    let (m, p, q) = Between-split lo hi b (v ∷ l) h in
    let (s, k) = merge_with_next-Same m hi v l q in
    let (s', k') =
      merge_with_prev-Same lo hi b w rest
        (Between-append lo m m hi b (w ∷ rest) p (omega arith) k) in
    ((λ a. Same-append b (v ∷ l) (w ∷ rest) s a ∙ s' a), k')
