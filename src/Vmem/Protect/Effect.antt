-- ===== src/Vmem/Protect/Effect.antt =====
-- `vma_set_prot` changes the protection of the mapped pages of its range, and nothing else.
use budalloc.Prelude.{
  ℕ, ◌+◌, ◌≡◌, ◌≢◌, refl, ◌∙◌, inl, inr, false, Option, none, some, List, [], ◌∷◌, ◌++◌, ◌&&◌, ◌==◌,
  arith, Bool-cases, if◌then◌else◌, size_max,
}
use budalloc.Vmem.Vma.{
  in_range, Vma, enomem, einval, Call, set_prot, Run, done, failed, panic, page_aligned, attr_at,
  Attr,
}
use budalloc.Vmem.Merge.{merge_with_prev, try_merge}
use budalloc.Vmem.Protect.{set_all, merge_pass}
use budalloc.Vmem.Bounds.{Between, Same}
use budalloc.Vmem.Merging.{try_merge-Same, merge_with_prev-Same}

-- A page with another protection.
abbrev pub with_prot : ℕ → Option Attr → Option Attr
with_prot p none = none
with_prot p (some (q, flags, name)) = some (p, flags, name)

-- What `vma_set_prot` may answer. On success the areas are in order, the mapped pages of the range
-- have the protection, with their other attributes as before, and every other page is as before.
-- The errors are those of `vma_unmap`, and a panic means that the page table program failed.
abbrev pub SetProtResult : (Call → ℕ) → List Vma → ℕ → ℕ → ℕ → Run → Type 0
SetProtResult run vmas vaddr len p (done l calls) =
    Between 0 size_max l
    × ((a : ℕ)
        → attr_at a l
          ≡ (if in_range vaddr len a then with_prot p (attr_at a vmas) else attr_at a vmas))
SetProtResult run vmas vaddr len p (failed einval l) =
    (l ≡ vmas) × ((page_aligned vaddr && page_aligned (vaddr + len)) ≡ false)
SetProtResult run vmas vaddr len p (failed e l) = (e ≡ enomem) × Same vmas l × Between 0 size_max l
SetProtResult run vmas vaddr len p panic = (c : Call) × (run c ≢ 0)

-- The second pass merges only: same pages, same order.
pub merge_pass-Same :
    (b m a : List Vma)
    → Between 0 size_max (b ++ (m ++ a))
    → Same (b ++ (m ++ a)) (merge_pass b m a) × Between 0 size_max (merge_pass b m a)
unfolding merge_pass try_merge
merge_pass-Same b [] a h = ((λ x. refl), h)
merge_pass-Same b (v ∷ []) a h = try_merge-Same 0 size_max b v a h
merge_pass-Same b (v ∷ u ∷ l) a h =
    let (s, k) = merge_with_prev-Same 0 size_max b v (u ∷ l ++ a) h in
    let (s', k') = merge_pass-Same (merge_with_prev b v) (u ∷ l) a k in ((λ x. s x ∙ s' x), k')

module _ (run : Call → ℕ) (p : ℕ) where
  -- The areas of a list with the protection set, and within the same bounds.
  abbrev pub SetAll : List Vma → Option (List Vma × List Call) → Type 0
  SetAll l none = (c : Call) × (run c ≢ 0)
  SetAll l (some (l', calls)) =
      ((a : ℕ) → attr_at a l' ≡ with_prot p (attr_at a l))
      × ((lo hi : ℕ) → Between lo hi l → Between lo hi l')

  SetAll-keep :
      (v : Vma) (l : List Vma) (o : Option (List Vma × List Call))
      → v.vm_page_prot ≡ p
      → SetAll l o
      → SetAll (v ∷ l) (elim o [ none ↦ none | some (l', calls) ↦ some (v ∷ l', calls) ])
  unfolding attr_at
  SetAll-keep v l none e h = h
  SetAll-keep v l (some (l', calls)) e (at, order) =
      ((λ a. ground (arith, at a)), λ lo hi b. (b.0, b.1, order v.vm_end hi b.2))

  SetAll-change :
      (v : Vma) (l : List Vma) (o : Option (List Vma × List Call)) (call : Call)
      → SetAll l o
      → SetAll (v ∷ l) (elim o [
        | none ↦ none
        | some (l', calls) ↦ some (record v { vm_page_prot = p } ∷ l', call ∷ calls)
      ])
  unfolding attr_at
  SetAll-change v l none call h = h
  SetAll-change v l (some (l', calls)) call (at, order) =
      ((λ a. ground (arith, at a)), λ lo hi b. (b.0, b.1, order v.vm_end hi b.2))

  pub set_all_lem : (l : List Vma) → SetAll l (set_all run p l)
  unfolding set_all attr_at
  set_all_lem [] = ((λ a. refl), λ lo hi b. b)
  set_all_lem (v ∷ l) = elim (Bool-cases (v.vm_page_prot == p)) [
    | inl e ↦ rw e (SetAll-keep v l (set_all run p l) (ground arith) (set_all_lem l))
    | inr e ↦ rw e (elim (Bool-cases (run (set_prot v.vm_start v.vm_end p) == 0)) [
      | inl f ↦ rw f (SetAll-change v l (set_all run p l) _ (set_all_lem l))
      | inr f ↦ rw f (set_prot v.vm_start v.vm_end p, ground arith)
    ])
  ]
