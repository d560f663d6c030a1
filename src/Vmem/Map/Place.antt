-- ===== src/Vmem/Map/Place.antt =====
-- `vmem_insert_vma` and the rest of `vma_map`: a new area in a free range.
use Prim.Native.Nat.{max, bit_or}
use Prim.Native.String.{String}
use budalloc.Prelude.{
  ℕ, ◌+◌, ◌≤◌, ◌<◌, ◌≡◌, refl, sym, ◌∙◌, ap, inl, inr, Bool, Option, some, List, [], ◌∷◌, ◌++◌, ltb,
  arith, Bool-cases, if◌then◌else◌, size_max,
}
use budalloc.Vmem.Vma.{in_range, Vma, attr, attr_at}
use budalloc.Vmem.Map.{insert_at, put, new_area, place, mapped}
use budalloc.Vmem.Merge.{try_merge}
use budalloc.Vmem.Map.Fit.{Free}
use budalloc.Vmem.Bounds.{
  Between, Between-weaken, Between-append, attr_at-append, attr_at-below, attr_at-above,
}
use budalloc.Vmem.Merging.{try_merge-Same}

-- The list is cut where the range fits in.
record IsGap (lo va len : ℕ) (l b a : List Vma) : Type 0 where
  joined : l ≡ b ++ a
  front : Between lo va b
  behind : Between (va + len) size_max a

abbrev Gap : ℕ → ℕ → ℕ → List Vma → List Vma × List Vma → Type 0
Gap lo va len l (b, a) = IsGap lo va len l b a

-- The first area that ends behind a free range starts behind it.
starts-behind :
    (va len : ℕ) (cur : Vma) (l : List Vma)
    → 0 < len
    → cur.vm_start < cur.vm_end
    → va < cur.vm_end
    → Free (cur ∷ l) va len
    → va + len ≤ cur.vm_start
unfolding attr_at
starts-behind va len cur l pos p q free = ground (arith, free (max va cur.vm_start))

insert_at_lem :
    (v : Vma) (len lo : ℕ) (l : List Vma)
    → 0 < len
    → lo ≤ v.vm_start
    → v.vm_start + len ≤ size_max
    → Between lo size_max l
    → Free l v.vm_start len
    → Gap lo v.vm_start len l (insert_at v l)
unfolding insert_at attr_at
insert_at_lem v len lo [] pos le fit h free = record {
  joined = refl;
  front = le;
  behind = omega arith;
}
insert_at_lem v len lo (cur ∷ l) pos le fit h free = elim (Bool-cases (ltb v.vm_start cur.vm_end)) [
  | inl e ↦ rw e (record {
    joined = refl;
    front = le;
    behind = (starts-behind v.vm_start len cur l pos h.1 (ground arith) free, h.1, h.2);
  })
  | inr e ↦ rw e (
      let g =
        insert_at_lem v len cur.vm_end l pos (ground arith) fit h.2
          (λ a p q. ground (arith, free a p q)) in
      record {
        joined = ap (λ k. cur ∷ k) g.joined;
        front = (h.0, h.1, g.front);
        behind = g.behind;
      })
]

-- A list with an area put into a gap.
gap_at :
    (va len : ℕ) (l b a : List Vma) (v : Vma)
    → IsGap 0 va len l b a
    → v.vm_start ≡ va
    → v.vm_end ≡ va + len
    → (x : ℕ) → attr_at x (b ++ v ∷ a) ≡ (if in_range va len x then some (attr v) else attr_at x l)
unfolding attr_at
gap_at va len l b a v g s e x =
    attr_at-append x b (v ∷ a)
    ∙ ground (
      arith,
      ap (attr_at x) g.joined ∙ attr_at-append x b a,
      attr_at-above x 0 va b g.front,
      attr_at-below x (va + len) size_max a g.behind,
    )

put_lem :
    (vmas : List Vma) (v : Vma) (len : ℕ)
    → Between 0 size_max vmas
    → 0 < len
    → v.vm_start + len ≤ size_max
    → v.vm_end ≡ v.vm_start + len
    → Free vmas v.vm_start len
    → Between 0 size_max (put v vmas)
      × ((x : ℕ)
          → attr_at x (put v vmas)
            ≡ (if in_range v.vm_start len x then some (attr v) else attr_at x vmas))
unfolding put
put_lem vmas v len order pos fit e free =
    go (insert_at v vmas) (insert_at_lem v len 0 vmas pos (omega arith) fit order free)
  where
    go :
        (c : List Vma × List Vma)
        → Gap 0 v.vm_start len vmas c
        → Between 0 size_max (try_merge c.0 v c.1)
          × ((x : ℕ)
              → attr_at x (try_merge c.0 v c.1)
                ≡ (if in_range v.vm_start len x then some (attr v) else attr_at x vmas))
    go (b, a) g =
        let order' : Between v.vm_start size_max (v ∷ a) = (
          omega arith,
          omega arith,
          Between-weaken _ _ _ _ a (omega arith) (omega arith) g.behind,
        ) in
        let (same, kept) = try_merge-Same 0 size_max b v a (
          Between-append 0 v.vm_start v.vm_start size_max b (v ∷ a) g.front (omega arith) order') in
        (kept, λ x. sym (same x) ∙ gap_at v.vm_start len vmas b a v g refl e x)

pub place-mapped :
    (vmas : List Vma) (va len prot flags : ℕ) (name : Option String) (aux : ℕ) (k : Bool) (va' : ℕ)
    (l : List Vma)
    → place vmas va len prot flags name aux k ≡ mapped va' l
    → (va' ≡ va) × (l ≡ put (new_area va len prot flags name aux) vmas)
unfolding place
place-mapped vmas va len prot flags name aux k va' l e = ground arith

-- A free range is mapped as asked, every other page as before, and the areas stay in order.
pub place_lem :
    (vmas : List Vma) (va len prot flags : ℕ) (name : Option String) (aux : ℕ) (k : Bool) (va' : ℕ)
    (l : List Vma)
    → Between 0 size_max vmas
    → 0 < len
    → va + len ≤ size_max
    → Free vmas va len
    → place vmas va len prot flags name aux k ≡ mapped va' l
    → (va' ≡ va)
      × Between 0 size_max l
      × ((x : ℕ)
          → attr_at x l
            ≡ (if in_range va len x then some (prot, bit_or flags 0x10, name) else attr_at x vmas))
unfolding new_area
place_lem vmas va len prot flags name aux k va' l order pos fit free e =
    let (same, is) = place-mapped vmas va len prot flags name aux k va' l e in
    let (kept, at) =
      put_lem vmas (new_area va len prot flags name aux) len order pos fit (omega arith) free in
    (same, rw is kept, rw is at)
