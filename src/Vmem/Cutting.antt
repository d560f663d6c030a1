-- ===== src/Vmem/Cutting.antt =====
-- `vmem_split_vma` changes the mapping of no page, and leaves areas that end where the range does.
use Prim.Native.Nat.{min, max}
use mathlib.Core.List.{append_assoc}
use budalloc.Prelude.{
  ℕ, ◌+◌, ◌≤◌, ◌<◌, ◌≡◌, sym, ◌∙◌, ap, ◌⊎◌, inl, inr, true, false, Option, none, some, List, [],
  ◌∷◌, ◌++◌, arith, size_max,
}
use budalloc.Vmem.Vma.{Vma, attr_at}
use budalloc.Vmem.Find.{Span, mk, to_list}
use budalloc.Vmem.Split.{low, high, need_split, first, split_first}
use budalloc.Vmem.Bounds.{Between, Between-append, Same, Same-append}
use budalloc.Vmem.Range.{IsRange}

-- An area that `need_split` leaves whole although the range ends inside it: its protection is the
-- one asked for.
abbrev pub Keeps : Option ℕ → Vma → Type 0
Keeps none v = ⊥
Keeps (some p) v = v.vm_page_prot ≡ p

pub need_split-no :
    (v : Vma) (n : ℕ) (prot : Option ℕ) → need_split v n prot ≡ false → (n ≡ 0) ⊎ Keeps prot v
unfolding need_split
need_split-no v n none h = ground arith
need_split-no v n (some p) h = ground arith

pub need_split-pos : (v : Vma) (n : ℕ) (prot : Option ℕ) → need_split v n prot ≡ true → 0 < n
unfolding need_split
need_split-pos v n none h = ground arith
need_split-pos v n (some p) h = ground arith

-- One area or its two parts: the same pages.
pub split-Same :
    (v : Vma) (a : ℕ) (l : List Vma)
    → v.vm_start ≤ a
    → a ≤ v.vm_end
    → Same (v ∷ l) (low v a ∷ high v a ∷ l)
unfolding attr_at
split-Same v a l p q = λ b. ground arith

min_self : (va vaddr : ℕ) → va ≡ vaddr → min vaddr va ≡ va
min_self va vaddr e = omega arith

-- What both halves of the split need of the span, and what the second one keeps of it.
pub record Half (vmas : List Vma) (vaddr len : ℕ) (prot : Option ℕ) (s : Span) : Type 0 where
  pub same : Same vmas (to_list s)
  pub above : vaddr ≤ s.vaddr
  pub left : (vaddr ≤ (first s.mid s.last).vm_start) ⊎ Keeps prot (first s.mid s.last)
  pub front : Between 0 (min vaddr (first s.mid s.last).vm_start) s.before
  pub middle : Between (first s.mid s.last).vm_start s.last.vm_start s.mid
  pub fits : s.last.vm_start < s.last.vm_end
  pub end_eq : s.vaddr + s.len ≡ min (vaddr + len) s.last.vm_end
  pub some_len : 0 < s.len
  pub first_ends : vaddr < (first s.mid s.last).vm_end
  pub starts : s.last.vm_start < vaddr + len
  pub behind : Between (max s.last.vm_end (vaddr + len)) size_max s.after

module _ (vmas : List Vma) (vaddr len : ℕ) (prot : Option ℕ) (s : Span) where
  -- The start area is left whole.
  pub Half-whole :
      IsRange vmas vaddr len s
      → (s.vaddr ≡ (first s.mid s.last).vm_start) ⊎ Keeps prot (first s.mid s.last)
      → Half vmas vaddr len prot s
  Half-whole r whole = record {
    same = λ a. ap (attr_at a) r.joined;
    above = omega (arith, r.vaddr_eq);
    left = elim whole [ inl e ↦ inl (omega (arith, r.vaddr_eq)) | inr k ↦ inr k ];
    front = r.front;
    middle = r.middle;
    fits = r.fits;
    end_eq = r.end_eq;
    some_len = r.some_len;
    first_ends = omega (arith, r.vaddr_eq, r.first_ends);
    starts = r.starts;
    behind = r.behind;
  }

-- A cut at `a` within an area that stands behind `b`.
split_between :
    (b : List Vma) (v : Vma) (a : ℕ) (l : List Vma)
    → v.vm_start ≤ a
    → a ≤ v.vm_end
    → Same (b ++ v ∷ l) ((b ++ low v a ∷ []) ++ high v a ∷ l)
split_between b v a l p q = λ c.
    Same-append b _ _ (split-Same v a l p q) c
    ∙ sym (ap (attr_at c) (append_assoc b (low v a ∷ []) (high v a ∷ l)))

Between-low :
    (b : List Vma) (v : Vma) (a x : ℕ)
    → Between 0 (min x v.vm_start) b
    → v.vm_start < a
    → Between 0 a (b ++ low v a ∷ [])
Between-low b v a x h lt =
    Between-append 0 (min x v.vm_start) v.vm_start a b (low v a ∷ []) h (omega arith)
      (omega arith, lt, omega arith)

-- The start area is split: by the two shapes of the span.
pub Half-split :
    (vmas : List Vma) (vaddr len : ℕ) (prot : Option ℕ) (va ln : ℕ) (b m : List Vma) (last : Vma)
    (after : List Vma)
    → IsRange vmas vaddr len (mk va ln b m last after)
    → (first m last).vm_start < va
    → Half vmas vaddr len prot (split_first (mk va ln b m last after) m)
unfolding first split_first
Half-split vmas vaddr len prot va ln b [] last after r lt = record {
  same = λ a.
      ap (attr_at a) r.joined
      ∙ split_between b last va after (omega arith) (omega (arith, r.first_ends)) a;
  above = omega (arith, r.vaddr_eq);
  left = inl (omega (arith, r.vaddr_eq));
  front =
      rw (min_self va vaddr (omega (arith, r.vaddr_eq, lt)))
        (Between-low b last va vaddr r.front lt);
  middle = omega arith;
  fits = r.first_ends;
  end_eq = r.end_eq;
  some_len = r.some_len;
  first_ends = omega (arith, r.vaddr_eq, r.first_ends);
  starts = omega (arith, r.end_eq, r.some_len);
  behind = r.behind;
}
Half-split vmas vaddr len prot va ln b (v ∷ m) last after r lt = record {
  same = λ a.
      ap (attr_at a) r.joined
      ∙ split_between b v va (m ++ last ∷ after) (omega arith) (omega (arith, r.first_ends)) a;
  above = omega (arith, r.vaddr_eq);
  left = inl (omega (arith, r.vaddr_eq));
  front =
      rw (min_self va vaddr (omega (arith, r.vaddr_eq, lt))) (Between-low b v va vaddr r.front lt);
  middle = (omega arith, r.first_ends, r.middle.2);
  fits = r.fits;
  end_eq = r.end_eq;
  some_len = r.some_len;
  first_ends = omega (arith, r.vaddr_eq, r.first_ends);
  starts = r.starts;
  behind = r.behind;
}
