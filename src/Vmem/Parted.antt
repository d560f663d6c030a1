-- ===== src/Vmem/Parted.antt =====
-- `vmem_split_vma` as a whole: the span that it hands on, and its errors.
use Prim.Native.Nat.{min, max}
use budalloc.Prelude.{
  ℕ, ◌+◌, ◌-◌, ◌≤◌, ◌<◌, ◌≡◌, refl, ◌∙◌, ◌⊎◌, inl, inr, Bool, true, false, Option, none, some, List,
  [], ◌∷◌, ◌++◌, ◌&&◌, ltb, arith, Bool-cases, if◌then◌else◌, add64, sub64, size_max,
}
use budalloc.Vmem.Vma.{
  Vma, eperm, enoent, enomem, eexist, einval, eoverflow, enotsup, page_aligned, attr_at,
}
use budalloc.Vmem.Find.{Span, mk, to_list, Found, range, none_such, find_range}
use budalloc.Vmem.Split.{
  Parts, parts, refused, low, need_split, first, split_first, split_last, merge_first, split_end,
  split_range, split_vma,
}
use budalloc.Vmem.Bounds.{Between, Between-le, Between-weaken, Between-append, Same, Same-append}
use budalloc.Vmem.Range.{IsRange, FoundResult, find_range_lem}
use budalloc.Vmem.Cutting.{
  Keeps, need_split-no, need_split-pos, Half, Half-whole, Half-split, split-Same,
}
use budalloc.Vmem.Merging.{try_merge-Same}

-- The areas of the span are those of the range: the first and the last one end where the range
-- does, or reach out of it with the protection that is asked for.
pub record IsSplit (vmas : List Vma) (vaddr len : ℕ) (prot : Option ℕ) (s : Span) : Type 0 where
  pub same : Same vmas (to_list s)
  pub left : (vaddr ≤ (first s.mid s.last).vm_start) ⊎ Keeps prot (first s.mid s.last)
  pub right : (s.last.vm_end ≤ vaddr + len) ⊎ Keeps prot s.last
  pub front : Between 0 (min vaddr (first s.mid s.last).vm_start) s.before
  pub middle : Between (first s.mid s.last).vm_start s.last.vm_start s.mid
  pub fits : s.last.vm_start < s.last.vm_end
  pub first_ends : vaddr < (first s.mid s.last).vm_end
  pub starts : s.last.vm_start < vaddr + len
  pub behind : Between (max s.last.vm_end (vaddr + len)) size_max s.after

-- What `vmem_split_vma` may answer. After ENOMEM the areas may be cut otherwise than before, and map
-- every page as before.
abbrev pub SplitResult : List Vma → ℕ → ℕ → Option ℕ → Parts → Type 0
SplitResult vmas vaddr len prot (parts s) = IsSplit vmas vaddr len prot s
SplitResult vmas vaddr len prot (refused enoent l) =
    (l ≡ vmas) × ((a : ℕ) → vaddr ≤ a → a < vaddr + len → attr_at a vmas ≡ none)
SplitResult vmas vaddr len prot (refused einval l) =
    (l ≡ vmas) × ((page_aligned vaddr && page_aligned (vaddr + len)) ≡ false)
SplitResult vmas vaddr len prot (refused e l) = (e ≡ enomem) × Same vmas l × Between 0 size_max l

module _ (vmas : List Vma) (vaddr len : ℕ) (prot : Option ℕ) (s : Span) where
  -- The areas of a span are in order.
  Between-Half : Half vmas vaddr len prot s → Between 0 size_max (to_list s)
  Between-Half h =
      let tail : Between s.last.vm_start size_max (s.last ∷ s.after) = (
        omega arith,
        h.fits,
        Between-weaken _ _ _ _ s.after (omega arith) (omega arith) h.behind,
      ) in
      Between-append 0 _ (first s.mid s.last).vm_start size_max s.before (s.mid ++ s.last ∷ s.after)
        h.front (omega arith)
        (Between-append _ _ _ size_max s.mid (s.last ∷ s.after) h.middle (omega arith) tail)

  IsSplit-whole :
      Half vmas vaddr len prot s
      → (s.last.vm_end ≤ vaddr + len) ⊎ Keeps prot s.last
      → IsSplit vmas vaddr len prot s
  IsSplit-whole h whole = record {
    same = h.same;
    left = h.left;
    right = whole;
    front = h.front;
    middle = h.middle;
    fits = h.fits;
    first_ends = h.first_ends;
    starts = h.starts;
    behind = h.behind;
  }

Keeps-low :
    (prot : Option ℕ) (x : ℕ) (v : Vma) (a : ℕ)
    → (x ≤ v.vm_start) ⊎ Keeps prot v
    → (x ≤ v.vm_start) ⊎ Keeps prot (low v a)
Keeps-low prot x v a (inl p) = inl p
Keeps-low none x v a (inr k) = absurd k
Keeps-low (some p) x v a (inr k) = inr k

-- The end area is split, where the range ends within it.
last_cut-IsSplit :
    (vmas : List Vma) (vaddr len : ℕ) (prot : Option ℕ) (va ln : ℕ) (b m : List Vma) (last : Vma)
    (after : List Vma)
    → Half vmas vaddr len prot (mk va ln b m last after)
    → va + ln < last.vm_end
    → IsSplit vmas vaddr len prot (split_last (mk va ln b m last after) (va + ln))
unfolding split_last first
last_cut-IsSplit vmas vaddr len prot va ln b [] last after h lt =
    let e : va + ln ≡ vaddr + len = omega (arith, h.end_eq) in
    record {
      same = λ a.
          h.same a
          ∙ Same-append b _ _ (split-Same last (va + ln) after (omega arith) (omega arith)) a;
      left = Keeps-low prot vaddr last (va + ln) h.left;
      right = inl (omega arith);
      front = h.front;
      middle = h.middle;
      fits = omega (arith, h.starts);
      first_ends = omega (arith, h.first_ends, h.some_len, h.above);
      starts = h.starts;
      behind = (omega arith, lt, Between-weaken _ _ _ _ after (omega arith) (omega arith) h.behind);
    }
last_cut-IsSplit vmas vaddr len prot va ln b (v ∷ m) last after h lt =
    let e : va + ln ≡ vaddr + len = omega (arith, h.end_eq) in
    record {
      same = λ a.
          h.same a
          ∙ Same-append b _ _
              (Same-append (v ∷ m) _ _
                (split-Same last (va + ln) after (omega arith) (omega arith)))
              a;
      left = h.left;
      right = inl (omega arith);
      front = h.front;
      middle = h.middle;
      fits = omega (arith, h.starts);
      first_ends = h.first_ends;
      starts = h.starts;
      behind = (omega arith, lt, Between-weaken _ _ _ _ after (omega arith) (omega arith) h.behind);
    }

-- The way out of a failed second split.
merge_first-Same :
    (vmas : List Vma) (va ln : ℕ) (b m : List Vma) (last : Vma) (after : List Vma)
    → Between 0 size_max (b ++ (m ++ last ∷ after))
    → Same vmas (b ++ (m ++ last ∷ after))
    → Same vmas (merge_first (mk va ln b m last after) m)
      × Between 0 size_max (merge_first (mk va ln b m last after) m)
unfolding merge_first
merge_first-Same vmas va ln b [] last after h s =
    let (t, k) = try_merge-Same 0 size_max b last after h in ((λ a. s a ∙ t a), k)
merge_first-Same vmas va ln b (v ∷ m) last after h s =
    let (t, k) = try_merge-Same 0 size_max b v (m ++ last ∷ after) h in ((λ a. s a ∙ t a), k)

module _ (vmas : List Vma) (vaddr len : ℕ) (prot : Option ℕ) (fit : vaddr + len ≤ size_max) where
  split_end-eq :
      (s : Span) (k : Bool)
      → s.vaddr + s.len ≤ s.last.vm_end
      → s.last.vm_end ≤ size_max
      → 0 < s.len
      → split_end s prot k ≡ (
          if need_split s.last (s.last.vm_end - (s.vaddr + s.len)) prot
          then if k
            then parts (split_last s (s.vaddr + s.len))
            else refused enomem (merge_first s s.mid)
          else parts s)
  unfolding split_end
  split_end-eq s k le top pos =
      let e : add64 s.vaddr s.len ≡ s.vaddr + s.len = omega arith in
      let d : sub64 s.last.vm_end (s.vaddr + s.len) ≡ s.last.vm_end - (s.vaddr + s.len) =
        omega arith in
      let t : ltb 0 s.len ≡ true = ground arith in rw (e, d, t)

  split_end_lem :
      (s : Span) (k : Bool)
      → Half vmas vaddr len prot s
      → SplitResult vmas vaddr len prot (split_end s prot k)
  split_end_lem s k h =
      let top : s.last.vm_end ≤ size_max = omega (arith, Between-le _ _ s.after h.behind) in
      rw (split_end-eq s k (omega (arith, h.end_eq)) top h.some_len)
        (elim (Bool-cases (need_split s.last (s.last.vm_end - (s.vaddr + s.len)) prot)) [
          | inl e ↦ rw e (answer k (need_split-pos s.last _ prot e))
          | inr e ↦
              rw e (IsSplit-whole vmas vaddr len prot s h (whole (need_split-no s.last _ prot e)))
        ])
    where
      whole :
          (s.last.vm_end - (s.vaddr + s.len) ≡ 0) ⊎ Keeps prot s.last
          → (s.last.vm_end ≤ vaddr + len) ⊎ Keeps prot s.last
      whole (inl z) = inl (omega (arith, h.end_eq))
      whole (inr p) = inr p

      answer :
          (k : Bool)
          → 0 < s.last.vm_end - (s.vaddr + s.len)
          → SplitResult vmas vaddr len prot (
              if k
              then parts (split_last s (s.vaddr + s.len))
              else refused enomem (merge_first s s.mid))
      answer true lt =
          last_cut-IsSplit vmas vaddr len prot s.vaddr s.len s.before s.mid s.last s.after h
            (omega arith)
      answer false lt =
          let (same, order) =
            merge_first-Same vmas s.vaddr s.len s.before s.mid s.last s.after
              (Between-Half vmas vaddr len prot s h) h.same in
          (refl, same, order)

  split_range_lem :
      (s : Span) (k₀ k₁ : Bool)
      → Between 0 size_max vmas
      → IsRange vmas vaddr len s
      → SplitResult vmas vaddr len prot (split_range vmas s prot k₀ k₁)
  unfolding split_range
  split_range_lem s k₀ k₁ order r =
      let v = first s.mid s.last in
      let d : sub64 s.vaddr v.vm_start ≡ s.vaddr - v.vm_start =
        omega (arith, r.vaddr_eq, r.end_eq) in
      rw d (elim (Bool-cases (need_split v (s.vaddr - v.vm_start) prot)) [
        | inl e ↦ rw e (answer k₀ (need_split-pos v _ prot e))
        | inr e ↦ rw e (
            split_end_lem s k₁
              (Half-whole vmas vaddr len prot s r (whole (need_split-no v _ prot e))))
      ])
    where
      whole :
          (s.vaddr - (first s.mid s.last).vm_start ≡ 0) ⊎ Keeps prot (first s.mid s.last)
          → (s.vaddr ≡ (first s.mid s.last).vm_start) ⊎ Keeps prot (first s.mid s.last)
      whole (inl z) = inl (omega (arith, r.vaddr_eq))
      whole (inr p) = inr p

      answer :
          (k : Bool)
          → 0 < s.vaddr - (first s.mid s.last).vm_start
          → SplitResult vmas vaddr len prot
              (if k then split_end (split_first s s.mid) prot k₁ else refused enomem vmas)
      answer true lt = split_end_lem (split_first s s.mid) k₁ (
          Half-split vmas vaddr len prot s.vaddr s.len s.before s.mid s.last s.after r
            (omega arith))
      answer false lt = (refl, (λ a. refl), order)

  -- `vmem_split_vma` of a range that is not empty and does not wrap, in an address space in order. On
  -- success every page is mapped as before, the areas are in order, and those from the first to the
  -- last of the span all meet the range, which the first and the last do not reach out of, or only with
  -- the protection asked for. ENOENT means that no page of the range is mapped, EINVAL that the range is
  -- not aligned, both with the areas as they were; and after ENOMEM, the only other error, the areas
  -- are in order and map every page as before.
  pub split_vma_lem :
      (k₀ k₁ : Bool)
      → Between 0 size_max vmas
      → 0 < len
      → SplitResult vmas vaddr len prot (split_vma vmas vaddr len prot k₀ k₁)
  unfolding split_vma
  split_vma_lem k₀ k₁ order pos =
      go (find_range vmas vaddr len) (find_range_lem vmas vaddr len order pos fit)
    where
      go :
          (f : Found)
          → FoundResult vmas vaddr len f
          → SplitResult vmas vaddr len prot
              (elim f [ none_such e ↦ refused e vmas | range s ↦ split_range vmas s prot k₀ k₁ ])
      go (range s) r = split_range_lem s k₀ k₁ order r
      go (none_such enoent) r = (refl, r)
      go (none_such einval) r = (refl, r.1)
      go (none_such eperm) r = absurd (cc r.0)
      go (none_such enomem) r = absurd (cc r.0)
      go (none_such eexist) r = absurd (cc r.0)
      go (none_such eoverflow) r = absurd (cc r.0)
      go (none_such enotsup) r = absurd (cc r.0)
