-- ===== src/Vmem/Protect/Pages.antt =====
-- `vma_set_prot`, page by page: an area that reaches out of the range has the protection already.
use mathlib.Core.List.{append_assoc}
use budalloc.Prelude.{
  ℕ, ◌+◌, ◌≤◌, ◌<◌, ◌≡◌, sym, ◌∙◌, ap, inl, inr, Bool, Option, none, some, List, [], ◌∷◌, ◌++◌,
  ◌==◌, arith, Bool-cases, if◌then◌else◌, size_max,
}
use budalloc.Vmem.Vma.{
  in_range, Vma, Errno, eperm, enoent, enomem, eexist, einval, eoverflow, enotsup, Call, done,
  panic, attr_at,
}
use budalloc.Vmem.Find.{Span}
use budalloc.Vmem.Split.{Parts, parts, refused, first, split_vma}
use budalloc.Vmem.Protect.{set_all, merge_pass, set_prot_span, set_prot_refused, vma_set_prot}
use budalloc.Vmem.Protect.Effect.{with_prot, SetProtResult, SetAll, set_all_lem, merge_pass-Same}
use budalloc.Vmem.Bounds.{
  Between, Between-append, attr_at-append, attr_at-above, attr_at-below, or_else,
}
use budalloc.Vmem.Parted.{IsSplit, SplitResult, split_vma_lem}

module _ (p : ℕ) (a : ℕ) where
  -- Below the end of an area that has the protection, nothing changes.
  kept-below :
      (m : List Vma) (last : Vma) (lo hi : ℕ)
      → Between lo hi (m ++ last ∷ [])
      → a < (first m last).vm_end
      → (first m last).vm_page_prot ≡ p
      → with_prot p (attr_at a (m ++ last ∷ [])) ≡ attr_at a (m ++ last ∷ [])
  unfolding attr_at first
  kept-below [] last lo hi h lt e = ground arith
  kept-below (v ∷ m) last lo hi h lt e =
      ground (arith, attr_at-below a v.vm_end hi (m ++ last ∷ []) h.2)

  -- From the start of a last area that has the protection on, nothing changes.
  kept-above :
      (m : List Vma) (last : Vma) (lo : ℕ)
      → Between lo last.vm_start m
      → last.vm_start ≤ a
      → last.vm_page_prot ≡ p
      → with_prot p (attr_at a (m ++ last ∷ [])) ≡ attr_at a (m ++ last ∷ [])
  unfolding attr_at
  kept-above m last lo h le e =
      let app = attr_at-append a m (last ∷ []) in
      let none_before = attr_at-above a lo last.vm_start m h le in ground (arith, app, none_before)

module _ (vmas : List Vma) (vaddr len p : ℕ) (s : Span)
    (i : IsSplit vmas vaddr len (some p) s) where
  order-middle : Between (first s.mid s.last).vm_start s.last.vm_end (s.mid ++ s.last ∷ [])
  order-middle =
      Between-append _ s.last.vm_start s.last.vm_start s.last.vm_end s.mid (s.last ∷ []) i.middle
        (omega arith) (omega arith, i.fits, omega arith)

  module _ (a : ℕ) where
    parts_at :
        attr_at a vmas
        ≡ or_else
            (attr_at a s.before)
            (or_else (attr_at a (s.mid ++ s.last ∷ [])) (attr_at a s.after))
    parts_at =
        i.same a
        ∙ attr_at-append a s.before (s.mid ++ s.last ∷ s.after)
        ∙ ap (or_else (attr_at a s.before)) (
            ap (attr_at a) (sym (append_assoc s.mid (s.last ∷ []) s.after))
            ∙ attr_at-append a (s.mid ++ s.last ∷ []) s.after)

    before_none : vaddr ≤ a → attr_at a s.before ≡ none
    before_none le = attr_at-above a 0 _ s.before i.front (omega arith)

    after_none : a < vaddr + len → attr_at a s.after ≡ none
    after_none lt = attr_at-below a _ size_max s.after i.behind (omega arith)

    kept_below_range :
        a < vaddr
        → with_prot p (attr_at a (s.mid ++ s.last ∷ [])) ≡ attr_at a (s.mid ++ s.last ∷ [])
    kept_below_range lt = elim i.left [
      | inl le ↦
          rw (attr_at-below a _ s.last.vm_end (s.mid ++ s.last ∷ []) order-middle (omega arith))
      | inr e ↦ kept-below p a s.mid s.last _ _ order-middle (omega (arith, i.first_ends)) e
    ]

    kept_above_range :
        vaddr + len ≤ a
        → with_prot p (attr_at a (s.mid ++ s.last ∷ [])) ≡ attr_at a (s.mid ++ s.last ∷ [])
    kept_above_range le = elim i.right [
      | inl le' ↦
          rw (attr_at-above a _ s.last.vm_end (s.mid ++ s.last ∷ []) order-middle (omega arith))
      | inr e ↦ kept-above p a s.mid s.last _ i.middle (omega (arith, i.starts)) e
    ]

    -- The three parts, with the protection set in the middle one.
    changed_at :
        or_else
          (attr_at a s.before)
          (or_else (with_prot p (attr_at a (s.mid ++ s.last ∷ []))) (attr_at a s.after))
        ≡ (if in_range vaddr len a then with_prot p (attr_at a vmas) else attr_at a vmas)
    changed_at =
        ground (arith, parts_at, before_none, after_none, kept_below_range, kept_above_range)

module _ (run : Call → ℕ) (vmas : List Vma) (vaddr len p : ℕ) where
  set_prot_span_lem :
      (s : Span)
      → IsSplit vmas vaddr len (some p) s
      → SetProtResult run vmas vaddr len p (set_prot_span run p s)
  unfolding set_prot_span
  set_prot_span_lem s i = go (set_all run p (s.mid ++ s.last ∷ [])) (set_all_lem run p _)
    where
      go :
          (o : Option (List Vma × List Call))
          → SetAll run p (s.mid ++ s.last ∷ []) o
          → SetProtResult run vmas vaddr len p (elim o [
            | none ↦ panic
            | some (l, calls) ↦ done (merge_pass s.before l s.after) calls
          ])
      go none c = c
      go (some (l, calls)) (at, order) =
          let middle = order _ _ (order-middle vmas vaddr len p s i) in
          let tail = Between-append _ _ _ size_max l s.after middle (omega arith) i.behind in
          let whole =
            Between-append 0 _ _ size_max s.before (l ++ s.after) i.front (omega arith) tail in
          let (same, kept) = merge_pass-Same s.before l s.after whole in
          (
            kept,
            λ a.
                sym (same a)
                ∙ attr_at-append a s.before (l ++ s.after)
                ∙ ap (or_else (attr_at a s.before))
                    (attr_at-append a l s.after ∙ ap (λ o. or_else o (attr_at a s.after)) (at a))
                ∙ changed_at vmas vaddr len p s i a,
          )

  set_prot_refused_lem :
      (e : Errno) (l : List Vma)
      → Between 0 size_max vmas
      → SplitResult vmas vaddr len (some p) (refused e l)
      → SetProtResult run vmas vaddr len p (set_prot_refused run e l)
  unfolding set_prot_refused
  set_prot_refused_lem enoent l order (same, free) =
      (rw same order, λ a. ground (arith, ap (attr_at a) same, free a))
  set_prot_refused_lem einval l order h = h
  set_prot_refused_lem enomem l order h = h
  set_prot_refused_lem eperm l order h = h
  set_prot_refused_lem eexist l order h = h
  set_prot_refused_lem eoverflow l order h = h
  set_prot_refused_lem enotsup l order h = h

  -- `vma_set_prot` of a range that does not wrap, in an address space in order: what each of its
  -- answers means, as `SetProtResult` says.
  pub vma_set_prot_lem :
      (k₀ k₁ : Bool)
      → Between 0 size_max vmas
      → vaddr + len ≤ size_max
      → SetProtResult run vmas vaddr len p (vma_set_prot run vmas vaddr len p k₀ k₁)
  unfolding vma_set_prot
  vma_set_prot_lem k₀ k₁ order fit = elim (Bool-cases (len == 0)) [
    | inl e ↦ rw e (order, λ a. ground arith)
    | inr e ↦ rw e (
        go (split_vma vmas vaddr len (some p) k₀ k₁)
          (split_vma_lem vmas vaddr len (some p) fit k₀ k₁ order (ground arith)))
  ]
    where
      go :
          (q : Parts)
          → SplitResult vmas vaddr len (some p) q
          → SetProtResult run vmas vaddr len p
              (elim q [ parts s ↦ set_prot_span run p s | refused e l ↦ set_prot_refused run e l ])
      go (parts s) i = set_prot_span_lem s i
      go (refused e l) h = set_prot_refused_lem e l order h
