-- ===== src/FreeBatch/Fault.antt =====
-- The flush on a page fault, `flush_alias_free_buf` of libkernel/src/memory/page_fault.bpf.c, which is
-- to do what `flush` of libkernel/src/memory/page_ops.bpf.c does.
use budalloc.Prelude.{
  ℕ, ◌+◌, ◌%◌, ◌≡◌, refl, ap, ◌∙◌, Bool, true, false, not, ◌||◌, List, [], ◌∷◌, ◌++◌, ◌==◌,
  if◌then◌else◌, arith, Bool-cases, inl, inr,
}
use mathlib.Core.List.{reverse, reverse-append, reverse-cons}
use budalloc.FreeBatch.{Pages, pages, Batch, with_entries, unset_all, emptied, flush}

module _ (unset : Pages → ℕ) where
  -- The loop over the entries, from the first on.
  unfoldable pub unset_from : List Pages → List Pages × List Pages × Bool
  unset_from [] = ([], [], true)
  unset_from (r ∷ l) =
      let (l', calls, ok) = unset_from l in
      if unset r == 0 then (pages 0 0 ∷ l', r ∷ calls, ok) else (pages 0 0 ∷ l, r ∷ [], false)

  -- What is answered and left behind the loop, and whether the lock is still held.
  unfoldable pub settled : Batch → List Pages × List Pages × Bool → ℕ × Batch × List Pages × Bool
  settled b (l, calls, true) = (
    0,
    record b {
      cur = pages 0 0;
      older = [];
      buf_cnt = 0;
      buf_empty = true;
      buf_version = (b.buf_version + 1) % 8;
    },
    calls,
    false,
  )
  settled b (l, calls, false) = (1, with_entries b (reverse l), calls, false)

  -- The part under the lock. `found` is whether `bpf_uaddr_to_kaddr` finds the buffer.
  unfoldable pub locked_flush : Bool → Batch → ℕ × Batch × List Pages × Bool
  unfolding settled unset_from
  locked_flush found b =
      if b.buf_empty
      then (0, b, [], false)
      else if found
      then settled b (unset_from (reverse (b.cur ∷ b.older)))
      else (1, b, [], true)

  -- `flush_alias_free_buf` for a version: the batch as it is first read, and as it is once the lock is
  -- taken, if it is.
  unfoldable pub flush_alias_free_buf :
      Bool → ℕ → Batch → Bool → Batch → ℕ × Batch × List Pages × Bool
  unfolding locked_flush
  flush_alias_free_buf found version first got b =
      if not (first.buf_version == version) || first.buf_empty
      then (0, first, [], false)
      else if got
      then locked_flush found b
      else (2, first, [], false)

  -- The loop over one entry more.
  abbrev one_more : Pages → List Pages × List Pages × Bool → List Pages × List Pages × Bool
  one_more r (l, calls, true) = (l ++ pages 0 0 ∷ [], calls ++ r ∷ [], unset r == 0)
  one_more r (l, calls, false) = (l ++ r ∷ [], calls, false)

  abbrev with_first : Pages → List Pages × List Pages × Bool → List Pages × List Pages × Bool
  with_first r (l, calls, ok) = (pages 0 0 ∷ l, r ∷ calls, ok)

  one_more-with_first :
      (r r' : Pages) (x : List Pages × List Pages × Bool)
      → with_first r' (one_more r x) ≡ one_more r (with_first r' x)
  one_more-with_first r r' (l, calls, true) = refl
  one_more-with_first r r' (l, calls, false) = refl

  unset_from-append :
      (l : List Pages) (r : Pages) → unset_from (l ++ r ∷ []) ≡ one_more r (unset_from l)
  unfolding unset_from
  unset_from-append [] r = elim (Bool-cases (unset r == 0)) [
    | inl e ↦ rw e refl
    | inr e ↦ rw e refl
  ]
  unset_from-append (r' ∷ l) r = elim (Bool-cases (unset r' == 0)) [
    | inl e ↦
        rw e (ap (with_first r') (unset_from-append l r) ∙ one_more-with_first r r' (unset_from l))
    | inr e ↦ rw e refl
  ]

  -- The entries from the last to the first.
  abbrev turned : List Pages × List Pages × Bool → List Pages × List Pages × Bool
  turned (l, calls, ok) = (reverse l, calls, ok)

  abbrev next_entry : Pages → List Pages × List Pages × Bool → List Pages × List Pages × Bool
  next_entry r (l, calls, ok) =
      if ok then (pages 0 0 ∷ l, calls ++ r ∷ [], unset r == 0) else (r ∷ l, calls, false)

  turned-one_more :
      (r : Pages) (x : List Pages × List Pages × Bool)
      → turned (one_more r x) ≡ next_entry r (turned x)
  turned-one_more r (l, calls, true) = rw (reverse-append l (pages 0 0 ∷ [])) refl
  turned-one_more r (l, calls, false) = rw (reverse-append l (r ∷ [])) refl

  unset_from-reverse : (l : List Pages) → turned (unset_from (reverse l)) ≡ unset_all unset true l
  unfolding unset_all unset_from
  unset_from-reverse [] = refl
  unset_from-reverse (r ∷ l) =
      ap turned (ap unset_from (reverse-cons r l) ∙ unset_from-append (reverse l) r)
      ∙ turned-one_more r (unset_from (reverse l))
      ∙ ap (next_entry r) (unset_from-reverse l)

  -- What `flush` leaves, as this function answers it.
  abbrev pub as_answer : Bool → Batch × List Pages × Bool → ℕ × Batch × List Pages × Bool
  as_answer lost (b, calls, ok) = (if ok then 0 else 1, b, calls, lost)

  settled-emptied :
      (b : Batch) (x : List Pages × List Pages × Bool)
      → settled b x ≡ as_answer false (emptied unset true b (turned x))
  unfolding settled emptied
  settled-emptied b (l, calls, true) = refl
  settled-emptied b (l, calls, false) = refl

  -- For the version that the batch has, when the batch is empty neither as it is first read nor once the
  -- lock is taken: `flush_alias_free_buf` leaves the batch and calls `bpf_unset_page_table` as `flush`
  -- does, answers 0 just where that comes to its end, and keeps the lock where the buffer is not found.
  pub flush_alias_free_buf-flush :
      (found : Bool) (version : ℕ) (first b : Batch)
      → first.buf_version ≡ version
      → first.buf_empty ≡ false
      → b.buf_empty ≡ false
      → flush_alias_free_buf found version first true b
        ≡ as_answer (not found) (flush unset found b)
  unfolding flush_alias_free_buf locked_flush flush
  flush_alias_free_buf-flush false version first b v e e' =
      let same : (first.buf_version == version) ≡ true = ground arith in rw (same, e, e') refl
  flush_alias_free_buf-flush true version first b v e e' =
      let same : (first.buf_version == version) ≡ true = ground arith in
      simp (same, e, e')
        (settled-emptied b (unset_from (reverse (b.cur ∷ b.older)))
          ∙ ap (λ (x : List Pages × List Pages × Bool). as_answer false (emptied unset true b x))
              (unset_from-reverse (b.cur ∷ b.older)))
