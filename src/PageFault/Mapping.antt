-- ===== src/PageFault/Mapping.antt =====
-- What a page fault maps: from the faulting page on, each page to the canonical page of its word.
use budalloc.Prelude.{
  ℕ, ◌+◌, ◌*◌, ◌/◌, ◌%◌, ◌^◌, ◌<◌, ◌≤◌, ◌≡◌, ◌≢◌, refl, Bool, true, false, not, ◌||◌, Option, some,
  List, [], ◌∷◌, ltb, ◌==◌, if◌then◌else◌, arith, Bool-cases, inl, inr,
}
use mathlib.Core.List.{reverse}
use budalloc.FreeBatch.{Pages, Batch}
use budalloc.FreeBatch.Fault.{flush_alias_free_buf, locked_flush, settled, unset_from}
use budalloc.Deferred.{get_flush, get_buf_ver, get_tid}
use budalloc.PageFault.{
  is_mapped, Round, flush_thread_buf, Machine, window_for, flush_first, first_ctx, after_loop,
  map_pages, fault_entry, page_fault,
}
use budalloc.PageFault.Run.{Tiled}
use budalloc.PageFault.Rounds.{loop-Tiled}

module _ (unset : Pages → ℕ) (found got : ℕ → Bool) (takes : (t : ℕ) → got t ≡ true) where
  settled-ne-two : (b : Batch) (x : List Pages × List Pages × Bool) → (settled unset b x).0 ≢ 2
  unfolding settled
  settled-ne-two b (l, calls, true) e = absurd (omega arith)
  settled-ne-two b (l, calls, false) e = absurd (omega arith)

  -- A flush that takes its lock does not answer 2.
  flush-ne-two :
      (g : Bool) (version : ℕ) (b : Batch) → (flush_alias_free_buf unset g version b true b).0 ≢ 2
  unfolding flush_alias_free_buf locked_flush
  flush-ne-two g version b = elim (Bool-cases (not (b.buf_version == version) || b.buf_empty)) [
    | inl e ↦ rw e (λ f. absurd (omega arith))
    | inr e ↦ rw e (elim (Bool-cases b.buf_empty) [
      | inl f ↦ simp f (λ h. absurd (omega arith))
      | inr f ↦ simp f (go g)
    ])
  ]
    where
      go :
          (g : Bool)
          → (if g
              then settled unset b (unset_from unset (reverse (b.cur ∷ b.older)))
              else (1, b, [], true)).0
            ≢ 2
      go true = settled-ne-two b (unset_from unset (reverse (b.cur ∷ b.older)))
      go false = λ e. absurd (omega arith)

  flush_thread_buf-ne-two :
      (t version : ℕ) (perthread : ℕ → Batch)
      → (flush_thread_buf unset found got t version perthread).0 ≢ 2
  unfolding flush_thread_buf
  flush_thread_buf-ne-two t version perthread =
      let e = takes (t % 64) in rw e (flush-ne-two (found (t % 64)) version (perthread (t % 64)))

  -- The flush for the faulting page lets the rounds run.
  flush_first-ne-two : (entry : ℕ) (m : Machine) → (flush_first unset found got entry m).0 ≢ 2
  unfolding flush_first
  flush_first-ne-two entry m = elim (Bool-cases (get_flush entry == 1)) [
    | inl e ↦ rw e (flush_thread_buf-ne-two (get_tid entry) (get_buf_ver entry) m.perthread)
    | inr e ↦ rw e (λ f. absurd (omega arith))
  ]

  map_pages-Tiled :
      (vaddr_page entry window : ℕ) (rounds : ℕ → Round) (x : ℕ × Option ℕ × Machine)
      → vaddr_page + 257 * 4096 < 2 ^ 64
      → entry ≢ 0
      → is_mapped entry ≡ false
      → x.0 ≢ 2
      → (m : ℕ) × (0 < m)
        × (m ≤ 257)
        × Tiled vaddr_page entry rounds
            (map_pages unset found got vaddr_page entry window rounds x).calls
            m
  unfolding map_pages after_loop
  map_pages-Tiled vaddr_page entry window rounds (ret, reuse, m) fits used fresh ne =
      let e : (ret == 2) ≡ false = ground (arith, ne) in
      rw e (
        loop-Tiled unset found got vaddr_page entry rounds fits
          (first_ctx unset found got vaddr_page entry window reuse m) used fresh refl refl refl
          refl)

  -- For a page fault at an alias address that is below 2 ^ 64 by at least 257 pages, whose word is in
  -- use and not mapped, with `mm` found, `fork_lock` and the locks of the batches taken: whatever the
  -- words behind it, the window, the marks and the answers of `bpf_unset_page_table`, the program makes
  -- calls of `bpf_set_page_table` that map 1 to 257 pages, the faulting one first, each page once and
  -- without a gap, and the words of all pages that a call maps were in use, not mapped before, and for
  -- the canonical page that it names.
  pub page_fault-Tiled :
      (vaddr entry : ℕ) (failed : Bool) (rounds : ℕ → Round) (machine : Machine)
      → 0x100100000000 ≤ vaddr
      → vaddr + 257 * 4096 < 2 ^ 64
      → entry ≢ 0
      → is_mapped entry ≡ false
      → (m : ℕ) × (0 < m)
        × (m ≤ 257)
        × Tiled
            (vaddr / 4096 * 4096)
            entry
            rounds
            (page_fault unset found got vaddr true true (some entry) failed rounds machine).calls
            m
  unfolding page_fault fault_entry
  page_fault-Tiled vaddr entry failed rounds machine alias fits used fresh =
      let a : ltb vaddr 0x100100000000 ≡ false = ground (arith, alias) in
      let b : (entry == 0) ≡ false = ground (arith, used) in
      let (window, size) = window_for (entry / 2 ^ 48 % 64) (vaddr / 4096 * 4096) machine in
      let m' : Machine = record machine { window_prev_size = size } in
      rw (a, b, fresh)
        (map_pages-Tiled (vaddr / 4096 * 4096) entry window rounds
          (flush_first unset found got entry m') (omega (arith, fits)) used fresh
          (flush_first-ne-two entry m'))
