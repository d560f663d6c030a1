-- ===== src/PageFault/Skipping.antt =====
-- The flushes that a page fault leaves out.
use budalloc.Prelude.{
  ℕ, zero, suc, ◌*◌, ◌/◌, ◌%◌, ◌^◌, ◌<◌, ◌≤◌, ◌≡◌, ◌≢◌, refl, ap, ◌∙◌, Bool, true, false, ◌||◌,
  Option, none, some, [], ltb, ◌==◌, if◌then◌else◌, arith, Bool-cases, inl, inr,
}
use budalloc.FreeBatch.{Pages, Batch}
use budalloc.FreeBatch.Fault.{flush_alias_free_buf}
use budalloc.Deferred.{get_flush}
use budalloc.PageFault.{
  canon_page_of, is_mapped, Round, Ctx, flush_thread_buf, flush_known, flush_marked, map_run,
  join_run, after_flush, prefetch_entry, prefetch_fn, loop, Machine, turn, window_for, flush_first,
  first_ctx, after_loop, map_pages, fault_entry, page_fault,
}

module _ (unset : Pages → ℕ) (found got : ℕ → Bool) (rounds : ℕ → Round) where
  -- No thread has been flushed, and so none is flushed.
  abbrev Skips : Ctx → Ctx → Type 0
  Skips c c' = (c'.perthread ≡ c.perthread) × (c'.reuse_thread_idx ≡ none)

  map_run-Skips :
      (cur : ℕ) (c : Ctx) → c.reuse_thread_idx ≡ none → Skips c (map_run unset found got cur c).0
  unfolding map_run
  map_run-Skips cur c e = elim (Bool-cases (ltb 1 c.window_size)) [
    | inl g ↦ rw g (refl, e)
    | inr g ↦ rw g (refl, e)
  ]

  join_run-Skips :
      (last : Bool) (v : ℕ) (c : Ctx)
      → c.reuse_thread_idx ≡ none
      → Skips c (join_run unset found got last v c).0
  unfolding join_run map_run
  join_run-Skips last v c e = elim (Bool-cases (canon_page_of v == c.canon_page)) [
    | inl g ↦ rw g (elim (Bool-cases last) [ inl h ↦ rw h (refl, e) | inr h ↦ rw h (refl, e) ])
    | inr g ↦ rw g (map_run-Skips (canon_page_of v) c e)
  ]

  prefetch_entry-Skips :
      (last : Bool) (p : Option ℕ) (c : Ctx)
      → c.reuse_thread_idx ≡ none
      → Skips c (prefetch_entry unset found got last p c).0
  unfolding prefetch_entry after_flush flush_marked flush_known
  prefetch_entry-Skips last none c e =
      map_run-Skips 0 (record c { need_unlock = false; window_size = 0 }) e
  prefetch_entry-Skips last (some v) c e = elim (Bool-cases (v == 0 || is_mapped v)) [
    | inl g ↦ rw g (map_run-Skips 0 (record c { window_size = 0 }) e)
    | inr g ↦
        let none_flushed : flush_known unset found got c.reuse_thread_idx v c ≡ (c, true) =
          ap (λ (q : Option ℕ). flush_known unset found got q v c) e in
        rw (g, none_flushed) (join_run-Skips last v c e)
  ]

  loop-Skips :
      (n i : ℕ) (c : Ctx)
      → c.reuse_thread_idx ≡ none
      → (loop unset found got n i rounds c).perthread ≡ c.perthread
  unfolding loop prefetch_fn
  loop-Skips zero i c e = refl
  loop-Skips (suc n) i c e =
      let b : Ctx = record c { need_flush = c.need_flush || (rounds i).l1_changed } in
      go (prefetch_entry unset found got (i == 255) (rounds i).entry b)
        (prefetch_entry-Skips (i == 255) (rounds i).entry b e) (λ c' p. loop-Skips n (suc i) c' p)
    where
      go :
          (x : Ctx × Bool)
          → Skips c x.0
          → ((c' : Ctx)
              → c'.reuse_thread_idx ≡ none
              → (loop unset found got n (suc i) rounds c').perthread ≡ c'.perthread)
          → (if x.1 then loop unset found got n (suc i) rounds x.0 else x.0).perthread ≡ c.perthread
      go (c', true) k next = next c' k.1 ∙ k.0
      go (c', false) k next = k.0

  -- A flush for N_VERSIONS does nothing: the versions are below it.
  no_version :
      (g l : Bool) (b : Batch)
      → b.buf_version < 8
      → flush_alias_free_buf unset g 8 b l b ≡ (0, b, [], false)
  unfolding flush_alias_free_buf
  no_version g l b low = let e : (b.buf_version == 8) ≡ false = ground (arith, low) in rw e refl

  no_turn :
      (index i : ℕ) (perthread : ℕ → Batch)
      → ((j : ℕ) → (perthread j).buf_version < 8)
      → (flush_thread_buf unset found got index 8 perthread).1 i ≡ perthread i
  unfolding flush_thread_buf
  no_turn index i perthread low =
      let t = index % 64 in
      let e = no_version (found t) (got t) (perthread t) (low t) in
      elim (Bool-cases (i == t)) [
        | inl f ↦ let g : t ≡ i = ground (arith, f) in rw (f, e) (ap perthread g)
        | inr f ↦ rw f refl
      ]

  -- For a page fault at an alias address whose word is in use, not mapped and not marked for a flush,
  -- with `mm` found and `fork_lock` taken, where the versions of all batches are below 8: the program
  -- answers 0 and leaves every batch as it is, whatever marks the words carry that it maps behind.
  pub page_fault-unmarked :
      (vaddr entry : ℕ) (failed : Bool) (m : Machine) (i : ℕ)
      → 0x100100000000 ≤ vaddr
      → entry ≢ 0
      → is_mapped entry ≡ false
      → get_flush entry ≡ 0
      → ((j : ℕ) → (m.perthread j).buf_version < 8)
      → ((page_fault unset found got vaddr true true (some entry) failed rounds m).ret ≡ 0)
        × ((page_fault unset found got vaddr true true
                (some entry)
                failed
                rounds
                m).machine.perthread
              i
            ≡ m.perthread i)
  unfolding page_fault fault_entry flush_first map_pages after_loop
  page_fault-unmarked vaddr entry failed m i alias used fresh unmarked low =
      let a : ltb vaddr 0x100100000000 ≡ false = ground (arith, alias) in
      let b : (entry == 0) ≡ false = ground (arith, used) in
      let c : (get_flush entry == 1) ≡ false = ground (arith, unmarked) in
      let size = (window_for (entry / 2 ^ 48 % 64) (vaddr / 4096 * 4096) m).1 in
      let m' : Machine = record m { window_prev_size = size } in
      let perthread = (flush_thread_buf unset found got (turn m').0 8 m.perthread).1 in
      let window = (window_for (entry / 2 ^ 48 % 64) (vaddr / 4096 * 4096) m).0 in
      let start =
        first_ctx unset found got (vaddr / 4096 * 4096) entry window none
          (record m { perthread = perthread }) in
      rw (a, b, fresh, c)
        (
          refl,
          ap (λ (p : ℕ → Batch). p i) (loop-Skips 256 0 start refl)
              ∙ no_turn (turn m').0 i m.perthread low,
        )
