-- ===== src/PageFault/Rounds.antt =====
-- The rounds of a page fault, one after the other.
use budalloc.Prelude.{
  ℕ, zero, suc, ◌+◌, ◌*◌, ◌^◌, ◌<◌, ◌≤◌, ◌≡◌, ◌≢◌, refl, sym, Bool, true, false, not, ◌&&◌, ◌||◌,
  Option, none, some, [], ◌==◌, if◌then◌else◌, arith, Bool-cases, inl, inr,
}
use budalloc.FreeBatch.{Pages, Batch}
use budalloc.Deferred.{get_flush, get_buf_ver, get_tid}
use budalloc.PageFault.{
  canon_page_of, is_mapped, Round, Ctx, flush_thread_buf, flush_known, flush_marked, map_run,
  after_flush, prefetch_entry, prefetch_fn, loop,
}
use budalloc.PageFault.Run.{
  word_at, AllFor, Tiled, Run, Running, Ended, Outcome, map_run-Outcome, join_run-Outcome,
}

module _ (unset : Pages → ℕ) (found got : ℕ → Bool) (vaddr w : ℕ) (rounds : ℕ → Round) where
  module _ (fits : vaddr + 257 * 4096 < 2 ^ 64) where
    -- A flush leaves the run alone.
    flush_marked-Run :
        (k v : ℕ) (c : Ctx)
        → Run vaddr w rounds k c
        → Run vaddr w rounds k (flush_marked unset found got v c).0
    unfolding flush_marked flush_known
    flush_marked-Run k v c r = go c.reuse_thread_idx
      where
        moved :
            (o : Option ℕ) (f : Bool) (p : ℕ → Batch)
            → Run vaddr w rounds k
                (record c { reuse_thread_idx = o; need_flush = f; perthread = p })
        moved o f p = record {
          start = r.start;
          size = r.size;
          before = r.before;
          total = r.total;
          some_page = r.some_page;
          page = r.page;
          bytes = r.bytes;
          same = r.same;
        }

        go : (o : Option ℕ) → Run vaddr w rounds k (flush_known unset found got o v c).0
        go none = r
        go (some last) =
            elim (Bool-cases (get_flush v == 1 && (not (get_tid v == last) || c.need_flush))) [
              | inl e ↦ rw e (
                  let x =
                    flush_thread_buf unset found got (get_tid v) (get_buf_ver v) c.perthread in
                  elim (Bool-cases (x.0 == 0)) [
                    | inl f ↦ rw f (moved (some (get_tid v)) false x.1)
                    | inr f ↦ rw f (moved c.reuse_thread_idx c.need_flush x.1)
                  ])
              | inr e ↦ rw e r
            ]

    stop-Outcome :
        (k : ℕ) (c : Ctx)
        → k < 257
        → Run vaddr w rounds k c
        → Outcome vaddr w rounds (suc k) (map_run unset found got 0 (record c { window_size = 0 }))
    stop-Outcome k c small r =
        map_run-Outcome unset found got vaddr w rounds fits k 0 (record c { window_size = 0 })
          (omega arith)
          (record {
            start = r.start;
            size = r.size;
            before = r.before;
            total = r.total;
            some_page = r.some_page;
            page = r.page;
            bytes = r.bytes;
            same = r.same;
          })
          (λ e. absurd (cc))

    after_flush-Outcome :
        (k v : ℕ) (last : Bool) (x : Ctx × Bool)
        → k < 257
        → Run vaddr w rounds k x.0
        → word_at vaddr w rounds k ≡ some v
        → v ≢ 0
        → is_mapped v ≡ false
        → (last ≡ false → suc k ≢ 257)
        → Outcome vaddr w rounds (suc k) (after_flush unset found got last v x)
    unfolding after_flush
    after_flush-Outcome k v last (c, true) small r at_k pos unmapped late =
        join_run-Outcome unset found got vaddr w rounds fits k v last c small r at_k pos unmapped
          late
    after_flush-Outcome k v last (c, false) small r at_k pos unmapped late =
        stop-Outcome k c small r

    prefetch_entry-Outcome :
        (k : ℕ) (last : Bool) (o : Option ℕ) (c : Ctx)
        → k < 257
        → Run vaddr w rounds k c
        → word_at vaddr w rounds k ≡ o
        → (last ≡ false → suc k ≢ 257)
        → Outcome vaddr w rounds (suc k) (prefetch_entry unset found got last o c)
    unfolding prefetch_entry
    prefetch_entry-Outcome k last none c small r at_k late =
        stop-Outcome k (record c { need_unlock = false }) small
          (record {
            start = r.start;
            size = r.size;
            before = r.before;
            total = r.total;
            some_page = r.some_page;
            page = r.page;
            bytes = r.bytes;
            same = r.same;
          })
    prefetch_entry-Outcome k last (some v) c small r at_k late =
        elim (Bool-cases (v == 0 || is_mapped v)) [
          | inl e ↦ rw e (stop-Outcome k c small r)
          | inr e ↦ rw e (
              after_flush-Outcome k v last (flush_marked unset found got v c) small
                (flush_marked-Run k v c r) at_k (ground (arith, e)) (ground (arith, e)) late)
        ]

    prefetch_fn-Outcome :
        (i : ℕ) (c : Ctx)
        → i < 256
        → Run vaddr w rounds (suc i) c
        → Outcome vaddr w rounds (suc (suc i)) (prefetch_fn unset found got i (rounds i) c)
    unfolding prefetch_fn
    prefetch_fn-Outcome i c small r =
        prefetch_entry-Outcome (suc i) (i == 255) (rounds i).entry
          (record c { need_flush = c.need_flush || (rounds i).l1_changed }) (omega arith)
          (record {
            start = r.start;
            size = r.size;
            before = r.before;
            total = r.total;
            some_page = r.some_page;
            page = r.page;
            bytes = r.bytes;
            same = r.same;
          })
          refl (λ e. ground (arith, e))

    loop-Ended :
        (n i : ℕ) (c : Ctx)
        → i + n ≡ 256
        → Running vaddr w rounds (suc i) c
        → Ended vaddr w rounds (loop unset found got n i rounds c)
    unfolding loop
    loop-Ended zero i c e (r, late) =
        (r.start, late (omega (arith, e)), omega (arith, e, r.total), r.before)
    loop-Ended (suc n) i c e (r, late) =
        go (prefetch_fn unset found got i (rounds i) c)
          (prefetch_fn-Outcome i c (omega (arith, e)) r)
          (λ c' k. loop-Ended n (suc i) c' (omega (arith, e)) k)
      where
        go :
            (x : Ctx × Bool)
            → Outcome vaddr w rounds (suc (suc i)) x
            → ((c' : Ctx)
                → Running vaddr w rounds (suc (suc i)) c'
                → Ended vaddr w rounds (loop unset found got n (suc i) rounds c'))
            → Ended vaddr w rounds (if x.1 then loop unset found got n (suc i) rounds x.0 else x.0)
        go (c', true) k next = next c' k
        go (c', false) k next = k

    -- The rounds map the faulting page and what joins it.
    pub loop-Tiled :
        (c : Ctx)
        → w ≢ 0
        → is_mapped w ≡ false
        → c.alias_page ≡ vaddr
        → c.alias_len ≡ 4096
        → c.canon_page ≡ canon_page_of w
        → c.calls ≡ []
        → (m : ℕ) × (0 < m)
          × (m ≤ 257)
          × Tiled vaddr w rounds (loop unset found got 256 0 rounds c).calls m
    loop-Tiled c pos unmapped page bytes canon fresh = loop-Ended 256 0 c refl (
      record {
        start = 0;
        size = 1;
        before = rw fresh refl;
        total = refl;
        some_page = omega arith;
        page = omega (arith, page);
        bytes = omega (arith, bytes);
        same = first;
      },
      λ e. absurd (omega arith),
    )
      where
        first : AllFor vaddr w rounds 0 1 c.canon_page
        first zero h = (pos, unmapped, sym canon)
        first (suc j) h = absurd (omega arith)
