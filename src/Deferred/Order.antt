-- ===== src/Deferred/Order.antt =====
-- Canonical memory is not written by the allocator or given to mimalloc before its alias pages are
-- unmapped.
use budalloc.Prelude.{
  ℕ, ◌+◌, ◌*◌, ◌%◌, ◌^◌, ◌≡◌, refl, sym, ◌∙◌, true, false, Option, none, some, List, [], ◌∷◌, arith,
  Bool-cases, inl, inr,
}
use budalloc.FreeBatch.{Pages, pages, Batch}
use budalloc.FreeBatch.Flush.{covers}
use budalloc.FreeBatch.Pending.{IsBatch, adaptive_window_resize-IsBatch}
use budalloc.FreeBatch.History.{new_batch-IsBatch}
use budalloc.Deferred.{
  Thread, try_deferred_free, put_pages, flush_if_more, keep_canonical, end_free, counted,
  free_canonical,
}
use budalloc.Deferred.Quiet.{Ordered}
use budalloc.Deferred.Sound.{
  IsSound, IsIdle, adaptive_window_resize-same, try_deferred_free-IsSound,
}
use budalloc.Deferred.History.{
  Action, free, fault, act, run, fills, never_full, InSpace, AllInSpace, new_thread,
}
use budalloc.Deferred.Steps.{
  flush_thread-IsSound, flush_if_more-IsSound, keep_canonical-IsSound, SoundOnce, put_pages-IsSound,
}

abbrev IdleIf : Option Thread → Type 0
IdleIf none = ⊥
IdleIf (some s) = IsIdle s

module _ (hash : ℕ → ℕ) (tid : ℕ) (unset : Pages → ℕ) (succeeds : (r : Pages) → unset r ≡ 0) where
  end_free-Idle :
      (index alloc_size a : ℕ) (o : Option (Thread × ℕ))
      → SoundOnce hash tid unset succeeds o
      → IdleIf (end_free hash tid unset true index alloc_size a o)
  unfolding end_free
  end_free-Idle index alloc_size a none i = absurd i
  end_free-Idle index alloc_size a (some (s, version)) i =
      let s' =
        keep_canonical hash tid unset true index alloc_size version a
          (flush_if_more hash tid unset true s) in
      let k : IsSound s' =
        keep_canonical-IsSound hash tid unset succeeds index alloc_size version a
          (flush_if_more hash tid unset true s)
          (flush_if_more-IsSound hash tid unset succeeds s i) in
      (
        record {
          batch_ok = k.batch_ok;
          account = k.account;
          emptied = k.emptied;
          version_low = k.version_low;
          ordered = k.ordered;
        },
        λ e. absurd (ground arith),
      )

  pub counted-IsSound :
      (now n_alias : ℕ) (s : Thread)
      → IsSound s
      → IsSound (counted hash tid unset true now n_alias s)
  unfolding counted
  counted-IsSound now n_alias s i =
      let b : Batch = record s.batch { buf_cnt = (s.batch.buf_cnt + n_alias) % 2 ^ 32 } in
      let ib : IsBatch b = record {
        entries = i.batch_ok.entries;
        short = i.batch_ok.short;
        window_low = i.batch_ok.window_low;
        window_high = i.batch_ok.window_high;
      } in
      let (ok, same) = adaptive_window_resize-IsBatch now b ib in
      let (e, c, o, v) = adaptive_window_resize-same now b in
      record {
        batch_ok = ok;
        account = λ p. omega (arith, i.account p, same p);
        emptied = λ f. (c ∙ (i.emptied (sym e ∙ f)).0, o ∙ (i.emptied (sym e ∙ f)).1);
        version_low = omega (arith, v, i.version_low);
        ordered = i.ordered;
      }

  act-Idle :
      (x : Action) (s : Thread)
      → InSpace x
      → fills hash tid unset true x s ≡ false
      → IsIdle s
      → IdleIf (act hash tid unset true x s)
  unfolding act fills free_canonical
  act-Idle (free now start n_alias index alloc_size a) s (pos, small, fits) full i =
      let e : n_alias * 4096 % 2 ^ 32 ≡ n_alias * 4096 = omega arith in
      let s' = counted hash tid unset true now n_alias (try_deferred_free hash s) in
      end_free-Idle index alloc_size a
        (put_pages hash tid unset true (pages start (n_alias * 4096 % 2 ^ 32)) s')
        (put_pages-IsSound hash tid unset succeeds (pages start (n_alias * 4096 % 2 ^ 32)) s' pos
          (omega (arith, e)) full
          (counted-IsSound now n_alias (try_deferred_free hash s)
            (try_deferred_free-IsSound hash s i)))
  act-Idle fault s h full (i, passed) = elim (Bool-cases s.batch.buf_empty) [
    | inl e ↦ simp e (i, passed)
    | inr e ↦
        simp e (let (k, gone) = flush_thread-IsSound hash tid unset succeeds s i in (k, λ f. gone))
  ]

  run-Idle :
      (l : List Action) (s : Thread)
      → AllInSpace l
      → never_full hash tid unset true l s ≡ true
      → IsIdle s
      → IdleIf (run hash tid unset true l s)
  unfolding run never_full
  run-Idle [] s h full i = i
  run-Idle (x ∷ l) s (h, k) full i =
      go (act hash tid unset true x s) (act-Idle x s h (ground (arith, full)) i)
        (ground (arith, full)) (λ s'. run-Idle l s' k)
    where
      go :
          (o : Option Thread)
          → IdleIf o
          → (elim o [ none ↦ true | some s' ↦ never_full hash tid unset true l s' ]) ≡ true
          → ((s' : Thread)
              → never_full hash tid unset true l s' ≡ true
              → IsIdle s'
              → IdleIf (run hash tid unset true l s'))
          → IdleIf (elim o [ none ↦ none | some s' ↦ run hash tid unset true l s' ])
      go none j f next = absurd j
      go (some s') j f next = next s' f j

  pub new_thread-Idle : (cur_len : ℕ → ℕ) → IsIdle (new_thread cur_len)
  unfolding covers
  new_thread-Idle cur_len = (
    record {
      batch_ok = new_batch-IsBatch unset succeeds;
      account = λ p. ground arith;
      emptied = λ e. (refl, refl);
      version_low = omega arith;
      ordered = tt;
    },
    λ e p. ground arith,
  )

  -- For any sequence of frees by a thread that starts with nothing deferred, and of flushes of its batch
  -- on page faults, each free of less than 2 ^ 20 pages above 0 and below 2 ^ 64, where `flush` finds
  -- its memory, the page table takes every unmapping, and no free comes to a full buffer: all of them
  -- run, and whenever a canonical address was linked into the hash or given to mimalloc, every page
  -- that had been put into the batch by then was unmapped as often as it had been put.
  pub run-Ordered :
      (l : List Action) (cur_len : ℕ → ℕ)
      → AllInSpace l
      → never_full hash tid unset true l (new_thread cur_len) ≡ true
      → (s : Thread) × (run hash tid unset true l (new_thread cur_len) ≡ some s)
        × Ordered s.canon.events
  run-Ordered l cur_len h full =
      go (run hash tid unset true l (new_thread cur_len))
        (run-Idle l (new_thread cur_len) h full (new_thread-Idle cur_len))
    where
      go : (o : Option Thread) → IdleIf o → (s : Thread) × (o ≡ some s) × Ordered s.canon.events
      go none i = absurd i
      go (some s) i = (s, refl, i.0.ordered)
