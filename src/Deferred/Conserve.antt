-- ===== src/Deferred/Conserve.antt =====
-- No canonical address is lost between its free and its return, and none is returned twice.
use budalloc.Prelude.{
  ℕ, ◌+◌, ◌*◌, ◌%◌, ◌^◌, ◌<◌, ◌≡◌, refl, true, Option, none, some, List, [], ◌∷◌, if◌then◌else◌,
  arith, Bool-cases, inl, inr,
}
use budalloc.FreeBatch.{Pages, pages, Batch, add_pages}
use budalloc.FreeBatch.Pending.{IsBatch, adaptive_window_resize-IsBatch}
use budalloc.FreeBatch.Conserve.{Freed, add_pages_lem}
use budalloc.FreeBatch.History.{new_batch-IsBatch}
use budalloc.Deferred.{
  Thread, release_deferred, try_deferred_free, see_put, see_unmapped, put_pages, flush_if_more,
  end_free, counted, free_canonical, meets_full,
}
use budalloc.Deferred.Buckets.{one, occurs, gone, see_unmapped-kept, none_in_buckets}
use budalloc.Deferred.History.{Action, free, fault, act, run, InSpace, AllInSpace, new_thread}
use budalloc.Deferred.Held.{
  held, Holds, HoldsOnce, HoldsPut, same_held, release_deferred-held, try_deferred_free-Holds,
  flush_if_more-Holds, keep_canonical-Holds, emptied_thread,
}

-- How often a sequence of actions frees it.
unfoldable pub frees : ℕ → Action → ℕ
frees a (free now start n_alias index alloc_size b) = one a b
frees a fault = 0

unfoldable pub all_frees : ℕ → List Action → ℕ
all_frees a [] = 0
all_frees a (x ∷ l) = frees a x + all_frees a l

module _ (hash : ℕ → ℕ) (bounded : (k : ℕ) → hash k < 64) where
  module _ (tid : ℕ) (unset : Pages → ℕ) (succeeds : (r : Pages) → unset r ≡ 0) where
    put_pages-Holds :
        (new : Pages) (s : Thread)
        → 0 < new.start
        → new.start + new.len < 2 ^ 64
        → IsBatch s.batch
        → HoldsPut s (put_pages hash tid unset true new s)
    unfolding put_pages see_put held gone
    put_pages-Holds new s pos fits i =
        go (add_pages unset true new s.batch) (add_pages_lem unset succeeds new pos fits s.batch i)
      where
        go :
            (o : Option (Batch × List Pages))
            → Freed new s.batch o
            → HoldsPut s (elim o [
              | none ↦ none
              | some (b, calls) ↦ some (
                  if meets_full new s.batch
                  then (
                    see_put hash tid unset true new (
                        release_deferred hash
                          (record s { batch = b; canon = see_unmapped calls s.canon })),
                    b.buf_version,
                  )
                  else (
                    see_put hash tid unset true new (record s { batch = b }),
                    s.batch.buf_version,
                  ))
            ])
        go none f = absurd f
        go (some (b, calls)) f = elim (Bool-cases (meets_full new s.batch)) [
          | inl e ↦ rw e (
            unfold release_deferred in f.0,
            λ a. omega (
              arith,
              release_deferred-held hash bounded a
                  (record s { batch = b; canon = see_unmapped calls s.canon }),
              see_unmapped-kept a calls s.canon,
            ),
          )
          | inr e ↦ rw e (f.0, λ a. omega arith)
        ]

    counted-Holds :
        (now n_alias : ℕ) (s : Thread)
        → IsBatch s.batch
        → Holds same_held s (counted hash tid unset true now n_alias s)
    unfolding counted held
    counted-Holds now n_alias s i =
        let b : Batch = record s.batch { buf_cnt = (s.batch.buf_cnt + n_alias) % 2 ^ 32 } in
        let ib : IsBatch b = record {
          entries = i.entries;
          short = i.short;
          window_low = i.window_low;
          window_high = i.window_high;
        } in
        ((adaptive_window_resize-IsBatch now b ib).0, λ a. omega arith)

    end_free-Holds :
        (index alloc_size b : ℕ) (s : Thread) (o : Option (Thread × ℕ))
        → HoldsPut s o
        → HoldsOnce (λ a. one a b) s (end_free hash tid unset true index alloc_size b o)
    unfolding end_free
    end_free-Holds index alloc_size b s none h = absurd h
    end_free-Holds index alloc_size b s (some (s', version)) (i, h) =
        let (j, k) = flush_if_more-Holds hash bounded tid unset succeeds s' i in
        let (i', m) =
          keep_canonical-Holds hash bounded tid unset succeeds index alloc_size version b
            (flush_if_more hash tid unset true s') j in
        (
          i',
          λ a. let e = h a in let f = k a in let g = m a in unfold held in omega (arith, e, f, g),
        )

    act-Holds :
        (x : Action) (s : Thread)
        → InSpace x
        → IsBatch s.batch
        → HoldsOnce (λ a. frees a x) s (act hash tid unset true x s)
    unfolding act frees free_canonical
    act-Holds (free now start n_alias index alloc_size b) s (pos, small, fits) i =
        let e : n_alias * 4096 % 2 ^ 32 ≡ n_alias * 4096 = omega arith in
        let new = pages start (n_alias * 4096 % 2 ^ 32) in
        let s' = counted hash tid unset true now n_alias (try_deferred_free hash s) in
        let (j, h) = try_deferred_free-Holds hash bounded s i in
        let (k, m) = counted-Holds now n_alias (try_deferred_free hash s) j in
        from s s' (λ a. omega (arith, h a, m a))
          (end_free hash tid unset true index alloc_size b (put_pages hash tid unset true new s'))
          (end_free-Holds index alloc_size b s' (put_pages hash tid unset true new s')
            (put_pages-Holds new s' pos (omega (arith, e)) k))
      where
        from :
            (s s' : Thread)
            → ((a : ℕ) → held a s' ≡ held a s)
            → (o : Option Thread) → HoldsOnce (λ a. one a b) s' o
            → HoldsOnce (λ a. one a b) s o
        from s s' same none k = k
        from s s' same (some s'') (i, k) = (i, λ a. omega (arith, same a, k a))
    act-Holds fault s h i = emptied_thread hash bounded tid unset succeeds s i

    run-Holds :
        (l : List Action) (s : Thread)
        → AllInSpace l
        → IsBatch s.batch
        → HoldsOnce (λ a. all_frees a l) s (run hash tid unset true l s)
    unfolding run all_frees
    run-Holds [] s h i = (i, λ a. omega arith)
    run-Holds (x ∷ l) s (h, k) i =
        go (act hash tid unset true x s) (act-Holds x s h i) (λ s'. run-Holds l s' k)
      where
        more :
            (s' : Thread) (o : Option Thread)
            → ((a : ℕ) → held a s' ≡ held a s + frees a x)
            → HoldsOnce (λ a. all_frees a l) s' o
            → HoldsOnce (λ a. all_frees a (x ∷ l)) s o
        more s' none e j = j
        more s' (some s'') e (j, f) = (j, λ a. omega (arith, e a, f a))

        go :
            (o : Option Thread)
            → HoldsOnce (λ a. frees a x) s o
            → ((s' : Thread)
                → IsBatch s'.batch
                → HoldsOnce (λ a. all_frees a l) s' (run hash tid unset true l s'))
            → HoldsOnce
                (λ a. all_frees a (x ∷ l))
                s
                (elim o [ none ↦ none | some s' ↦ run hash tid unset true l s' ])
        go none j next = absurd j
        go (some s') (i', e) next = more s' (run hash tid unset true l s') e (next s' i')

    -- For any sequence of frees by a thread that starts with nothing deferred, and of flushes of its
    -- batch on page faults, each free of less than 2 ^ 20 pages above 0 and below 2 ^ 64, where `flush`
    -- finds its memory, the page table takes every unmapping, and the hash has 64 buckets: all of them
    -- run, full buffers included, and in the end each canonical address is as often deferred, in the
    -- hash, given to mimalloc or put back into a reservation as it was freed.
    pub run-conserves :
        (l : List Action) (cur_len : ℕ → ℕ)
        → AllInSpace l
        → (s : Thread) × (run hash tid unset true l (new_thread cur_len) ≡ some s)
          × ((a : ℕ) → held a s ≡ all_frees a l)
    unfolding held occurs gone
    run-conserves l cur_len h =
        go (run hash tid unset true l (new_thread cur_len))
          (run-Holds l (new_thread cur_len) h (new_batch-IsBatch unset succeeds))
      where
        go :
            (o : Option Thread)
            → HoldsOnce (λ a. all_frees a l) (new_thread cur_len) o
            → (s : Thread) × (o ≡ some s) × ((a : ℕ) → held a s ≡ all_frees a l)
        go none j = absurd j
        go (some s) (i, e) = (s, refl, λ a. omega (arith, e a, none_in_buckets a 64 0))
