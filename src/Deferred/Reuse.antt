-- ===== src/Deferred/Reuse.antt =====
-- A canonical address that goes back into a reservation: the mark of its word makes the page fault on
-- its next alias unmap the last one first.
use budalloc.Prelude.{
  ℕ, ◌+◌, ◌*◌, ◌%◌, ◌^◌, ◌<◌, ◌≡◌, ◌⊎◌, refl, sym, ap, ◌∙◌, Bool, true, false, not, ◌&&◌, Option,
  none, some, List, [], ◌∷◌, ◌++◌, ltb, ◌==◌, if◌then◌else◌, arith, length, Bool-cases, inl, inr,
}
use budalloc.FreeBatch.{Pages, pages, Batch, add_pages, flush}
use budalloc.FreeBatch.Flush.{pending, Flushed, flush_lem}
use budalloc.FreeBatch.Conserve.{Flushed-IsBatch}
use budalloc.FreeBatch.Pending.{IsBatch}
use budalloc.FreeBatch.Fault.{flush_alias_free_buf, as_answer, flush_alias_free_buf-flush}
use budalloc.Deferred.{
  Thread, Reservation, release_deferred, try_deferred_free, flush_thread, see_put, see_unmapped,
  put_pages, flush_if_more, reserve, keep_canonical, end_free, counted, free_canonical, reuses,
  marked, meets_full, get_flush, get_buf_ver, get_tid,
}
use budalloc.Deferred.Sound.{NonePending, IsSound, IsIdle, try_deferred_free-IsSound}
use budalloc.Deferred.Steps.{
  AddedQuietly, add_pages-quiet, flush_thread-IsSound, SoundOnce, put_pages-IsSound,
}
use budalloc.Deferred.Order.{counted-IsSound}
use budalloc.Deferred.Marks.{marked-fields}

module _ (hash : ℕ → ℕ) (tid : ℕ) (unset : Pages → ℕ) (succeeds : (r : Pages) → unset r ≡ 0) where
  -- A flush for a version that either is that of a batch not said to be empty, or finds nothing pending.
  abbrev Answers : ℕ → Batch → Type 0
  Answers version b = ((version ≡ b.buf_version) × (b.buf_empty ≡ false)) ⊎ NonePending b

  flush-none :
      (b : Batch) (version : ℕ)
      → IsBatch b
      → b.buf_version ≡ version
      → b.buf_empty ≡ false
      → NonePending (flush_alias_free_buf unset true version b true b).1
  flush-none b version i e f =
      rw (flush_alias_free_buf-flush unset true version b b e f f)
        (go (flush unset true b) (flush_lem unset succeeds b))
    where
      go :
          (x : Batch × List Pages × Bool)
          → Flushed unset succeeds b x
          → NonePending (as_answer unset false x).1
      go (b', calls, ok) k = (Flushed-IsBatch unset succeeds b b' calls ok i k).1

  Answers-none :
      (b : Batch) (version : ℕ)
      → IsBatch b
      → Answers version b
      → NonePending (flush_alias_free_buf unset true version b true b).1
  Answers-none b version i (inl (e, f)) = flush-none b version i (sym e) f
  Answers-none b version i (inr gone) = elim (Bool-cases b.buf_empty) [
    | inl e ↦
        unfold flush_alias_free_buf in
        (elim (Bool-cases (b.buf_version == version)) [
          | inl f ↦ simp (e, f) gone
          | inr f ↦ simp (e, f) gone
        ])
    | inr e ↦ elim (Bool-cases (b.buf_version == version)) [
      | inl f ↦ flush-none b version i (ground (arith, f)) e
      | inr f ↦ unfold flush_alias_free_buf in (simp (e, f) gone)
    ]
  ]

  -- The pages put, and the version that was current then.
  abbrev Current : Thread → Option (Thread × ℕ) → Type 0
  Current s none = ⊥
  Current s (some (s', version)) =
      IsSound s' × Answers version s'.batch × (s'.reservations ≡ s.reservations) × (version < 8)

  put_pages-Current :
      (new : Pages) (s : Thread)
      → 0 < new.start
      → new.start + new.len < 2 ^ 64
      → meets_full new s.batch ≡ false
      → IsSound s
      → Current s (put_pages hash tid unset true new s)
  unfolding put_pages see_put
  put_pages-Current new s pos fits full i =
      go (add_pages unset true new s.batch) (add_pages-quiet unset new s.batch i.emptied full)
        (put_pages-IsSound hash tid unset succeeds new s pos fits full i)
    where
      put_of : Option (Batch × List Pages) → Option (Thread × ℕ)
      put_of o = elim o [
        | none ↦ none
        | some (b, calls) ↦ some (
            if meets_full new s.batch
            then (
              see_put hash tid unset true new (
                  release_deferred hash
                    (record s { batch = b; canon = see_unmapped calls s.canon })),
              b.buf_version,
            )
            else (see_put hash tid unset true new (record s { batch = b }), s.batch.buf_version))
      ]

      go :
          (o : Option (Batch × List Pages))
          → AddedQuietly s.batch o
          → SoundOnce hash tid unset succeeds (put_of o)
          → Current s (put_of o)
      go none q k = k
      go (some (b, calls)) q k = rw full ((rw full at k), inl (sym q.2, q.1), refl, i.version_low)

  flush_if_more-Current :
      (version : ℕ) (s : Thread)
      → IsSound s
      → Answers version s.batch
      → IsSound (flush_if_more hash tid unset true s)
        × Answers version (flush_if_more hash tid unset true s).batch
        × ((flush_if_more hash tid unset true s).reservations ≡ s.reservations)
  unfolding flush_if_more flush_thread
  flush_if_more-Current version s i w =
      elim (Bool-cases (ltb s.batch.window_size s.batch.buf_cnt)) [
        | inl e ↦ rw e (
            let (k, gone) = flush_thread-IsSound hash tid unset succeeds s i in (k, inr gone, refl))
        | inr e ↦ rw e (i, w, refl)
      ]

  -- What a free that reuses its address leaves.
  abbrev Reused : ℕ → ℕ → Thread → Option Thread → Type 0
  Reused index a s o =
      (s' : Thread) × (version : ℕ) × (o ≡ some s')
      × ((s'.reservations index).reused
          ≡ (s.reservations index).reused ++ marked tid version a ∷ [])
      × (version < 8)
      × NonePending (flush_alias_free_buf unset true version s'.batch true s'.batch).1

  end_free-Reused :
      (index alloc_size a : ℕ) (s : Thread) (o : Option (Thread × ℕ))
      → reuses index alloc_size ≡ true
      → length (s.reservations index).reused < (s.reservations index).cur_idx
      → Current s o
      → Reused index a s (end_free hash tid unset true index alloc_size a o)
  unfolding end_free keep_canonical reserve
  end_free-Reused index alloc_size a s none re room c = absurd c
  end_free-Reused index alloc_size a s (some (s', version)) re room (i, w, same, low) =
      let (i'', w'', same'') = flush_if_more-Current version s' i w in
      let t = flush_if_more hash tid unset true s' in
      let e : t.reservations ≡ s.reservations = same'' ∙ same in
      let r : (reuses index alloc_size
            && ltb (length (t.reservations index).reused) (t.reservations index).cur_idx)
          ≡ true =
        rw (re, e) (ground (arith, room)) in
      rw r (
        record (reserve hash tid unset true index version a t) {
          prev_version = t.batch.buf_version;
        },
        version,
        refl,
        (let self : (index == index) ≡ true = ground arith in
            rw self
              (ap (λ (f : ℕ → Reservation). (f index).reused ++ marked tid version a ∷ []) e)),
        low,
        Answers-none t.batch version i''.batch_ok w'',
      )

  before :
      (now n_alias : ℕ) (s : Thread)
      → (counted hash tid unset true now n_alias (try_deferred_free hash s)).reservations
        ≡ s.reservations
  unfolding counted try_deferred_free release_deferred
  before now n_alias s =
      elim (Bool-cases ((s.prev_version == s.batch.buf_version) && not s.batch.buf_empty)) [
        | inl e ↦ rw e refl
        | inr e ↦ rw e refl
      ]

  decode :
      (index a : ℕ) (s s' : Thread)
      → s'.reservations ≡ s.reservations
      → tid < 64
      → a < 2 ^ 54
      → (o : Option Thread) → Reused index a s' o
      → (s'' : Thread) × (word : ℕ) × (o ≡ some s'')
        × ((s''.reservations index).reused ≡ (s.reservations index).reused ++ word ∷ [])
        × (get_flush word ≡ 1)
        × (get_tid word ≡ tid)
        × (word % 2 ^ 54 ≡ a)
        × ((p : ℕ)
            → pending p
                (flush_alias_free_buf unset true (get_buf_ver word) s''.batch true s''.batch).1
              ≡ 0)
  decode index a s s' same t c o (s'', version, e, r, low, gone) =
      let (f, v, h, w) = marked-fields tid version a t low c in
      (
        s'',
        marked tid version a,
        e,
        r ∙ ap (λ (g : ℕ → Reservation). (g index).reused ++ marked tid version a ∷ []) same,
        f,
        h,
        w,
        rw v gone,
      )

  -- For a thread as the frees and flushes before leave it, a free of less than 2 ^ 20 pages above 0 and
  -- below 2 ^ 64 that comes to no full buffer, of a class whose addresses are reused and whose
  -- reservation has room, at a thread index below 64 and an address below 2 ^ 54, where `flush` finds
  -- its memory and the page table takes every unmapping: the free succeeds, one word goes to the end of
  -- the words that the reservation reuses, which is marked for a flush, with the thread and with the
  -- address, and the flush that a page fault makes for the version in the word leaves no page of the
  -- thread pending.
  pub free_canonical-reuses :
      (now start n_alias index alloc_size a : ℕ) (s : Thread)
      → IsIdle s
      → 0 < start
      → n_alias < 2 ^ 20
      → start + n_alias * 4096 < 2 ^ 64
      → meets_full
          (pages start (n_alias * 4096 % 2 ^ 32))
          (counted hash tid unset true now n_alias (try_deferred_free hash s)).batch
        ≡ false
      → reuses index alloc_size ≡ true
      → length (s.reservations index).reused < (s.reservations index).cur_idx
      → tid < 64
      → a < 2 ^ 54
      → (s' : Thread) × (word : ℕ) × (free_canonical hash tid unset true now start n_alias index
            alloc_size a s
          ≡ some s')
        × ((s'.reservations index).reused ≡ (s.reservations index).reused ++ word ∷ [])
        × (get_flush word ≡ 1)
        × (get_tid word ≡ tid)
        × (word % 2 ^ 54 ≡ a)
        × ((p : ℕ)
            → pending p
                (flush_alias_free_buf unset true (get_buf_ver word) s'.batch true s'.batch).1
              ≡ 0)
  unfolding free_canonical
  free_canonical-reuses now start n_alias index alloc_size a s i pos small fits full re room t c =
      let new = pages start (n_alias * 4096 % 2 ^ 32) in
      let len : n_alias * 4096 % 2 ^ 32 ≡ n_alias * 4096 = omega arith in
      let s' = counted hash tid unset true now n_alias (try_deferred_free hash s) in
      let same = before now n_alias s in
      let i' =
        counted-IsSound hash tid unset succeeds now n_alias (try_deferred_free hash s)
          (try_deferred_free-IsSound hash s i) in
      decode index a s s' same t c
        (end_free hash tid unset true index alloc_size a (put_pages hash tid unset true new s'))
        (end_free-Reused index alloc_size a s' (put_pages hash tid unset true new s') re
          (rw same room) (put_pages-Current new s' pos (omega (arith, len)) full i'))
