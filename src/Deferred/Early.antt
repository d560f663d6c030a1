-- ===== src/Deferred/Early.antt =====
-- A free that comes to a full buffer: its canonical address is returned before its pages are unmapped.
use budalloc.Prelude.{
  ℕ, suc, ◌<◌, ◌≡◌, ◌≢◌, refl, true, false, none, some, List, [], ◌∷◌, ltb, ◌==◌, arith, length,
  Bool-cases, inl, inr,
}
use budalloc.FreeBatch.{Pages, Batch, add_pages, join_one_of}
use budalloc.FreeBatch.Full.{add_pages-full}
use budalloc.Deferred.{
  Canon, Event, put, released, Thread, canonical_free_all, canonical_free, delay_all,
  release_deferred, try_deferred_free, see_put, see_unmapped, put_pages, flush_if_more,
  keep_canonical, defer_canonical, end_free, reuses, delays, meets_full,
}
use budalloc.Deferred.Sound.{IsSound}
use budalloc.Deferred.Quiet.{AllUnmapped, Ordered, release_deferred-Quiet, see_unmapped_lem}

module _ (hash : ℕ → ℕ) (tid : ℕ) (unset : Pages → ℕ) (succeeds : (r : Pages) → unset r ≡ 0) where
  module _ (new : Pages) (in_use : 0 < new.len) (index alloc_size a : ℕ)
      (apart : reuses index alloc_size ≡ false) (is_large : delays index ≡ false) where
    -- The new pages are the last thing put, and the address is the only one deferred.
    abbrev left_behind : Batch → Canon → Thread → Thread
    left_behind b c s = record s {
      batch = b;
      small = [];
      large = a ∷ [];
      prev_version = b.buf_version;
      canon = record c { events = put new ∷ c.events };
    }

    end_free-left :
        (b : Batch) (version : ℕ) (c : Canon) (s : Thread)
        → b.buf_cnt ≡ 0
        → end_free hash tid unset true index alloc_size a (
            some (
              see_put hash tid unset true new
                  (record s { batch = b; small = []; large = []; canon = c }),
              version,
            ))
          ≡ some (left_behind b c s)
    unfolding end_free flush_if_more keep_canonical defer_canonical see_put
    end_free-left b version c s cnt =
        let e : ltb b.window_size b.buf_cnt ≡ false = simp cnt (ground arith) in
        simp (e, apart, is_large)

    early :
        (b : Batch) (c : Canon) (s : Thread)
        → b.buf_empty ≡ true
        → (try_deferred_free hash (left_behind b c s)).canon.events
          ≡ released a ∷ put new ∷ c.events
    unfolding try_deferred_free release_deferred delay_all canonical_free_all canonical_free
    early b c s empty = elim (Bool-cases (b.buf_version == b.buf_version)) [
      | inl e ↦ simp (e, empty)
      | inr e ↦ simp (e, empty)
    ]

    not-Ordered : (l : List Event) → AllUnmapped l → ¬ Ordered (released a ∷ put new ∷ l)
    not-Ordered l all o = absurd (ground (arith, all new.start, o.0 new.start, in_use))

    meets :
        (b : Batch)
        → suc (length b.older) ≡ 256
        → b.cur.start ≢ 0
        → join_one_of 3 new (b.cur ∷ b.older) ≡ none
        → meets_full new b ≡ true
    unfolding meets_full
    meets b full used alone =
        let e : (b.cur.start == 0) ≡ false = ground (arith, used) in
        let f : (suc (length b.older) == 256) ≡ true = ground (arith, full) in simp (e, f, alone)

    put_pages-full :
        (s : Thread) (b : Batch) (calls : List Pages)
        → add_pages unset true new s.batch ≡ some (b, calls)
        → meets_full new s.batch ≡ true
        → put_pages hash tid unset true new s
          ≡ some (
            see_put hash tid unset true new (
                release_deferred hash (record s { batch = b; canon = see_unmapped calls s.canon })),
            b.buf_version,
          )
    unfolding put_pages
    put_pages-full s b calls e t = rw (e, put_pages, t) refl

    -- For a thread within `__ota_free` whose batch is full, with new pages of which there is at least one
    -- byte and that join no entry, for a block of a class that is neither reused nor delayed, where
    -- `flush` finds its memory and the page table takes every unmapping: the free succeeds; at
    -- its end the canonical address of this block is the only one deferred, and the new pages, which
    -- are the pending entry, have been put last, behind events in which every address is released in
    -- its turn and at whose end no page is pending; and the next call of `try_deferred_free` releases
    -- that address and does no more, while the new pages are still pending: out of turn.
    pub end_free-early :
        (s : Thread)
        → IsSound s
        → suc (length s.batch.older) ≡ 256
        → s.batch.cur.start ≢ 0
        → join_one_of 3 new (s.batch.cur ∷ s.batch.older) ≡ none
        → (s' : Thread) × (end_free hash tid unset true index alloc_size a
              (put_pages hash tid unset true new s)
            ≡ some s')
          × (s'.batch.cur ≡ new)
          × (s'.small ≡ [])
          × (s'.large ≡ a ∷ [])
          × (l : List Event) × (s'.canon.events ≡ put new ∷ l)
          × AllUnmapped l
          × Ordered l
          × ((try_deferred_free hash s').canon.events ≡ released a ∷ put new ∷ l)
          × ¬ Ordered (released a ∷ put new ∷ l)
    end_free-early s i full used alone =
        let (b, calls, e, cur, empty, cnt, at) =
          add_pages-full unset succeeds new s.batch full used alone in
        let t : meets_full new s.batch ≡ true = meets s.batch full used alone in
        let (u, m, o) = see_unmapped_lem calls s.canon in
        let q =
          release_deferred-Quiet hash (record s { batch = b; canon = see_unmapped calls s.canon })
            (λ p. omega (arith, u p, m p, at p, i.account p), o i.ordered) in
        let c =
          (release_deferred hash
            (record s { batch = b; canon = see_unmapped calls s.canon })).canon in
        (
          left_behind b c s,
          rw (put_pages-full s b calls e t)
              (unfold release_deferred in end_free-left b b.buf_version c s cnt),
          cur,
          refl,
          refl,
          c.events,
          refl,
          q.0,
          q.1,
          early b c s empty,
          not-Ordered c.events q.0,
        )
