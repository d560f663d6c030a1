-- ===== src/FreeBatch/Conserve.antt =====
-- Where flushes succeed, `free_pages` loses no page and unmaps no page early.
use budalloc.Prelude.{
  ℕ, suc, ◌+◌, ◌*◌, ◌%◌, ◌^◌, ◌≤◌, ◌<◌, ◌≡◌, refl, ◌⊎◌, inl, inr, Bool, true, false, Option, none,
  some, List, [], ◌∷◌, ltb, ◌==◌, arith, length, Bool-cases,
}
use budalloc.FreeBatch.{
  Pages, pages, Batch, adaptive_window_resize, join_one_of, with_entries, flush, put_first, push,
  push_or_join, add_pages, and_flush, flush_if_many, free_pages,
}
use budalloc.FreeBatch.Flush.{within, covers, pending, covers-append, Flushed, flush_lem}
use budalloc.FreeBatch.Pending.{
  AllUsed, IsBatch, adaptive_window_resize-IsBatch, JoinedOne, join_one_of_lem,
}

-- What a step may leave of a batch that takes new pages: no write behind the buffer, a batch as it
-- should be, and each address as often pending or unmapped as it was pending or is new.
abbrev pub Freed : Pages → Batch → Option (Batch × List Pages) → Type 0
Freed new b none = ⊥
Freed new b (some (b', calls)) =
    IsBatch b' × ((a : ℕ) → pending a b' + covers a calls ≡ pending a b + within a new)

-- The same, and the pages pending are no more than the window, by the count.
abbrev pub Settled : Pages → Batch → Option (Batch × List Pages) → Type 0
Settled new b none = ⊥
Settled new b (some (b', calls)) =
    IsBatch b'
    × (b'.buf_cnt ≤ b'.window_size)
    × ((a : ℕ) → pending a b' + covers a calls ≡ pending a b + within a new)

module _ (unset : Pages → ℕ) (succeeds : (r : Pages) → unset r ≡ 0) where
  pub Flushed-IsBatch :
      (b b' : Batch) (calls : List Pages) (ok : Bool)
      → IsBatch b
      → Flushed unset succeeds b (b', calls, ok)
      → IsBatch b' × ((a : ℕ) → pending a b' ≡ 0)
  unfolding covers
  Flushed-IsBatch b b' calls ok i f = (
    record {
      entries = inl (f.1, f.2);
      short = rw f.2 (omega arith);
      window_low = rw f.6 i.window_low;
      window_high = rw f.6 i.window_high;
    },
    λ a. rw (f.1, f.2) (ground arith),
  )

  module _ (new : Pages) (start_pos : 0 < new.start) (fits : new.start + new.len < 2 ^ 64) where
    put_first_lem :
        (b : Batch) (x : Batch × List Pages × Bool)
        → IsBatch b
        → Flushed unset succeeds b x
        → Freed new b (put_first unset true new x)
    unfolding put_first covers
    put_first_lem b (b', calls, false) i f = absurd (cc f.0)
    put_first_lem b (b', calls, true) i f =
        let (i', none_left) = Flushed-IsBatch b b' calls true i f in
        (
          record {
            entries = inr (start_pos, fits, rw f.2 tt);
            short = i'.short;
            window_low = i'.window_low;
            window_high = i'.window_high;
          },
          λ a. omega (arith, none_left a, f.7 a),
        )

    push_lem :
        (b : Batch) → IsBatch b → AllUsed (b.cur ∷ b.older) → Freed new b (push unset true new b)
    unfolding push covers
    push_lem b i u = elim (Bool-cases (suc (length b.older) == 256)) [
      | inl e ↦ rw e (put_first_lem b (flush unset true b) i (flush_lem unset succeeds b))
      | inr e ↦ rw e (
        record {
          entries = inr (start_pos, fits, u);
          short = ground (arith, i.short);
          window_low = i.window_low;
          window_high = i.window_high;
        },
        λ a. omega arith,
      )
    ]

    push_or_join_lem :
        (b : Batch) (o : Option (List Pages))
        → IsBatch b
        → AllUsed (b.cur ∷ b.older)
        → JoinedOne new start_pos fits (b.cur ∷ b.older) o
        → Freed new b (push_or_join unset true new b o)
    unfolding push_or_join with_entries covers
    push_or_join_lem b none i u j = push_lem b i u
    push_or_join_lem b (some []) i u j = absurd (omega (arith, j.1))
    push_or_join_lem b (some (r ∷ l)) i u j = (
      record {
        entries = inr j.0;
        short = omega (arith, j.1, i.short);
        window_low = i.window_low;
        window_high = i.window_high;
      },
      λ a. omega (arith, j.2 a),
    )

    pub add_pages_lem : (b : Batch) → IsBatch b → Freed new b (add_pages unset true new b)
    unfolding add_pages covers
    add_pages_lem b i = go i.entries
      where
        go :
            ((b.cur ≡ pages 0 0) × (b.older ≡ [])) ⊎ AllUsed (b.cur ∷ b.older)
            → Freed new b (add_pages unset true new b)
        go (inl (c, o)) =
            let e : (b.cur.start == 0) ≡ true = rw c refl in
            rw e (
              record {
                entries = inr (start_pos, fits, rw o tt);
                short = i.short;
                window_low = i.window_low;
                window_high = i.window_high;
              },
              λ a. rw (c, o) (ground arith),
            )
        go (inr u) =
            let e : (b.cur.start == 0) ≡ false = ground (arith, u.0) in
            rw e (
              push_or_join_lem b (join_one_of 3 new (b.cur ∷ b.older)) i u
                (join_one_of_lem new start_pos fits 3 (b.cur ∷ b.older) u))

    and_flush_lem :
        (b b' : Batch) (calls : List Pages) (x : Batch × List Pages × Bool)
        → Freed new b (some (b', calls))
        → Flushed unset succeeds b' x
        → Settled new b (some (and_flush unset true calls x))
    unfolding and_flush
    and_flush_lem b b' calls (b'', more, ok) h f =
        let (i, none_left) = Flushed-IsBatch b' b'' more ok h.0 f in
        (
          i,
          omega (arith, f.4),
          λ a. omega (arith, covers-append a calls more, none_left a, f.7 a, h.1 a),
        )

    flush_if_many_lem :
        (b : Batch) (o : Option (Batch × List Pages))
        → Freed new b o
        → Settled new b (flush_if_many unset true o)
    unfolding flush_if_many
    flush_if_many_lem b none h = absurd h
    flush_if_many_lem b (some (b', calls)) h = elim (Bool-cases (ltb b'.window_size b'.buf_cnt)) [
      | inl e ↦
          rw e (and_flush_lem b b' calls (flush unset true b') h (flush_lem unset succeeds b'))
      | inr e ↦ rw e (h.0, ground arith, h.1)
    ]

  -- For a batch as `__ota_free` keeps it, less than 2 ^ 20 pages that start above 0 and end below
  -- 2 ^ 64, memory that `flush` finds and a page table that takes every unmapping: `__ota_free` does
  -- not write behind the buffer, leaves a batch as it should be, whose count is within the window, and
  -- each address is as often pending or unmapped as it was pending or is freed now.
  pub free_pages_lem :
      (now start n_alias : ℕ) (b : Batch)
      → IsBatch b
      → 0 < start
      → n_alias < 2 ^ 20
      → start + n_alias * 4096 < 2 ^ 64
      → Settled (pages start (n_alias * 4096)) b (free_pages unset true now start n_alias b)
  unfolding free_pages
  free_pages_lem now start n_alias b i start_pos small fits =
      let e : n_alias * 4096 % 2 ^ 32 ≡ n_alias * 4096 = omega arith in
      let counted : Batch = record b { buf_cnt = (b.buf_cnt + n_alias) % 2 ^ 32 } in
      let i' : IsBatch counted = record {
        entries = i.entries;
        short = i.short;
        window_low = i.window_low;
        window_high = i.window_high;
      } in
      let (resized, same) = adaptive_window_resize-IsBatch now counted i' in
      let counted' = adaptive_window_resize now counted in
      let new = pages start (n_alias * 4096) in
      let added = add_pages_lem new start_pos fits (adaptive_window_resize now counted) resized in
      rw e (
        settle new counted'
          (flush_if_many unset true (add_pages unset true new (adaptive_window_resize now counted)))
          (flush_if_many_lem new start_pos fits (adaptive_window_resize now counted)
            (add_pages unset true new (adaptive_window_resize now counted)) added)
          same)
    where
      settle :
          (new : Pages) (c : Batch) (o : Option (Batch × List Pages))
          → Settled new c o
          → ((a : ℕ) → pending a c ≡ pending a b)
          → Settled new b o
      settle new c none h same = h
      settle new c (some (b', calls)) h same = (h.0, h.1, λ a. omega (arith, h.2 a, same a))
