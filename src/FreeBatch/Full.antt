-- ===== src/FreeBatch/Full.antt =====
-- A free that meets a full buffer: what `buf_empty` and `buf_cnt` say of the batch behind it.
use budalloc.Prelude.{
  ℕ, suc, ◌≡◌, ◌≢◌, refl, Bool, true, false, Option, none, some, List, ◌∷◌, ◌==◌, arith, length,
}
use budalloc.FreeBatch.{Pages, Batch, flush, put_first, push, push_or_join, add_pages, join_one_of}
use budalloc.FreeBatch.Flush.{covers, pending, Flushed, flush_lem}

module _ (unset : Pages → ℕ) (succeeds : (r : Pages) → unset r ≡ 0) (new : Pages) (b : Batch) where
  abbrev TakenAsEmpty : Option (Batch × List Pages) → Type 0
  TakenAsEmpty o =
      (b' : Batch) × (calls : List Pages) × (o ≡ some (b', calls))
      × (b'.cur ≡ new)
      × (b'.buf_empty ≡ true)
      × (b'.buf_cnt ≡ 0)
      × ((a : ℕ) → covers a calls ≡ pending a b)

  put_first_lem :
      (x : Batch × List Pages × Bool)
      → Flushed unset succeeds b x
      → TakenAsEmpty (put_first unset true new x)
  unfolding put_first
  put_first_lem (b', calls, false) f = absurd (cc f.0)
  put_first_lem (b', calls, true) f = (record b' { cur = new }, calls, refl, refl, f.3, f.4, f.7)

  -- Where the buffer is full, the new pages join none of the entries tried, `flush` finds its memory
  -- and the page table takes every unmapping: what was pending is unmapped, the new pages are put into
  -- the buffer, and `buf_empty` is true and `buf_cnt` is 0 all the same.
  pub add_pages-full :
      suc (length b.older) ≡ 256
      → b.cur.start ≢ 0
      → join_one_of 3 new (b.cur ∷ b.older) ≡ none
      → (b' : Batch) × (calls : List Pages) × (add_pages unset true new b ≡ some (b', calls))
        × (b'.cur ≡ new)
        × (b'.buf_empty ≡ true)
        × (b'.buf_cnt ≡ 0)
        × ((a : ℕ) → covers a calls ≡ pending a b)
  unfolding add_pages push_or_join push
  add_pages-full full in_use apart =
      let e : (b.cur.start == 0) ≡ false = ground (arith, in_use) in
      let f : (suc (length b.older) == 256) ≡ true = ground (arith, full) in
      rw (e, apart, f) (put_first_lem (flush unset true b) (flush_lem unset succeeds b))
