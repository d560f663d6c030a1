-- ===== src/FreeBatch.antt =====
-- The batch of freed alias pages of one thread: the buffer of `struct mm_per_thread` as `__ota_free`
-- of libkernel/src/alloc/alloc_alias.c fills it, and `flush` of libkernel/src/memory/page_ops.bpf.c,
-- which empties it. CONFIG_BATCHED_FREE and CONFIG_ADOPTIVE_BATCHED_FREE are on.
pub mod Flush
pub mod Pending
pub mod Conserve
pub mod History
pub mod Full
pub mod Fault
mod Tests
use budalloc.Prelude.{
  ℕ, zero, suc, ◌+◌, ◌-◌, ◌*◌, ◌/◌, ◌%◌, ◌^◌, Bool, true, false, not, ◌&&◌, Option, none, some,
  List, [], ◌∷◌, ◌++◌, ltb, ◌==◌, if◌then◌else◌, add64, length,
}

-- `struct contiguous_alias`
pub record Pages : Type 0 where
  pub start : ℕ
  pub len : ℕ

abbrev pub pages : ℕ → ℕ → Pages
pages s n = record { start = s; len = n }

-- The fields of `struct mm_per_thread` that the batch uses. `*free_alias_buf` is cut at `buf_index`:
-- `cur` is the entry there, `older` the entries below it from the nearest on, and `buf_index` is the
-- length of `older`. The entries above are not used.
pub record Batch : Type 0 where
  pub cur : Pages
  pub older : List Pages
  pub buf_empty : Bool
  pub buf_cnt : ℕ
  pub buf_version : ℕ
  pub window_size : ℕ
  pub msecs : ℕ

-- What `thread_init` sets, in memory that is 0.
abbrev pub new_batch : Batch
new_batch = record {
  cur = pages 0 0;
  older = [];
  buf_empty = true;
  buf_cnt = 0;
  buf_version = 0;
  window_size = 1;
  msecs = 0;
}

-- The window after a look at the counter: CONFIG_BATCHED_FREE_MAX_PAGES is 1024.
unfoldable pub next_window : ℕ → ℕ → ℕ
next_window window cnt =
    let wider = window * 4 % 2 ^ 32 in
    let narrower = window / 2 in
    if ltb (window / 4 + 1) cnt
    then if ltb 1024 wider then 1024 else wider
    else if window == cnt
    then window
    else if ltb narrower 1
    then 1
    else narrower

-- `adaptive_window_resize` at `now` milliseconds of CLOCK_MONOTONIC, which never goes back.
unfoldable pub adaptive_window_resize : ℕ → Batch → Batch
adaptive_window_resize now b =
    if (now - b.msecs) / 100 % 2 ^ 32 == 0
    then b
    else record b { msecs = now; window_size = next_window b.window_size b.buf_cnt }

-- The two tests on an entry: the pages follow it, or it follows them.
unfoldable pub join : Pages → Pages → Option Pages
join r new =
    if add64 r.start r.len == new.start
    then some (pages r.start (add64 r.len new.len))
    else if add64 new.start new.len == r.start
    then some (pages new.start (add64 r.len new.len))
    else none

-- The loop over the last `max_match` entries that there are.
unfoldable pub join_one_of : ℕ → Pages → List Pages → Option (List Pages)
join_one_of zero new l = none
join_one_of (suc max_match) new [] = none
join_one_of (suc max_match) new (r ∷ l) =
    let rest = join_one_of max_match new l in
    elim (join r new) [
      | some r' ↦ some (r' ∷ l)
      | none ↦ elim rest [ none ↦ none | some l' ↦ some (r ∷ l') ]
    ]

-- The entries as a cut again.
unfoldable pub with_entries : Batch → List Pages → Batch
with_entries b [] = b
with_entries b (r ∷ l) = record b { cur = r; older = l }

-- `unset` is what `bpf_unset_page_table` answers for the pages, and `found` whether `flush` finds its
-- memory by `bpf_uaddr_to_kaddr`.
module _ (unset : Pages → ℕ) (found : Bool) where
  -- The loop of `flush`, from the first entry on: the entries it leaves, the pages for which it calls
  -- `bpf_unset_page_table`, and whether it came to the end.
  unfoldable pub unset_all : List Pages → List Pages × List Pages × Bool
  unset_all [] = ([], [], true)
  unset_all (r ∷ l) =
      let (l', calls, ok) = unset_all l in
      if ok then (pages 0 0 ∷ l', calls ++ r ∷ [], unset r == 0) else (r ∷ l', calls, false)

  -- The end of `flush`, with whether it came there.
  unfoldable pub emptied : Batch → List Pages × List Pages × Bool → Batch × List Pages × Bool
  emptied b (l, calls, true) = (
    record b {
      cur = pages 0 0;
      older = [];
      buf_cnt = 0;
      buf_empty = true;
      buf_version = (b.buf_version + 1) % 8;
    },
    calls,
    true,
  )
  emptied b (l, calls, false) = (with_entries b l, calls, false)

  -- `flush`, with the pages for which it calls `bpf_unset_page_table`.
  unfoldable pub flush : Batch → Batch × List Pages × Bool
  flush b = if found then emptied b (unset_all (b.cur ∷ b.older)) else (b, [], false)

  -- The entry is put first into the buffer that was flushed. Where the flush failed `buf_index` is
  -- 256, and the entry is written behind the buffer: `none`.
  unfoldable pub put_first : Pages → Batch × List Pages × Bool → Option (Batch × List Pages)
  put_first new (b, calls, true) = some (record b { cur = new }, calls)
  put_first new (b, calls, false) = none

  -- A new entry: FREE_ALIAS_BUF_SIZE is 256, and a buffer that is full is flushed first.
  unfoldable pub push : Pages → Batch → Option (Batch × List Pages)
  push new b =
      if suc (length b.older) == 256
      then put_first new (flush b)
      else some (record b { cur = new; older = b.cur ∷ b.older }, [])

  -- CONFIG_BATCHED_FREE_MAX_MATCH is 3.
  unfoldable pub push_or_join : Pages → Batch → Option (List Pages) → Option (Batch × List Pages)
  push_or_join new b none = push new b
  push_or_join new b (some l) = some (with_entries b l, [])

  unfoldable pub add_pages : Pages → Batch → Option (Batch × List Pages)
  add_pages new b =
      if b.cur.start == 0
      then some (record b { cur = new; buf_empty = false }, [])
      else push_or_join new b (join_one_of 3 new (b.cur ∷ b.older))

  -- The flush behind `job_added_succ`; what it answers is not looked at.
  unfoldable pub and_flush : List Pages → Batch × List Pages × Bool → Batch × List Pages
  and_flush calls (b, more, ok) = (b, calls ++ more)

  unfoldable pub flush_if_many : Option (Batch × List Pages) → Option (Batch × List Pages)
  flush_if_many none = none
  flush_if_many (some (b, calls)) =
      some (if ltb b.window_size b.buf_cnt then and_flush calls (flush b) else (b, calls))

  -- What `__ota_free` does to the batch with the `n_alias` pages from `start` on. The length is an
  -- `unsigned int`.
  unfoldable pub free_pages : ℕ → ℕ → ℕ → Batch → Option (Batch × List Pages)
  free_pages now start n_alias b =
      let counted = record b { buf_cnt = (b.buf_cnt + n_alias) % 2 ^ 32 } in
      flush_if_many
        (add_pages (pages start (n_alias * 4096 % 2 ^ 32)) (adaptive_window_resize now counted))
