-- ===== src/PageFault.antt =====
-- The page fault program, `page_fault` and `prefetch_fn` of libkernel/src/memory/page_fault.bpf.c. The
-- iterator over the trie is a parameter: it gives the word of the faulting page and, round by round,
-- that of the page behind. CONFIG_BATCHED_FREE and CONFIG_TRIE_CACHE are on, debugging is off.
pub mod Run
pub mod Rounds
pub mod Mapping
pub mod Skipping
mod Tests
use Prim.Native.Nat.{bit_or}
use budalloc.Prelude.{
  ℕ, zero, suc, ◌+◌, ◌-◌, ◌*◌, ◌/◌, ◌%◌, ◌^◌, Bool, true, false, not, ◌&&◌, ◌||◌, Option, none,
  some, List, [], ◌∷◌, ltb, leb, ◌==◌, if◌then◌else◌, add64,
}
use budalloc.FreeBatch.{Pages, Batch}
use budalloc.FreeBatch.Fault.{flush_alias_free_buf}
use budalloc.Deferred.{get_flush, get_buf_ver, get_tid}

-- A call of `bpf_set_page_table`: from which page on, how many bytes, and the canonical page.
pub record Mapped : Type 0 where
  pub vaddr : ℕ
  pub len : ℕ
  pub canon : ℕ

abbrev pub mapped : ℕ → ℕ → ℕ → Mapped
mapped v l c = record { vaddr = v; len = l; canon = c }

-- `trie_entry & (PAGE_MASK & TRIE_META_MASK)`
unfoldable pub canon_page_of : ℕ → ℕ
canon_page_of entry = entry % 2 ^ 48 / 4096 * 4096

-- `trie_entry & PAGE_META_MAPPED`
unfoldable pub is_mapped : ℕ → Bool
is_mapped entry = not (entry % 2 == 0)

-- What `next` gives: whether it changed the table of level 1, and the word, if it finds one.
pub record Round : Type 0 where
  pub l1_changed : Bool
  pub entry : Option ℕ

-- `struct prefetch_ctx`, with -1 as `none`, the batches of the threads, and what the program did, the
-- last first: the calls of `bpf_set_page_table`, and the words that it marked as mapped.
pub record Ctx : Type 0 where
  pub alias_page : ℕ
  pub alias_len : ℕ
  pub canon_page : ℕ
  pub need_unlock : Bool
  pub window_size : ℕ
  pub reuse_thread_idx : Option ℕ
  pub need_flush : Bool
  pub perthread : ℕ → Batch
  pub calls : List Mapped
  pub marks : List ℕ

-- `unset`, `found` and `got` say how a flush goes: what `bpf_unset_page_table` answers, whether the
-- buffer of a thread is found, and whether its lock is taken.
module _ (unset : Pages → ℕ) (found got : ℕ → Bool) where
  -- `flush_alias_free_buf` for a thread index: the answer and the batches.
  unfoldable pub flush_thread_buf : ℕ → ℕ → (ℕ → Batch) → ℕ × (ℕ → Batch)
  flush_thread_buf thread_index version perthread =
      let t = thread_index % 64 in
      let (ret, b, calls, locked) =
        flush_alias_free_buf unset (found t) version (perthread t) (got t) (perthread t) in
      (ret, λ i. if i == t then b else perthread i)

  -- The flush that a marked word asks for, by the thread that was flushed last: `false` where it fails.
  unfoldable pub flush_known : Option ℕ → ℕ → Ctx → Ctx × Bool
  flush_known none entry c = (c, true)
  flush_known (some last) entry c =
      if get_flush entry == 1 && (not (get_tid entry == last) || c.need_flush)
      then (let (ret, perthread) =
            flush_thread_buf (get_tid entry) (get_buf_ver entry) c.perthread in
          if ret == 0
          then (
            record c {
              reuse_thread_idx = some (get_tid entry);
              need_flush = false;
              perthread = perthread;
            },
            true,
          )
          else (record c { perthread = perthread }, false))
      else (c, true)

  unfoldable pub flush_marked : ℕ → Ctx → Ctx × Bool
  flush_marked entry c = flush_known c.reuse_thread_idx entry c

  -- From the label `map` on: the run is mapped, and where the window allows it the page at `cur` begins
  -- the next. The second part is whether `bpf_loop` goes on.
  unfoldable pub map_run : ℕ → Ctx → Ctx × Bool
  map_run cur c =
      let done = mapped c.alias_page c.alias_len c.canon_page ∷ c.calls in
      if ltb 1 c.window_size
      then (
        record c {
          calls = done;
          alias_page = add64 c.alias_page c.alias_len;
          canon_page = cur;
          alias_len = 4096;
          window_size = c.window_size - 1;
        },
        true,
      )
      else (record c { calls = done }, false)

  -- A page that is usable: it joins the run where it has the same canonical page.
  unfoldable pub join_run : Bool → ℕ → Ctx → Ctx × Bool
  join_run last entry c =
      let longer = record c { marks = bit_or entry 1 ∷ c.marks; alias_len = c.alias_len + 4096 } in
      if not (canon_page_of entry == c.canon_page)
      then map_run (canon_page_of entry) c
      else if last
      then map_run (canon_page_of entry) (record longer { window_size = 0 })
      else (longer, true)

  unfoldable pub after_flush : Bool → ℕ → Ctx × Bool → Ctx × Bool
  after_flush last entry (c, true) = join_run last entry c
  after_flush last entry (c, false) = map_run 0 (record c { window_size = 0 })

  unfoldable pub prefetch_entry : Bool → Option ℕ → Ctx → Ctx × Bool
  prefetch_entry last none c = map_run 0 (record c { need_unlock = false; window_size = 0 })
  prefetch_entry last (some entry) c =
      if entry == 0 || is_mapped entry
      then map_run 0 (record c { window_size = 0 })
      else after_flush last entry (flush_marked entry c)

  -- `prefetch_fn`; ALIAS_PREFETCH_LENGTH is 256. Where the window is 0, `cur_canon_page` is not read.
  unfoldable pub prefetch_fn : ℕ → Round → Ctx → Ctx × Bool
  prefetch_fn index r c =
      prefetch_entry (index == 255) r.entry (record c { need_flush = c.need_flush || r.l1_changed })

  -- `bpf_loop` with `n` rounds to go.
  unfoldable pub loop : ℕ → ℕ → (ℕ → Round) → Ctx → Ctx
  loop zero index rounds c = c
  loop (suc n) index rounds c =
      let (c', go_on) = prefetch_fn index (rounds index) c in
      let rest = loop n (suc index) rounds c' in if go_on then rest else c'

-- `window_prev_vaddr`, `window_prev_size`, and of `struct mm_struct` `cur_flush_idx`,
-- `max_perthread_num` and the batches of `perthread`.
pub record Machine : Type 0 where
  pub window_prev_vaddr : ℕ
  pub window_prev_size : ℕ
  pub cur_flush_idx : ℕ
  pub max_perthread_num : ℕ
  pub perthread : ℕ → Batch

-- The window for a class, and the new `window_prev_size`. CONFIG_ALIAS_WINDOW_SIZE_MAX is 256 and
-- CONFIG_ALIAS_WINDOW_SIZE_MIN is 1.
unfoldable pub window_for : ℕ → ℕ → Machine → ℕ × ℕ
window_for alloc_idx vaddr_page m =
    let doubled =
      if ltb m.window_prev_size 256 then m.window_prev_size * 2 else m.window_prev_size in
    let size = if vaddr_page == m.window_prev_vaddr then doubled else 1 in
    if ltb alloc_idx 28 then (256, m.window_prev_size) else (size, size)

-- The thread whose turn it is to be flushed, and the new `cur_flush_idx`.
unfoldable pub turn : Machine → ℕ × ℕ
turn m =
    if m.max_perthread_num == 1
    then (0, m.cur_flush_idx)
    else if leb m.max_perthread_num m.cur_flush_idx
    then (m.cur_flush_idx - m.max_perthread_num, (m.cur_flush_idx - m.max_perthread_num + 1) % 64)
    else (m.cur_flush_idx, m.cur_flush_idx + 1)

-- What the program answers, with what it did.
pub record Answer : Type 0 where
  pub ret : ℕ
  pub calls : List Mapped
  pub marks : List ℕ
  pub machine : Machine

abbrev pub stops : ℕ → Machine → Answer
stops ret m = record { ret = ret; calls = []; marks = []; machine = m }

module _ (unset : Pages → ℕ) (found got : ℕ → Bool) where
  -- The flush for the faulting page: the answer, the thread as the rounds know it, and the machine.
  -- N_VERSIONS is 8.
  unfoldable pub flush_first : ℕ → Machine → ℕ × Option ℕ × Machine
  flush_first entry m =
      if get_flush entry == 1
      then (let (ret, perthread) =
            flush_thread_buf unset found got (get_tid entry) (get_buf_ver entry) m.perthread in
          (ret, some (get_tid entry), record m { perthread = perthread }))
      else (let (index, next_idx) = turn m in
          let (ret, perthread) = flush_thread_buf unset found got index 8 m.perthread in
          (0, none, record m { cur_flush_idx = next_idx; perthread = perthread }))

  abbrev pub first_ctx : ℕ → ℕ → ℕ → Option ℕ → Machine → Ctx
  first_ctx vaddr_page entry window reuse m = record {
    alias_page = vaddr_page;
    alias_len = 4096;
    canon_page = canon_page_of entry;
    need_unlock = true;
    window_size = window;
    reuse_thread_idx = reuse;
    need_flush = false;
    perthread = m.perthread;
    calls = [];
    marks = bit_or entry 1 ∷ [];
  }

  unfoldable pub after_loop : ℕ → Machine → Ctx → Answer
  after_loop alloc_idx m c = record {
    ret = 0;
    calls = c.calls;
    marks = c.marks;
    machine = record m {
      window_prev_vaddr =
          if ltb 28 alloc_idx then add64 c.alias_page c.alias_len else m.window_prev_vaddr;
      perthread = c.perthread;
    };
  }

  -- The rounds, unless the batch of the thread is locked.
  unfoldable pub map_pages : ℕ → ℕ → ℕ → (ℕ → Round) → ℕ × Option ℕ × Machine → Answer
  map_pages vaddr_page entry window rounds (ret, reuse, m) =
      if ret == 2
      then stops 0 m
      else after_loop (entry / 2 ^ 48 % 64) m
          (loop unset found got 256 0 rounds (first_ctx vaddr_page entry window reuse m))

  -- The word of the page is read.
  unfoldable pub fault_entry : ℕ → ℕ → (ℕ → Round) → Machine → Answer
  fault_entry vaddr_page entry rounds m =
      if entry == 0
      then stops 1 m
      else if is_mapped entry
      then stops 0 m
      else (let (window, size) = window_for (entry / 2 ^ 48 % 64) vaddr_page m in
          map_pages vaddr_page entry window rounds
            (flush_first entry (record m { window_prev_size = size })))

  -- `page_fault` at an address: whether `mm` is found and `fork_lock` taken, the word that the iterator
  -- finds for the page, if it finds one, what `trylock_failed` holds, and the rounds behind. ALIAS_BASE
  -- is 0x100100000000.
  unfoldable pub page_fault : ℕ → Bool → Bool → Option ℕ → Bool → (ℕ → Round) → Machine → Answer
  page_fault vaddr mm_found fork_free p_entry trylock_failed rounds m =
      if ltb vaddr 0x100100000000
      then record (stops 0 m) {
        calls = mapped (vaddr / 4096 * 4096) 4096 (vaddr / 4096 * 4096) ∷ [];
      }
      else if not mm_found
      then stops 1 m
      else if not fork_free
      then stops 0 m
      else elim p_entry [
        | none ↦ stops (if trylock_failed then 0 else 1) m
        | some entry ↦ fault_entry (vaddr / 4096 * 4096) entry rounds m
      ]
