-- ===== src/Deferred.antt =====
-- Canonical addresses between the free of their alias pages and the return to mimalloc: the second
-- half of `__ota_free` and `try_deferred_free` of libkernel/src/alloc/alloc_alias.c, and
-- `canonical_free`, `canonical_delayed_free` and `canonical_flush_delayed_free` of
-- libkernel/src/alloc/alloc_canonical.c. CONFIG_BATCHED_FREE, CONFIG_ADOPTIVE_BATCHED_FREE,
-- CONFIG_CANONICAL_HASH_SORT and CONFIG_NDEBUG are on, so that an ASSERT is nothing.
pub mod Buckets
pub mod History
pub mod Quiet
pub mod Sound
pub mod Steps
pub mod Held
pub mod Conserve
pub mod Order
pub mod Marks
pub mod Reuse
pub mod Early
mod Tests
use Prim.Native.Nat.{bit_or}
use budalloc.Prelude.{
  ℕ, zero, suc, ◌+◌, ◌-◌, ◌*◌, ◌/◌, ◌%◌, ◌^◌, Bool, true, false, not, ◌&&◌, ◌||◌, Option, none,
  some, List, [], ◌∷◌, ◌++◌, ltb, leb, ◌==◌, if◌then◌else◌, length,
}
use budalloc.FreeBatch.{Pages, pages, Batch, adaptive_window_resize, join_one_of, add_pages, flush}

-- What a thread does, as far as it can be seen from outside: it puts pages into its batch, it calls
-- `bpf_unset_page_table`, it writes a hash entry into canonical memory, it calls `mi_free`, or it puts
-- a canonical address back into the reservation of a class.
pub data Event : Type 0 where
  put : Pages → Event
  unmapped : Pages → Event
  chained : ℕ → Event
  released : ℕ → Event
  reserved : ℕ → ℕ → Event

-- `free_hash` and `count` of the thread, and what it did, the last first.
pub record Canon : Type 0 where
  pub free_hash : ℕ → List ℕ
  pub count : ℕ
  pub events : List Event

unfoldable pub canonical_free : ℕ → Canon → Canon
canonical_free a c = record c { events = released a ∷ c.events }

-- A chain of the hash, or the buffer of large addresses, from the first entry on.
unfoldable pub canonical_free_all : List ℕ → Canon → Canon
canonical_free_all [] c = c
canonical_free_all (a ∷ l) c = canonical_free_all l (canonical_free a c)

-- `hash_for_each_safe` with `n` buckets to go, from the bucket `bkt` on.
unfoldable pub free_buckets : ℕ → ℕ → Canon → Canon
free_buckets zero bkt c = c
free_buckets (suc n) bkt c = free_buckets n (suc bkt) (canonical_free_all (c.free_hash bkt) c)

-- CONFIG_CANONICAL_HASH_SORT_BUCKET_SIZE is 6.
unfoldable pub canonical_flush_delayed_free : Canon → Canon
canonical_flush_delayed_free c = record (free_buckets 64 0 c) { free_hash = λ bkt. [] }

-- `malloc_reservations[index]`, as far as `__ota_free` uses it: `cur_idx`, and the words in the first
-- `reuse_idx` slots of `aliases`.
pub record Reservation : Type 0 where
  pub cur_idx : ℕ
  pub reused : List ℕ

-- The thread: its batch, the two buffers of `struct defer_canon`, `prev_version`, the reservations
-- and the hash. The 1024 slots of a buffer are a list, and its index is the length.
pub record Thread : Type 0 where
  pub batch : Batch
  pub small : List ℕ
  pub large : List ℕ
  pub prev_version : ℕ
  pub reservations : ℕ → Reservation
  pub canon : Canon

-- The calls of `bpf_unset_page_table` are seen in their order.
unfoldable pub see_unmapped : List Pages → Canon → Canon
see_unmapped [] c = c
see_unmapped (r ∷ l) c = see_unmapped l (record c { events = unmapped r ∷ c.events })

-- The word that goes back into a reservation: WITH_TID, WITH_BUF_VER and WITH_FLUSH of vmem.h.
unfoldable pub marked : ℕ → ℕ → ℕ → ℕ
marked tid version canon_addr =
    bit_or (bit_or (bit_or canon_addr (tid * 2 ^ 54 % 2 ^ 64)) (version * 2 ^ 60 % 2 ^ 64))
      (1 * 2 ^ 63)

-- GET_FLUSH, GET_BUF_VER and GET_TID of vmem.h, and TRIE_GET_CANON of trie.h for a multiple of 8.
unfoldable pub get_flush : ℕ → ℕ
get_flush entry = entry / 2 ^ 63

unfoldable pub get_buf_ver : ℕ → ℕ
get_buf_ver entry = entry / 2 ^ 60 % 8

unfoldable pub get_tid : ℕ → ℕ
get_tid entry = entry / 2 ^ 54 % 64

-- The class of 8 bytes has no room for a hash entry; SMALL_RESERVATION_IDX is 14.
unfoldable pub delays : ℕ → Bool
delays index = leb index 14 && not (index == 0)

-- MAX_RESERVATION_SIZE is 0x1400.
unfoldable pub reuses : ℕ → ℕ → Bool
reuses index alloc_size = index == 0 || ltb 14 index && leb alloc_size 0x1400

-- Whether `__ota_free` comes to the flush of a full buffer.
unfoldable pub meets_full : Pages → Batch → Bool
meets_full new b =
    not (b.cur.start == 0)
    && (suc (length b.older) == 256)
    && elim (join_one_of 3 new (b.cur ∷ b.older)) [ none ↦ true | some l ↦ false ]

-- `hash` is the bucket that `hash_add` takes for a key.
module _ (hash : ℕ → ℕ) where
  -- The entry is added at the head of the chain for its page.
  unfoldable pub hash_add : ℕ → Canon → Canon
  hash_add a c = record {
    free_hash =
        λ bkt. if bkt == hash (a / 4096 * 4096) then a ∷ c.free_hash bkt else c.free_hash bkt;
    count = c.count + 1;
    events = chained a ∷ c.events;
  }

  -- CONFIG_CANONICAL_HASH_SORT_DELAYED_SIZE is 512.
  unfoldable pub canonical_delayed_free : ℕ → Canon → Canon
  canonical_delayed_free a c =
      let c' = hash_add a c in
      if leb 512 c'.count then record (canonical_flush_delayed_free c') { count = 0 } else c'

  unfoldable pub delay_all : List ℕ → Canon → Canon
  delay_all [] c = c
  delay_all (a ∷ l) c = delay_all l (canonical_delayed_free a c)

  -- The two loops over the buffers, which are empty behind them.
  unfoldable pub release_deferred : Thread → Thread
  release_deferred s = record s {
    small = [];
    large = [];
    canon = canonical_free_all s.large (delay_all s.small s.canon);
  }

  unfoldable pub try_deferred_free : Thread → Thread
  try_deferred_free s =
      if (s.prev_version == s.batch.buf_version) && not s.batch.buf_empty
      then s
      else release_deferred s

  -- `tid` is `thread_index`, and `unset` and `found` are as for the batch.
  module _ (tid : ℕ) (unset : Pages → ℕ) (found : Bool) where
    -- A call of `flush` for the thread.
    unfoldable pub flush_thread : Thread → Thread
    flush_thread s =
        let (b, calls, ok) = flush unset found s.batch in
        record s { batch = b; canon = see_unmapped calls s.canon }

    unfoldable pub see_put : Pages → Thread → Thread
    see_put new s = record s { canon = record s.canon { events = put new ∷ s.canon.events } }

    -- The new pages go into the batch; behind the flush of a full buffer what was deferred is released
    -- first. The second part is `current_version`.
    unfoldable pub put_pages : Pages → Thread → Option (Thread × ℕ)
    put_pages new s = elim (add_pages unset found new s.batch) [
      | none ↦ none
      | some (b, calls) ↦ some (
          if meets_full new s.batch
          then (
            see_put new
                (release_deferred (record s { batch = b; canon = see_unmapped calls s.canon })),
            b.buf_version,
          )
          else (see_put new (record s { batch = b }), s.batch.buf_version))
    ]

    unfoldable pub flush_if_more : Thread → Thread
    flush_if_more s = if ltb s.batch.window_size s.batch.buf_cnt then flush_thread s else s

    unfoldable pub reserve : ℕ → ℕ → ℕ → Thread → Thread
    reserve index version a s = record s {
      reservations = λ i.
          if i == index
          then record (s.reservations i) {
            reused = (s.reservations i).reused ++ marked tid version a ∷ [];
          }
          else s.reservations i;
      canon = record s.canon { events = reserved index a ∷ s.canon.events };
    }

    -- A buffer is full: what is pending is unmapped, and all that is deferred goes, this address too.
    unfoldable pub release_all : ℕ → ℕ → Thread → Thread
    release_all index a s =
        let s' = release_deferred (if s.batch.buf_empty then s else flush_thread s) in
        record s' {
          canon =
              if delays index then canonical_delayed_free a s'.canon else canonical_free a s'.canon;
        }

    -- DEFER_CANON_MAX is 1024.
    unfoldable pub defer_canonical : ℕ → ℕ → Thread → Thread
    defer_canonical index a s =
        if length s.small == 1024 || length s.large == 1024
        then release_all index a s
        else if delays index
        then record s { small = s.small ++ a ∷ [] }
        else record s { large = s.large ++ a ∷ [] }

    unfoldable pub keep_canonical : ℕ → ℕ → ℕ → ℕ → Thread → Thread
    keep_canonical index alloc_size version a s =
        if reuses index alloc_size
          && ltb (length (s.reservations index).reused) (s.reservations index).cur_idx
        then reserve index version a s
        else defer_canonical index a s

    -- The part of `__ota_free` under `buf_lock`, at `now` milliseconds, for a block of the class `index`
    -- with `alloc_size` bytes, whose canonical address is `a` and whose `n_alias` alias pages begin at
    -- `start`.
    unfoldable pub end_free : ℕ → ℕ → ℕ → Option (Thread × ℕ) → Option Thread
    end_free index alloc_size a none = none
    end_free index alloc_size a (some (s, version)) =
        let s' = keep_canonical index alloc_size version a (flush_if_more s) in
        some (record s' { prev_version = s'.batch.buf_version })

    unfoldable pub counted : ℕ → ℕ → Thread → Thread
    counted now n_alias s =
        let b = record s.batch { buf_cnt = (s.batch.buf_cnt + n_alias) % 2 ^ 32 } in
        record s { batch = adaptive_window_resize now b }

    unfoldable pub free_canonical : ℕ → ℕ → ℕ → ℕ → ℕ → ℕ → Thread → Option Thread
    free_canonical now start n_alias index alloc_size a s = end_free index alloc_size a (
        put_pages (pages start (n_alias * 4096 % 2 ^ 32))
          (counted now n_alias (try_deferred_free s)))
