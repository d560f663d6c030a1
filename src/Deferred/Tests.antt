-- ===== src/Deferred/Tests.antt =====
-- Runs of the deferral, and the theorems at concrete ones.
use budalloc.Prelude.{
  ℕ, zero, suc, ◌+◌, ◌*◌, ◌/◌, ◌%◌, ◌^◌, ◌<◌, ◌≤◌, ◌≡◌, refl, inr, true, false, Option, none, some,
  List, [], ◌∷◌, ◌++◌, arith, length,
}
use budalloc.FreeBatch.{
  Pages, pages, new_batch, adaptive_window_resize, add_pages, join, join_one_of, with_entries,
  flush, emptied, unset_all, push_or_join, push,
}
use budalloc.FreeBatch.Flush.{covers, pending}
use budalloc.FreeBatch.Pending.{AllUsed}
use budalloc.FreeBatch.Fault.{flush_alias_free_buf}
use budalloc.Deferred.{
  Event, put, unmapped, chained, released, reserved, Thread, canonical_free, canonical_free_all,
  hash_add, canonical_delayed_free, delay_all, release_deferred, try_deferred_free, flush_thread,
  see_put, see_unmapped, put_pages, flush_if_more, reserve, defer_canonical, keep_canonical,
  end_free, counted, free_canonical, delays, reuses, meets_full, get_flush, get_buf_ver, get_tid,
}
use budalloc.Deferred.Buckets.{one, kept, canonical_delayed_free-kept}
use budalloc.Deferred.Quiet.{put_at, unmapped_at, AllUnmapped, Ordered}
use budalloc.Deferred.Sound.{IsSound}
use budalloc.Deferred.History.{
  Action, free, fault, act, run, fills, never_full, AllInSpace, new_thread,
}
use budalloc.Deferred.Held.{held}
use budalloc.Deferred.Conserve.{all_frees, run-conserves}
use budalloc.Deferred.Order.{run-Ordered, new_thread-Idle}
use budalloc.Deferred.Reuse.{free_canonical-reuses}
use budalloc.Deferred.Early.{end_free-early}

abbrev unsets : Pages → ℕ
unsets r = 0

always : (r : Pages) → unsets r ≡ 0
always r = refl

-- The number of the page selects the bucket.
abbrev by_page : ℕ → ℕ
by_page k = k / 4096 % 64

by_page-lt : (k : ℕ) → by_page k < 64
by_page-lt k = omega arith

abbrev one_each : ℕ → ℕ
one_each i = 1

-- A small block that is delayed, a large one, a flush on a page fault, and a block of 8 bytes that goes
-- back into its reservation.
abbrev four_actions : List Action
four_actions =
    free 1 0x10000 1 3 48 0xa000_0040
    ∷ free 2 0x20000 4 40 0x4000 0xb000_0000
    ∷ fault
    ∷ free 3 0x30000 1 0 8 0xa000_0008
    ∷ []

four_actions-InSpace : AllInSpace four_actions
four_actions-InSpace = omega arith

-- The second free makes more than the window: all is unmapped, and the third releases what was kept.
abbrev events_of : Option Thread → List Event
events_of none = []
events_of (some s) = s.canon.events

four_events :
    events_of (run by_page 5 unsets true four_actions (new_thread one_each))
    ≡ reserved 0 0xa000_0008
      ∷ put (pages 0x30000 0x1000)
      ∷ released 0xb000_0000
      ∷ chained 0xa000_0040
      ∷ unmapped (pages 0x20000 0x4000)
      ∷ unmapped (pages 0x10000 0x1000)
      ∷ put (pages 0x20000 0x4000)
      ∷ put (pages 0x10000 0x1000)
      ∷ []
unfolding run act free_canonical try_deferred_free release_deferred delay_all canonical_free_all
    canonical_delayed_free hash_add canonical_free counted adaptive_window_resize put_pages
    add_pages push_or_join join_one_of join push with_entries meets_full see_put flush_if_more
    flush_thread flush emptied unset_all see_unmapped end_free keep_canonical reuses reserve
    defer_canonical delays
four_events = refl

run-conserves_example :
    (s : Thread) × (run by_page 5 unsets true four_actions (new_thread one_each) ≡ some s)
    × ((a : ℕ) → held a s ≡ all_frees a four_actions)
run-conserves_example =
    run-conserves by_page by_page-lt 5 unsets always four_actions one_each four_actions-InSpace

four_never_full : never_full by_page 5 unsets true four_actions (new_thread one_each) ≡ true
unfolding never_full fills act free_canonical try_deferred_free release_deferred delay_all
    canonical_free_all canonical_delayed_free hash_add canonical_free counted adaptive_window_resize
    put_pages add_pages push_or_join join_one_of join push with_entries meets_full see_put
    flush_if_more flush_thread flush emptied unset_all see_unmapped end_free keep_canonical reuses
    reserve defer_canonical delays
four_never_full = refl

run-Ordered_example :
    (s : Thread) × (run by_page 5 unsets true four_actions (new_thread one_each) ≡ some s)
    × Ordered s.canon.events
run-Ordered_example =
    run-Ordered by_page 5 unsets always four_actions one_each four_actions-InSpace four_never_full

canonical_delayed_free-kept_example :
    kept 0xa000_0040 (canonical_delayed_free by_page 0xa000_0040 (new_thread one_each).canon)
    ≡ kept 0xa000_0040 (new_thread one_each).canon + one 0xa000_0040 0xa000_0040
canonical_delayed_free-kept_example =
    canonical_delayed_free-kept by_page by_page-lt 0xa000_0040 0xa000_0040
      (new_thread one_each).canon

starts_empty :
    meets_full
      (pages 0x30000 (1 * 4096 % 2 ^ 32))
      (counted by_page 5 unsets true 3 1 (try_deferred_free by_page (new_thread one_each))).batch
    ≡ false
unfolding meets_full counted try_deferred_free release_deferred adaptive_window_resize
starts_empty = refl

first_reuses : reuses 0 8 ≡ true
unfolding reuses
first_reuses = refl

free_canonical-reuses_example :
    (s' : Thread) × (word : ℕ) × (free_canonical by_page 5 unsets true 3 0x30000 1 0 8 0xa000_0008
        (new_thread one_each)
      ≡ some s')
    × ((s'.reservations 0).reused ≡ [] ++ word ∷ [])
    × (get_flush word ≡ 1)
    × (get_tid word ≡ 5)
    × (word % 2 ^ 54 ≡ 0xa000_0008)
    × ((p : ℕ)
        → pending p (flush_alias_free_buf unsets true (get_buf_ver word) s'.batch true s'.batch).1
          ≡ 0)
free_canonical-reuses_example =
    free_canonical-reuses by_page 5 unsets always 3 0x30000 1 0 8 0xa000_0008 (new_thread one_each)
      (new_thread-Idle by_page 5 unsets always one_each) (omega arith) (omega arith) (omega arith)
      starts_empty first_reuses (omega arith) (omega arith) (omega arith)

-- Entries that lie apart, and the calls that put them.
unfoldable lone : ℕ → List Pages
lone zero = []
lone (suc k) = pages (suc k * 0x10000) 0x1000 ∷ lone k

unfoldable puts : ℕ → List Event
puts zero = []
puts (suc k) = put (pages (suc k * 0x10000) 0x1000) ∷ puts k

lone-AllUsed : (k : ℕ) → k ≤ 1000 → AllUsed (lone k)
unfolding lone
lone-AllUsed zero h = tt
lone-AllUsed (suc k) h = (omega arith, omega arith, lone-AllUsed k (omega arith))

puts-account : (p k : ℕ) → put_at p (puts k) ≡ unmapped_at p (puts k) + covers p (lone k)
unfolding puts lone covers
puts-account p zero = refl
puts-account p (suc k) = omega (arith, puts-account p k)

puts-Ordered : (k : ℕ) → Ordered (puts k)
unfolding puts
puts-Ordered zero = tt
puts-Ordered (suc k) = puts-Ordered k

-- A thread whose buffer is full.
abbrev full_thread : Thread
full_thread = record (new_thread one_each) {
  batch = record new_batch {
    cur = pages 0x1000000 0x1000;
    older = lone 255;
    buf_empty = false;
    buf_cnt = 256;
    window_size = 1024;
  };
  canon = record { free_hash = λ bkt. []; count = 0; events = puts 256 };
}

full-length : suc (length (lone 255)) ≡ 256
unfolding lone
full-length = refl

full-IsSound : IsSound full_thread
unfolding lone
full-IsSound = record {
  batch_ok = record {
    entries = inr (lone-AllUsed 256 (omega arith));
    short = omega arith;
    window_low = omega arith;
    window_high = omega arith;
  };
  account = λ p. puts-account p 256;
  emptied = λ e. cc;
  version_low = omega arith;
  ordered = puts-Ordered 256;
}

full-alone :
    join_one_of 3 (pages 0x4000000 0x6000) (full_thread.batch.cur ∷ full_thread.batch.older) ≡ none
unfolding join_one_of join lone
full-alone = refl

top_not_reused : reuses 40 0x5000 ≡ false
unfolding reuses
top_not_reused = refl

top_not_delayed : delays 40 ≡ false
unfolding delays
top_not_delayed = refl

end_free-early_example :
    (s' : Thread) × (end_free by_page 5 unsets true 40 0x5000 0xb000_0000
        (put_pages by_page 5 unsets true (pages 0x4000000 0x6000) full_thread)
      ≡ some s')
    × (s'.batch.cur ≡ pages 0x4000000 0x6000)
    × (s'.small ≡ [])
    × (s'.large ≡ 0xb000_0000 ∷ [])
    × (l : List Event) × (s'.canon.events ≡ put (pages 0x4000000 0x6000) ∷ l)
    × AllUnmapped l
    × Ordered l
    × ((try_deferred_free by_page s').canon.events
        ≡ released 0xb000_0000 ∷ put (pages 0x4000000 0x6000) ∷ l)
    × ¬ Ordered (released 0xb000_0000 ∷ put (pages 0x4000000 0x6000) ∷ l)
end_free-early_example =
    end_free-early by_page 5 unsets always (pages 0x4000000 0x6000) (omega arith) 40 0x5000
      0xb000_0000 top_not_reused top_not_delayed full_thread full-IsSound full-length (omega arith)
      full-alone
