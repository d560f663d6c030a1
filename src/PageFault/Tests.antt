-- ===== src/PageFault/Tests.antt =====
-- Page faults, and the theorems at concrete ones.
use budalloc.Prelude.{
  ℕ, zero, suc, ◌<◌, ◌≤◌, ◌≡◌, refl, Bool, true, false, Option, none, some, [], ◌∷◌, arith,
}
use budalloc.FreeBatch.{Pages, pages, new_batch}
use budalloc.FreeBatch.Fault.{flush_alias_free_buf}
use budalloc.Deferred.{get_flush}
use budalloc.PageFault.{
  mapped, canon_page_of, is_mapped, Round, flush_thread_buf, flush_known, flush_marked, map_run,
  join_run, after_flush, prefetch_entry, prefetch_fn, loop, Machine, turn, window_for, flush_first,
  after_loop, map_pages, fault_entry, page_fault,
}
use budalloc.PageFault.Run.{Tiled}
use budalloc.PageFault.Mapping.{page_fault-Tiled}
use budalloc.PageFault.Skipping.{page_fault-unmarked}

abbrev unsets : Pages → ℕ
unsets r = 0

abbrev every : ℕ → Bool
every t = true

-- Behind the faulting page: the same canonical page again, the next one, and no word.
abbrev next_words : ℕ → Option ℕ
next_words zero = some 0x7000_0000_1008
next_words (suc zero) = some 0x7000_0000_2008
next_words (suc (suc k)) = none

abbrev three_rounds : ℕ → Round
three_rounds i = record { l1_changed = false; entry = next_words i }

-- One entry of the thread 5 is pending, under the version 0.
abbrev one_pending : Machine
one_pending = record {
  window_prev_vaddr = 0;
  window_prev_size = 1;
  cur_flush_idx = 0;
  max_perthread_num = 6;
  perthread = λ i. record new_batch { cur = pages 0x1002_0000_0000 0x1000; buf_empty = false };
}

-- The first two pages go to one canonical page, and the third to the next.
three_pages :
    (page_fault unsets every every 0x1003_0000_0123 true true
      (some 0x7000_0000_1008)
      false
      three_rounds
      one_pending).calls
    ≡ mapped 0x1003_0000_2000 0x1000 0x7000_0000_2000
      ∷ mapped 0x1003_0000_0000 0x2000 0x7000_0000_1000
      ∷ []
unfolding page_fault fault_entry flush_first map_pages after_loop loop prefetch_fn prefetch_entry
    after_flush flush_marked flush_known join_run map_run window_for turn flush_thread_buf
    flush_alias_free_buf canon_page_of is_mapped get_flush
three_pages = refl

first_unmapped : is_mapped 0x7000_0000_1008 ≡ false
unfolding is_mapped
first_unmapped = refl

first_unmarked : get_flush 0x7000_0000_1008 ≡ 0
unfolding get_flush
first_unmarked = refl

page_fault-Tiled_example :
    (m : ℕ) × (0 < m)
    × (m ≤ 257)
    × Tiled 0x1003_0000_0000 0x7000_0000_1008 three_rounds
        (page_fault unsets every every 0x1003_0000_0123 true true
          (some 0x7000_0000_1008)
          false
          three_rounds
          one_pending).calls
        m
page_fault-Tiled_example =
    page_fault-Tiled unsets every every (λ t. refl) 0x1003_0000_0123 0x7000_0000_1008 false
      three_rounds one_pending (omega arith) (omega arith) (omega arith) first_unmapped

page_fault-unmarked_example :
    ((page_fault unsets every every 0x1003_0000_0123 true true
        (some 0x7000_0000_1008)
        false
        three_rounds
        one_pending).ret
      ≡ 0)
    × ((page_fault unsets every every 0x1003_0000_0123 true true
            (some 0x7000_0000_1008)
            false
            three_rounds
            one_pending).machine.perthread
          5
        ≡ one_pending.perthread 5)
page_fault-unmarked_example =
    page_fault-unmarked unsets every every three_rounds 0x1003_0000_0123 0x7000_0000_1008 false
      one_pending 5 (omega arith) (omega arith) first_unmapped first_unmarked (λ j. omega arith)
