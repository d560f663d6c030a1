-- ===== src/FreeBatch/Tests.antt =====
-- Runs of the batch, and the theorems at concrete ones.
use budalloc.Prelude.{ℕ, ◌+◌, ◌≡◌, refl, inr, true, false, some, List, [], ◌∷◌, arith}
use budalloc.FreeBatch.{
  Pages, pages, Batch, new_batch, adaptive_window_resize, free_pages, add_pages, join, join_one_of,
  with_entries, flush, emptied, unset_all, push_or_join, push, and_flush, flush_if_many,
}
use budalloc.FreeBatch.Flush.{covers, pending}
use budalloc.FreeBatch.Pending.{IsBatch}
use budalloc.FreeBatch.History.{Free, free_all, freed, free_all-accounts}
use budalloc.FreeBatch.Fault.{flush_alias_free_buf, as_answer, flush_alias_free_buf-flush}

abbrev unsets : Pages → ℕ
unsets r = 0

always : (r : Pages) → unsets r ≡ 0
always r = refl

-- One entry of two pages, with a window of 4.
abbrev one_entry : Batch
one_entry = record new_batch {
  cur = pages 0x10000 0x2000;
  buf_empty = false;
  buf_cnt = 2;
  window_size = 4;
}

one_entry-IsBatch : IsBatch one_entry
one_entry-IsBatch = record {
  entries = inr (omega arith, omega arith, tt);
  short = omega arith;
  window_low = omega arith;
  window_high = omega arith;
}

-- Pages that follow an entry join it.
free_next :
    free_pages unsets true 5 0x12000 1 one_entry
    ≡ some (record one_entry { cur = pages 0x10000 0x3000; buf_cnt = 3 }, [])
unfolding free_pages adaptive_window_resize add_pages join_one_of join push_or_join with_entries
    flush_if_many
free_next = refl

-- More pages than the window: all are unmapped, from the first entry on.
free_many :
    free_pages unsets true 5 0x20000 3 one_entry
    ≡ some (
      record new_batch { buf_version = 1; window_size = 4 },
      pages 0x10000 0x2000 ∷ pages 0x20000 0x3000 ∷ [],
    )
unfolding free_pages adaptive_window_resize add_pages join_one_of join push_or_join push
    with_entries flush_if_many and_flush flush emptied unset_all
free_many = refl

abbrev three_frees : List Free
three_frees = (1, 0x10000, 2) ∷ (2, 0x12000, 1) ∷ (200, 0x40000, 1) ∷ []

free_all-accounts_example :
    (b : Batch) × (calls : List Pages) × (free_all unsets true three_frees new_batch
      ≡ some (b, calls))
    × ((a : ℕ) → pending a b + covers a calls ≡ freed a three_frees)
free_all-accounts_example = free_all-accounts unsets always three_frees (
  omega arith,
  omega arith,
  omega arith,
  (omega arith, omega arith, omega arith, (omega arith, omega arith, omega arith, tt)),
)

-- The buffer is not found: the lock stays taken.
lock_kept : flush_alias_free_buf unsets false 0 one_entry true one_entry ≡ (1, one_entry, [], true)
unfolding flush_alias_free_buf
lock_kept = refl

flush_alias_free_buf-flush_example :
    flush_alias_free_buf unsets true 0 one_entry true one_entry
    ≡ as_answer unsets false (flush unsets true one_entry)
flush_alias_free_buf-flush_example =
    flush_alias_free_buf-flush unsets true 0 one_entry one_entry refl refl refl
