-- ===== src/Deferred/History.antt =====
-- What may happen to the batch and the deferred addresses of one thread, in any order.
use budalloc.Prelude.{
  ℕ, ◌+◌, ◌*◌, ◌%◌, ◌^◌, ◌<◌, Bool, true, false, not, ◌&&◌, Option, none, some, List, [], ◌∷◌,
  if◌then◌else◌,
}
use budalloc.FreeBatch.{Pages, pages, new_batch}
use budalloc.Deferred.{Thread, meets_full, try_deferred_free, counted, free_canonical, flush_thread}

-- A free by the thread: the time, the first alias page and the number of them, the class, the usable
-- size and the canonical address. Or the flush of its batch on a page fault, by any thread.
pub data Action : Type 0 where
  free : ℕ → ℕ → ℕ → ℕ → ℕ → ℕ → Action
  fault : Action

module _ (hash : ℕ → ℕ) (tid : ℕ) (unset : Pages → ℕ) (found : Bool) where
  unfoldable pub act : Action → Thread → Option Thread
  act (free now start n_alias index alloc_size a) s =
      free_canonical hash tid unset found now start n_alias index alloc_size a s
  act fault s = some (if s.batch.buf_empty then s else flush_thread hash tid unset found s)

  unfoldable pub run : List Action → Thread → Option Thread
  run [] s = some s
  run (x ∷ l) s = elim (act x s) [ none ↦ none | some s' ↦ run l s' ]

  -- Whether the action comes to a full buffer, and whether one of a run does.
  unfoldable pub fills : Action → Thread → Bool
  fills (free now start n_alias index alloc_size a) s =
      meets_full (pages start (n_alias * 4096 % 2 ^ 32))
        (counted hash tid unset found now n_alias (try_deferred_free hash s)).batch
  fills fault s = false

  unfoldable pub never_full : List Action → Thread → Bool
  never_full [] s = true
  never_full (x ∷ l) s =
      not (fills x s) && elim (act x s) [ none ↦ true | some s' ↦ never_full l s' ]

-- Each free is of less than 2 ^ 20 pages that lie above 0 and below 2 ^ 64.
abbrev pub InSpace : Action → Type 0
InSpace (free now start n_alias index alloc_size a) =
    (0 < start) × (n_alias < 2 ^ 20) × (start + n_alias * 4096 < 2 ^ 64)
InSpace fault = Unit {0}

abbrev pub AllInSpace : List Action → Type 0
AllInSpace [] = Unit {0}
AllInSpace (x ∷ l) = InSpace x × AllInSpace l

-- A thread behind `thread_init`: its memory is 0, and each class has a full reservation of `cur_len`
-- blocks that are handed out.
abbrev pub new_thread : (ℕ → ℕ) → Thread
new_thread cur_len = record {
  batch = new_batch;
  small = [];
  large = [];
  prev_version = 0;
  reservations = λ i. record { cur_idx = cur_len i; reused = [] };
  canon = record { free_hash = λ bkt. []; count = 0; events = [] };
}
