-- ===== src/Locks/Tests.antt =====
-- Tests of the locks.
use budalloc.Prelude.{ℕ, ◌≤◌, ◌<◌, ◌≡◌, ◌⊎◌, refl, true, false, arith}
use budalloc.Locks.{
  Spin, spin_exchange, SpinReach, here, next, exchange, spin_trylock, Rw, rwlock_init, RwReach,
  start, step, try_read, try_write, wait, turn_back, read_add, write_exchange, write_wait, read_sub,
  end_write, write_unlock,
}
use budalloc.Locks.Exclusion.{rw_exclusion, write_lock_enters}

trylock : (spin_trylock 0 ≡ (1, true)) × (spin_trylock 1 ≡ (1, false))
unfolding spin_trylock
trylock = (refl, refl)

abbrev spin : ℕ → ℕ → Spin
spin l n = record { locked = l; holders = n }

-- Two threads try the lock.
two_tries : SpinReach (spin 0 0) (spin 1 1)
unfolding spin_exchange
two_tries = next (next here (exchange (spin 0 0))) (exchange (spin 1 1))

abbrev rw_lock : ℕ → ℕ → ℕ → ℕ → Rw
rw_lock c r b w = record { cnt = c; readers = r; turned_back = b; writers = w }

-- A writer comes in, a reader is turned back, another writer waits, and the first goes.
write_first : RwReach rwlock_init (rw_lock 7 0 1 1)
unfolding write_exchange read_add write_wait
write_first =
    step
      (step (step start (try_write rwlock_init 0 (omega arith)))
        (try_read (rw_lock 2 0 0 1) (omega arith)))
      (wait (rw_lock 6 0 1 1))

all_gone : RwReach rwlock_init (rw_lock 1 0 0 0)
unfolding read_sub write_unlock
all_gone =
    step (step write_first (turn_back (rw_lock 7 0 1 1) (omega arith)))
      (end_write (rw_lock 3 0 0 1) (omega arith))

rw_exclusion_example : (1 ≤ 1) × (((rw_lock 7 0 1 1).readers ≡ 0) ⊎ ((rw_lock 7 0 1 1).writers ≡ 0))
rw_exclusion_example = rw_exclusion (rw_lock 7 0 1 1) write_first

write_lock_enters_example : ((rw_lock 1 0 0 0).cnt < 2) × (write_exchange 1 1 ≡ (2, true))
write_lock_enters_example = write_lock_enters (rw_lock 1 0 0 0) all_gone refl refl refl
