-- ===== src/Locks.antt =====
-- The locks of libkernel/include/spin_lock.h and libkernel/include/rwlock.h, by their atomic steps. What
-- is compiled of the second are empty macros, unless CONFIG_SUPPORT_FORK_SAFETY is on.
pub mod Exclusion
mod Tests
use budalloc.Prelude.{
  ℕ, ◌+◌, ◌-◌, ◌%◌, ◌^◌, ◌≤◌, ◌<◌, ◌≡◌, Bool, true, false, ltb, ◌==◌, if◌then◌else◌, add64, sub64,
}

-- `__atomic_exchange_n(&spl->locked, 1, …) == 0`: the new word and whether the lock was taken.
unfoldable pub spin_exchange : ℕ → ℕ × Bool
spin_exchange locked = (1, locked == 0)

-- `spin_trylock`, where no other thread comes between its two reads.
unfoldable pub spin_trylock : ℕ → ℕ × Bool
unfolding spin_exchange
spin_trylock locked = if locked == 0 then spin_exchange locked else (locked, false)

unfoldable pub spin_unlock : ℕ → ℕ
spin_unlock locked = 0

-- The word of a spin lock and the threads that hold it.
pub record Spin : Type 0 where
  pub locked : ℕ
  pub holders : ℕ

abbrev pub taken : Spin → ℕ × Bool → Spin
taken s (l, got) = record { locked = l; holders = if got then s.holders + 1 else s.holders }

pub data SpinStep : Spin → Spin → Type 0 where
  exchange : (s : Spin) → SpinStep s (taken s (spin_exchange s.locked))
  leave :
      (s : Spin)
      → 0 < s.holders
      → SpinStep s (record { locked = spin_unlock s.locked; holders = s.holders - 1 })

pub data SpinReach (s : Spin) : Spin → Type 0 where
  here : SpinReach s s
  next : {t u : Spin} → SpinReach s t → SpinStep t u → SpinReach s u

-- RWLOCK_MASK is 3, RWLOCK_READ 4. `__atomic_add_fetch(&rwl->cnt, RWLOCK_READ, …)` and its test: the new
-- word and whether the reader is in.
unfoldable pub read_add : ℕ → ℕ × Bool
read_add cnt = let x = add64 cnt 4 in (x, x % 4 == 0)

-- A reader that goes, or that was not let in.
unfoldable pub read_sub : ℕ → ℕ
read_sub cnt = sub64 cnt 4

-- The exchange of `rwlock_write_lock`, on a word that was read before: RWLOCK_WRITE is 2.
unfoldable pub write_exchange : ℕ → ℕ → ℕ × Bool
write_exchange x cnt = if cnt == x then (2, true) else (cnt, false)

-- `__atomic_fetch_or(&rwl->cnt, RWLOCK_WAIT, …)`
unfoldable pub write_wait : ℕ → ℕ
write_wait cnt = if cnt % 2 == 0 then cnt + 1 else cnt

unfoldable pub write_unlock : ℕ → ℕ
write_unlock cnt = sub64 cnt 2

-- The word, the readers that are in, those that were not let in and have not taken their count back
-- yet, and the writers that are in.
pub record Rw : Type 0 where
  pub cnt : ℕ
  pub readers : ℕ
  pub turned_back : ℕ
  pub writers : ℕ

abbrev pub rwlock_init : Rw
rwlock_init = record { cnt = 0; readers = 0; turned_back = 0; writers = 0 }

abbrev pub entered : Rw → ℕ × Bool → Rw
entered s (c, true) = record s { cnt = c; readers = s.readers + 1 }
entered s (c, false) = record s { cnt = c; turned_back = s.turned_back + 1 }

abbrev pub claimed : Rw → ℕ × Bool → Rw
claimed s (c, got) = record s { cnt = c; writers = if got then s.writers + 1 else s.writers }

-- A step of any thread: those of `rwlock_read_lock`, `mbpf_rwlock_read_trylock` and
-- `rwlock_write_lock` may come at any time. There are fewer than 2 ^ 61 threads.
pub data RwStep : Rw → Rw → Type 0 where
  try_read : (s : Rw) → s.readers + s.turned_back < 2 ^ 61 → RwStep s (entered s (read_add s.cnt))
  turn_back :
      (s : Rw)
      → 0 < s.turned_back
      → RwStep s (record s { cnt = read_sub s.cnt; turned_back = s.turned_back - 1 })
  end_read :
      (s : Rw)
      → 0 < s.readers
      → RwStep s (record s { cnt = read_sub s.cnt; readers = s.readers - 1 })
  try_write : (s : Rw) (x : ℕ) → x < 2 → RwStep s (claimed s (write_exchange x s.cnt))
  wait : (s : Rw) → RwStep s (record s { cnt = write_wait s.cnt })
  end_write :
      (s : Rw)
      → 0 < s.writers
      → RwStep s (record s { cnt = write_unlock s.cnt; writers = s.writers - 1 })

pub data RwReach (s : Rw) : Rw → Type 0 where
  start : RwReach s s
  step : {t u : Rw} → RwReach s t → RwStep t u → RwReach s u
