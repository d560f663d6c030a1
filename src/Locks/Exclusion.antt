-- ===== src/Locks/Exclusion.antt =====
-- One thread holds a spin lock; a writer is alone with its lock.
use budalloc.Prelude.{
  ℕ, ◌+◌, ◌*◌, ◌%◌, ◌^◌, ◌≤◌, ◌<◌, ◌≡◌, ◌⊎◌, inl, inr, refl, Bool, true, false, ◌==◌, arith, add64,
  Bool-cases,
}
use budalloc.Locks.{
  spin_exchange, spin_unlock, Spin, SpinStep, exchange, leave, SpinReach, here, next, read_add,
  read_sub, write_exchange, write_wait, write_unlock, Rw, rwlock_init, entered, claimed, RwStep,
  try_read, turn_back, end_read, try_write, wait, end_write, RwReach, start, step,
}

-- The word is 1 where there is a holder, and there is one at most.
record IsSpin (s : Spin) : Type 0 where
  one : s.holders ≤ 1
  marked : s.holders ≡ 1 → s.locked ≡ 1

SpinStep-IsSpin : {s t : Spin} → SpinStep s t → IsSpin s → IsSpin t
unfolding spin_exchange spin_unlock
SpinStep-IsSpin (exchange s) h = ground (arith, h.one, h.marked)
SpinStep-IsSpin (leave s held) h = ground (arith, h.one)

SpinReach-IsSpin : {s t : Spin} → IsSpin s → SpinReach s t → IsSpin t
SpinReach-IsSpin h here = h
SpinReach-IsSpin h (next r st) = SpinStep-IsSpin st (SpinReach-IsSpin h r)

-- A lock that starts free is held by one thread at most, whatever the threads do.
pub spin_exclusion : (s : Spin) → SpinReach (record { locked = 0; holders = 0 }) s → s.holders ≤ 1
spin_exclusion s r =
    (SpinReach-IsSpin (record { one = omega arith; marked = λ e. absurd (omega arith) }) r).one

-- The word counts those that came in as readers, the writers, and the mark of a writer that waits.
record IsRw (s : Rw) : Type 0 where
  mark : ℕ
  mark_low : mark ≤ 1
  word : s.cnt ≡ 4 * (s.readers + s.turned_back) + 2 * s.writers + mark
  one : s.writers ≤ 1
  apart : s.writers ≡ 1 → s.readers ≡ 0
  room : s.readers + s.turned_back ≤ 2 ^ 61

try_read-IsRw :
    (s : Rw) → s.readers + s.turned_back < 2 ^ 61 → IsRw s → IsRw (entered s (read_add s.cnt))
unfolding read_add
try_read-IsRw s few h = go (add64 s.cnt 4 % 4 == 0) refl
  where
    go : (b : Bool) → (add64 s.cnt 4 % 4 == 0) ≡ b → IsRw (entered s (add64 s.cnt 4, b))
    go true e = record {
      mark = h.mark;
      mark_low = h.mark_low;
      word = omega (arith, h.word, h.one, h.mark_low);
      one = h.one;
      apart = ground (arith, h.word, h.one, h.mark_low);
      room = omega arith;
    }
    go false e = record {
      mark = h.mark;
      mark_low = h.mark_low;
      word = omega (arith, h.word, h.one, h.mark_low);
      one = h.one;
      apart = h.apart;
      room = omega arith;
    }

try_write-IsRw : (s : Rw) (x : ℕ) → x < 2 → IsRw s → IsRw (claimed s (write_exchange x s.cnt))
unfolding write_exchange
try_write-IsRw s x small h = elim (Bool-cases (s.cnt == x)) [
  | inl e ↦ rw e (record {
    mark = 0;
    mark_low = omega arith;
    word = ground (arith, h.word);
    one = ground (arith, h.word);
    apart = ground (arith, h.word);
    room = h.room;
  })
  | inr e ↦ rw e h
]

RwStep-IsRw : {s t : Rw} → RwStep s t → IsRw s → IsRw t
unfolding read_sub write_wait write_unlock
RwStep-IsRw (try_read s few) h = try_read-IsRw s few h
RwStep-IsRw (turn_back s some_back) h = record {
  mark = h.mark;
  mark_low = h.mark_low;
  word = omega (arith, h.word, h.one, h.mark_low, h.room);
  one = h.one;
  apart = h.apart;
  room = omega (arith, h.room);
}
RwStep-IsRw (end_read s in_use) h = record {
  mark = h.mark;
  mark_low = h.mark_low;
  word = omega (arith, h.word, h.one, h.mark_low, h.room);
  one = h.one;
  apart = ground (arith, h.apart);
  room = omega (arith, h.room);
}
RwStep-IsRw (try_write s x small) h = try_write-IsRw s x small h
RwStep-IsRw (wait s) h = record {
  mark = 1;
  mark_low = omega arith;
  word = ground (arith, h.word, h.mark_low);
  one = h.one;
  apart = h.apart;
  room = h.room;
}
RwStep-IsRw (end_write s held) h = record {
  mark = h.mark;
  mark_low = h.mark_low;
  word = omega (arith, h.word, h.one, h.mark_low, h.room);
  one = omega (arith, h.one);
  apart = λ e. absurd (omega (arith, h.one));
  room = h.room;
}

RwReach-IsRw : {s t : Rw} → IsRw s → RwReach s t → IsRw t
RwReach-IsRw h start = h
RwReach-IsRw h (step r st) = RwStep-IsRw st (RwReach-IsRw h r)

rwlock_init-IsRw : IsRw rwlock_init
rwlock_init-IsRw = record {
  mark = 0;
  mark_low = omega arith;
  word = refl;
  one = omega arith;
  apart = λ e. refl;
  room = omega arith;
}

-- Whatever the threads do with a lock that starts free: one writer is in at most, and no reader is in
-- with it.
pub rw_exclusion :
    (s : Rw) → RwReach rwlock_init s → (s.writers ≤ 1) × ((s.readers ≡ 0) ⊎ (s.writers ≡ 0))
rw_exclusion s r = let h = RwReach-IsRw rwlock_init-IsRw r in go h.one h.apart
  where
    go :
        s.writers ≤ 1
        → (s.writers ≡ 1 → s.readers ≡ 0)
        → (s.writers ≤ 1) × ((s.readers ≡ 0) ⊎ (s.writers ≡ 0))
    go one apart = elim (Bool-cases (s.writers == 0)) [
      | inl e ↦ (one, inr (ground arith))
      | inr e ↦ (one, inl (apart (ground arith)))
    ]

-- Where the lock has been free before, and now nobody is in and no reader has a count to take back, a
-- writer that reads the word gets in by its next exchange.
pub write_lock_enters :
    (s : Rw)
    → RwReach rwlock_init s
    → s.readers ≡ 0
    → s.turned_back ≡ 0
    → s.writers ≡ 0
    → (s.cnt < 2) × (write_exchange s.cnt s.cnt ≡ (2, true))
unfolding write_exchange
write_lock_enters s r no_reader no_back no_writer =
    let h = RwReach-IsRw rwlock_init-IsRw r in (omega (arith, h.word, h.mark_low), ground arith)
