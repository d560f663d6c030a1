-- ===== src/Entry/Tests.antt =====
-- Runs of the entry points, and the theorems at concrete phases.
use budalloc.Prelude.{ℕ, ◌≡◌, refl, true, false, ◌⊎◌}
use budalloc.Entry.{
  phase, malloc, free, reallocarray, memalign, posix_memalign, to_ota, to_libc, kcalloc, null,
  einval, dispatch, Later, now, then_step, libc_found,
}
use budalloc.Entry.Phases.{ota-early}

-- The first phase: `kcalloc`, NULL or EINVAL; the second: the C library, but for `reallocarray`.
first_phases :
    (dispatch (phase false false) (malloc 24) ≡ kcalloc 1 24)
    × (dispatch (phase false false) (memalign 16 24) ≡ null)
    × (dispatch (phase false false) (posix_memalign 0 16 24) ≡ einval)
    × (dispatch (phase true false) (free 4096) ≡ to_libc (free 4096))
unfolding dispatch
first_phases = (refl, refl, refl, refl)

second : Later (phase false false) (phase true false)
second = then_step now libc_found

early_call : dispatch (phase true false) (reallocarray 0 3 8) ≡ to_ota (reallocarray 0 3 8)
unfolding dispatch
early_call = refl

ota-early_example :
    (phase true false ≡ phase true true)
    ⊎ ((phase true false ≡ phase true false)
        × (a : ℕ) × (m : ℕ) × (n : ℕ) × (reallocarray 0 3 8 ≡ reallocarray a m n))
ota-early_example = ota-early (phase true false) second (reallocarray 0 3 8) early_call
