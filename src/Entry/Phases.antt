-- ===== src/Entry/Phases.antt =====
-- How the entry points change over the start of the process.
use budalloc.Prelude.{ℕ, ◌≡◌, refl, true, false, ◌⊎◌, inl, inr}
use budalloc.Entry.{
  Phase, phase, Request, malloc, free, realloc, reallocarray, calloc, memalign, posix_memalign,
  aligned_alloc, malloc_usable_size, to_ota, dispatch, Step, libc_found, kernel_entered, Later, now,
  then_step,
}

-- Before the C library is found, OTA is not called.
not_at_first : (r : Request) → dispatch (phase false false) r ≡ to_ota r → ⊥
unfolding dispatch
not_at_first (malloc n) e = cc e
not_at_first (free a) e = cc e
not_at_first (realloc a n) e = cc e
not_at_first (reallocarray a m n) e = cc e
not_at_first (calloc m n) e = cc e
not_at_first (memalign k n) e = cc e
not_at_first (posix_memalign a k n) e = cc e
not_at_first (aligned_alloc k n) e = cc e
not_at_first (malloc_usable_size a) e = cc e

-- After the kernel is entered, nothing else is called.
always_at_last : (r : Request) → dispatch (phase true true) r ≡ to_ota r
unfolding dispatch
always_at_last (malloc n) = refl
always_at_last (free a) = refl
always_at_last (realloc a n) = refl
always_at_last (reallocarray a m n) = refl
always_at_last (calloc m n) = refl
always_at_last (memalign k n) = refl
always_at_last (posix_memalign a k n) = refl
always_at_last (aligned_alloc k n) = refl
always_at_last (malloc_usable_size a) = refl

abbrev IsReallocarray : Request → Type 0
IsReallocarray r = (a : ℕ) × (m : ℕ) × (n : ℕ) × (r ≡ reallocarray a m n)

-- Between the two only `reallocarray` is.
one_between : (r : Request) → dispatch (phase true false) r ≡ to_ota r → IsReallocarray r
unfolding dispatch
one_between (malloc n) e = cc e
one_between (free a) e = cc e
one_between (realloc a n) e = cc e
one_between (reallocarray a m n) e = (a, m, n, refl)
one_between (calloc m n) e = cc e
one_between (memalign k n) e = cc e
one_between (posix_memalign a k n) e = cc e
one_between (aligned_alloc k n) e = cc e
one_between (malloc_usable_size a) e = cc e

Step-ota :
    (p q : Phase) → Step p q → (r : Request) → dispatch p r ≡ to_ota r → dispatch q r ≡ to_ota r
Step-ota p q libc_found r e = absurd (not_at_first r e)
Step-ota p q kernel_entered r e = always_at_last r

-- A request that an entry point takes to OTA in one phase of the start, it takes to OTA in every
-- later phase: no kind of request is handed back.
pub Later-ota :
    (p q : Phase) → Later p q → (r : Request) → dispatch p r ≡ to_ota r → dispatch q r ≡ to_ota r
Later-ota p q now r e = e
Later-ota p q (then_step {q = q'} l s) r e = Step-ota q' q s r (Later-ota p q' l r e)

-- The three phases there are.
abbrev IsReached : Phase → Type 0
IsReached q = (q ≡ phase false false) ⊎ ((q ≡ phase true false) ⊎ (q ≡ phase true true))

Step-IsReached : (p q : Phase) → Step p q → IsReached q
Step-IsReached p q libc_found = inr (inl refl)
Step-IsReached p q kernel_entered = inr (inr refl)

Later-IsReached : (q : Phase) → Later (phase false false) q → IsReached q
Later-IsReached q now = inl refl
Later-IsReached q (then_step {q = q'} l s) = Step-IsReached q' q s

-- In every phase that the start of a process reaches, a request that goes to OTA goes there after the
-- kernel is entered, or it is a `reallocarray` between the look-up of the C library and that.
pub ota-early :
    (q : Phase)
    → Later (phase false false) q
    → (r : Request) → dispatch q r ≡ to_ota r
    → (q ≡ phase true true)
      ⊎ ((q ≡ phase true false) × (a : ℕ) × (m : ℕ) × (n : ℕ) × (r ≡ reallocarray a m n))
ota-early q l r e = go (Later-IsReached q l)
  where
    go :
        IsReached q
        → (q ≡ phase true true)
          ⊎ ((q ≡ phase true false) × (a : ℕ) × (m : ℕ) × (n : ℕ) × (r ≡ reallocarray a m n))
    go (inl f) = absurd (not_at_first r (rw f at e))
    go (inr (inl f)) = let (a, m, n, g) = one_between r (rw f at e) in inr (f, a, m, n, g)
    go (inr (inr f)) = inl f
