-- ===== src/Entry.antt =====
-- The entry points of libkernel/src/alloc/alloc_entry.c, built without LIBC_MALLOC: which allocator
-- each of them calls, by how far the start of the process has come.
pub mod Phases
mod Tests
use budalloc.Prelude.{ℕ, Bool, true, false, not, if◌then◌else◌}

-- `init_libc_done` and `init_kernel_done`
pub record Phase : Type 0 where
  pub init_libc_done : Bool
  pub init_kernel_done : Bool

-- A call of an entry point with its arguments.
pub data Request : Type 0 where
  malloc : ℕ → Request
  free : ℕ → Request
  realloc : ℕ → ℕ → Request
  reallocarray : ℕ → ℕ → ℕ → Request
  calloc : ℕ → ℕ → Request
  memalign : ℕ → ℕ → Request
  posix_memalign : ℕ → ℕ → ℕ → Request
  aligned_alloc : ℕ → ℕ → Request
  malloc_usable_size : ℕ → Request

-- What it calls: the function of that name of OTA or of the C library, `kcalloc` or `kfree` of the
-- kernel allocator, or nothing, when it returns NULL or EINVAL. The assertions of `realloc`,
-- `reallocarray` and `malloc_usable_size` do nothing.
pub data Action : Type 0 where
  to_ota : Request → Action
  to_libc : Request → Action
  kcalloc : ℕ → ℕ → Action
  kfree : ℕ → Action
  null : Action
  einval : Action

abbrev ota_or_libc : Bool → Request → Action
ota_or_libc done r = if done then to_ota r else to_libc r

unfoldable pub dispatch : Phase → Request → Action
dispatch p (malloc size) =
    if not p.init_libc_done then kcalloc 1 size else ota_or_libc p.init_kernel_done (malloc size)
dispatch p (free ptr) =
    if not p.init_libc_done then kfree ptr else ota_or_libc p.init_kernel_done (free ptr)
dispatch p (realloc ptr size) = ota_or_libc p.init_kernel_done (realloc ptr size)
dispatch p (reallocarray ptr nmemb size) =
    ota_or_libc p.init_libc_done (reallocarray ptr nmemb size)
dispatch p (calloc nmemb size) =
    if not p.init_libc_done
    then kcalloc nmemb size
    else ota_or_libc p.init_kernel_done (calloc nmemb size)
dispatch p (memalign alignment size) =
    if not p.init_libc_done then null else ota_or_libc p.init_kernel_done (memalign alignment size)
dispatch p (posix_memalign ptr alignment size) =
    if not p.init_libc_done
    then einval
    else ota_or_libc p.init_kernel_done (posix_memalign ptr alignment size)
dispatch p (aligned_alloc alignment size) =
    if not p.init_libc_done
    then null
    else ota_or_libc p.init_kernel_done (aligned_alloc alignment size)
dispatch p (malloc_usable_size ptr) = ota_or_libc p.init_kernel_done (malloc_usable_size ptr)

abbrev pub phase : Bool → Bool → Phase
phase l k = record { init_libc_done = l; init_kernel_done = k }

-- The two assignments of `init_mm`, which does nothing where the first has been made. Between them it
-- looks up the functions of the C library, and calls `kernel_entry`; both may call entry points.
pub data Step : Phase → Phase → Type 0 where
  libc_found : Step (phase false false) (phase true false)
  kernel_entered : Step (phase true false) (phase true true)

-- The phases that come after a phase.
pub data Later (p : Phase) : Phase → Type 0 where
  now : Later p p
  then_step : {q r : Phase} → Later p q → Step q r → Later p r
