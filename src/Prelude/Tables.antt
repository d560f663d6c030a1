-- ===== src/Prelude/Tables.antt =====
-- A test of every number up to a bound, for tables that the checker can run through.
use Prim.Native.Nat.{ℕ, zero, suc, ◌<◌}
use mathlib.Core.Path.{◌≡◌}
use mathlib.Core.Bool.{Bool, true, false}
use native.Mathlib.Omega.{arith}
use budalloc.Prelude.Bools.{if◌then◌else◌}

unfoldable pub passes : ℕ → (ℕ → Bool) → Bool
passes zero test = true
passes (suc k) test = if test k then passes k test else false

pub passes-each : (k : ℕ) (test : ℕ → Bool) (i : ℕ) → passes k test ≡ true → i < k → test i ≡ true
unfolding passes
passes-each zero test i row below = absurd (omega arith)
passes-each (suc k) test i row below = ground (arith, passes-each k test i)
