-- ===== src/PageOps/Tests.antt =====
-- A loop as `bpf_loop` runs it, and the theorem at two pages.
use budalloc.Prelude.{ℕ, zero, suc, ◌==◌, if◌then◌else◌}

-- The rounds made, where `i` are made and `k` are left.
unfoldable rounds_from : ℕ → ℕ → (ℕ → ℕ) → ℕ
rounds_from zero i f = i
rounds_from (suc k) i f = let rest = rounds_from k (suc i) f in if f i == 0 then rest else suc i

unfoldable rounds : ℕ → (ℕ → ℕ) → ℕ
rounds n f = rounds_from n 0 f

abbrev unsets : ℕ → ℕ → ℕ
unsets a n = 0
