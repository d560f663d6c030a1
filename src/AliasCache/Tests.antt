-- ===== src/AliasCache/Tests.antt =====
-- Runs of `alloc_alias`, and the theorems at concrete states.
use budalloc.Prelude.{ℕ, ◌+◌, ◌^◌, ◌≤◌, ◌<◌, ◌≡◌, refl, arith, List, [], ◌∷◌, leb, if◌then◌else◌}
use budalloc.AliasCache.{span, AliasState, grant, grant_from, take_from, rest_of, alloc_alias}
use budalloc.AliasCache.Threads.{run_calls, grants, total_len, empty_caches, run_calls-once}

-- Two slots: one with eight pages, and one that is not used.
abbrev eight_pages : AliasState
eight_pages = record { high = 0x400000; cache = span 0x200000 0x208000 ∷ span 0 0 ∷ [] }

-- A rest of three pages is given up.
alloc_alias-five :
    alloc_alias eight_pages 5
    ≡ (record eight_pages { cache = span 0 0 ∷ span 0 0 ∷ [] }, grant 0x200000 3 [])
unfolding alloc_alias grant_from take_from rest_of
alloc_alias-five = refl

-- Two threads that call in turn.
abbrev calls : List (ℕ × ℕ)
calls = (0, 3) ∷ (1, 510) ∷ (0, 600) ∷ (1, 2) ∷ []

calls-room : 0x200000 + total_len calls < 2 ^ 64
unfolding total_len
calls-room = omega arith

run_calls-once_example :
    grants 0x200000 (run_calls calls 0x200000 (empty_caches 2 8)).2
    ≤ (if leb 0x200000 0x200000 then 1 else 0)
run_calls-once_example = run_calls-once calls 0x200000 2 8 calls-room 0x200000
