-- ===== src/AliasCache/Threads.antt =====
-- All the threads of a process: each has the cache of alloc_alias.c in thread-local storage, and they
-- share `alias_addr_high`. A call touches that counter once, by an atomic fetch-and-add, so the calls
-- of all the threads happen in the order of these additions.
use budalloc.Prelude.{
  ℕ, zero, suc, ◌+◌, ◌^◌, ◌≤◌, ◌<◌, ◌≡◌, refl, List, [], ◌∷◌, leb, arith, if◌then◌else◌,
}
use budalloc.AliasCache.{AliasRange, span, AliasState, Grant, alloc_alias}
use budalloc.AliasCache.Slots.{holders, Below, Below-mono, holders-above}
use budalloc.AliasCache.Once.{supply, granted, huge_len, Outcome, alloc_alias_lem}

-- The counter, the caches by thread, and what has been granted, with the number of pages.
abbrev pub Process : Type 0
Process = ℕ × List (List AliasRange) × List (ℕ × Grant)

-- A call by the first thread, or by a later one.
abbrev first_calls : ℕ → List (List AliasRange) → AliasState × Grant → Process
first_calls n l (s, g) = (s.high, s.cache ∷ l, (n, g) ∷ [])

abbrev later_calls : List AliasRange → Process → Process
later_calls c (h, l, g) = (h, c ∷ l, g)

-- Thread `t` calls `alloc_alias` for `n` pages.
unfoldable pub call_on : ℕ → ℕ → ℕ → List (List AliasRange) → Process
call_on t n h [] = (h, [], [])
call_on zero n h (c ∷ l) = first_calls n l (alloc_alias (record { high = h; cache = c }) n)
call_on (suc t) n h (c ∷ l) = later_calls c (call_on t n h l)

unfoldable pub chain : List (ℕ × Grant) → List (ℕ × Grant) → List (ℕ × Grant)
chain [] l = l
chain (g ∷ k) l = g ∷ chain k l

-- Any sequence of calls, each by the thread it names.
unfoldable pub run_calls : List (ℕ × ℕ) → ℕ → List (List AliasRange) → Process
run_calls [] h l = (h, l, [])
run_calls ((t, n) ∷ calls) h l =
    let (h', l', g) = call_on t n h l in
    let (h'', l'', k) = run_calls calls h' l' in (h'', l'', chain g k)

-- How many of the grants have an address.
unfoldable pub grants : ℕ → List (ℕ × Grant) → ℕ
grants a [] = 0
grants a ((n, g) ∷ l) = granted a n g + grants a l

-- The bytes that the calls can take from the counter.
unfoldable pub total_len : List (ℕ × ℕ) → ℕ
total_len [] = 0
total_len ((t, n) ∷ calls) = huge_len n + total_len calls

unfoldable pub holders_all : ℕ → List (List AliasRange) → ℕ
holders_all a [] = 0
holders_all a (c ∷ l) = holders a c + holders_all a l

abbrev pub AllBelow : ℕ → List (List AliasRange) → Type 0
AllBelow h [] = Unit {0}
AllBelow h (c ∷ l) = Below h c × AllBelow h l

-- `k` caches of `m` slots that are all 0.
unfoldable pub empty_cache : ℕ → List AliasRange
empty_cache zero = []
empty_cache (suc m) = span 0 0 ∷ empty_cache m

unfoldable pub empty_caches : ℕ → ℕ → List (List AliasRange)
empty_caches zero m = []
empty_caches (suc k) m = empty_cache m ∷ empty_caches k m

AllBelow-mono : (h h' : ℕ) (l : List (List AliasRange)) → h ≤ h' → AllBelow h l → AllBelow h' l
AllBelow-mono h h' [] p b = tt
AllBelow-mono h h' (c ∷ l) p b = (Below-mono h h' c p b.0, AllBelow-mono h h' l p b.1)

holders_all-above :
    (h a : ℕ) (l : List (List AliasRange)) → AllBelow h l → h ≤ a → holders_all a l ≡ 0
unfolding holders_all
holders_all-above h a [] b p = refl
holders_all-above h a (c ∷ l) b p =
    omega (arith, holders-above h a c b.0 p, holders_all-above h a l b.1 p)

-- What calls do to the supply of all the threads.
abbrev Served : ℕ → ℕ → List (List AliasRange) → Process → Type 0
Served limit h l (h', l', g) =
    AllBelow h' l'
    × (h ≤ h')
    × (h' ≤ limit)
    × ((a : ℕ)
        → (if leb h' a then 1 else 0) + holders_all a l' + grants a g
          ≤ (if leb h a then 1 else 0) + holders_all a l)

grants-chain : (a : ℕ) (k l : List (ℕ × Grant)) → grants a (chain k l) ≡ grants a k + grants a l
unfolding grants chain
grants-chain a [] l = omega arith
grants-chain a ((n, g) ∷ k) l = omega (arith, grants-chain a k l)

first_calls_lem :
    (n h : ℕ) (c : List AliasRange) (l : List (List AliasRange)) (r : AliasState × Grant)
    → AllBelow h l
    → Outcome n (h + huge_len n) (record { high = h; cache = c }) r
    → Served (h + huge_len n) h (c ∷ l) (first_calls n l r)
unfolding grants holders_all supply
first_calls_lem n h c l (s, g) b (below, up, top, kept) =
    ((below, AllBelow-mono h s.high l up b), up, top, λ a. omega (arith, kept a))

later_calls_lem :
    (limit h : ℕ) (c : List AliasRange) (l : List (List AliasRange)) (r : Process)
    → Below h c
    → Served limit h l r
    → Served limit h (c ∷ l) (later_calls c r)
unfolding holders_all
later_calls_lem limit h c l (h', l', g) b (below, up, top, kept) =
    ((Below-mono h h' c up b, below), up, top, λ a. omega (arith, kept a))

call_on_lem :
    (t n h : ℕ) (l : List (List AliasRange))
    → AllBelow h l
    → h + huge_len n < 2 ^ 64
    → Served (h + huge_len n) h l (call_on t n h l)
unfolding call_on holders_all grants
call_on_lem t n h [] b room = (tt, omega arith, omega arith, λ a. omega arith)
call_on_lem zero n h (c ∷ l) b room =
    let s : AliasState = record { high = h; cache = c } in
    first_calls_lem n h c l (alloc_alias s n) b.1 (alloc_alias_lem s n b.0 room)
call_on_lem (suc t) n h (c ∷ l) b room =
    later_calls_lem (h + huge_len n) h c l (call_on t n h l) b.0 (call_on_lem t n h l b.1 room)

run_calls_lem :
    (calls : List (ℕ × ℕ)) (h : ℕ) (l : List (List AliasRange))
    → AllBelow h l
    → h + total_len calls < 2 ^ 64
    → Served (h + total_len calls) h l (run_calls calls h l)
unfolding run_calls total_len grants
run_calls_lem [] h l b room = (b, omega arith, omega arith, λ a. omega arith)
run_calls_lem ((t, n) ∷ calls) h l b room =
    let one = call_on_lem t n h l b (omega arith) in
    let rest =
      run_calls_lem calls (call_on t n h l).0 (call_on t n h l).1 one.0 (omega (arith, one.2)) in
    (
      rest.0,
      omega (arith, one.1, rest.1),
      omega (arith, one.2, rest.2),
      λ a.
          let e =
            grants-chain a (call_on t n h l).2
              (run_calls calls (call_on t n h l).0 (call_on t n h l).1).2 in
          omega (arith, e, one.3 a, rest.3 a),
    )

empty_cache_lem : (h m : ℕ) → Below h (empty_cache m)
unfolding empty_cache
empty_cache_lem h zero = tt
empty_cache_lem h (suc m) = (omega arith, omega arith, empty_cache_lem h m)

empty_caches_lem : (h k m : ℕ) → AllBelow h (empty_caches k m)
unfolding empty_caches
empty_caches_lem h zero m = tt
empty_caches_lem h (suc k) m = (empty_cache_lem h m, empty_caches_lem h k m)

holders-empty : (a m : ℕ) → holders a (empty_cache m) ≡ 0
unfolding empty_cache holders
holders-empty a zero = refl
holders-empty a (suc m) = ground (arith, holders-empty a m)

holders_all-empty : (a k m : ℕ) → holders_all a (empty_caches k m) ≡ 0
unfolding empty_caches holders_all
holders_all-empty a zero m = refl
holders_all-empty a (suc k) m = omega (arith, holders-empty a m, holders_all-empty a k m)

-- From empty caches of any number of threads, and for any sequence of calls, each by any of the
-- threads, whose new huge pages end below 2 ^ 64: no address lies in the pages of two grants, the
-- pages given up behind a grant included, and no address below the first value of the counter lies in
-- any.
pub run_calls-once :
    (calls : List (ℕ × ℕ)) (base threads slots : ℕ)
    → base + total_len calls < 2 ^ 64
    → (a : ℕ)
    → grants a (run_calls calls base (empty_caches threads slots)).2 ≤ (if leb base a then 1 else 0)
run_calls-once calls base threads slots room a =
    let b = empty_caches_lem base threads slots in
    let served = run_calls_lem calls base (empty_caches threads slots) b room in
    omega (arith, served.3 a, holders_all-empty a threads slots)
