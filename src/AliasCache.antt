-- ===== src/AliasCache.antt =====
-- The alias ranges of libkernel/src/alloc/alloc_alias.c: `get_new_huge_aliases` and `alloc_alias` as
-- they are compiled with CONFIG_ALIAS_CACHE 2 and CONFIG_MIN_REMAIN_ALIASES 4.
pub mod Slots
pub mod Once
pub mod Threads
mod Tests
use budalloc.Prelude.{
  ℕ, ◌+◌, ◌*◌, ◌/◌, ◌%◌, ◌^◌, Bool, true, false, Option, none, some, List, [], ◌∷◌, ltb, leb, ◌==◌,
  if◌then◌else◌, add64, sub64,
}

-- `struct alias_range`; an unused slot has both fields 0.
pub record AliasRange : Type 0 where
  pub start : ℕ
  pub end : ℕ

abbrev pub span : ℕ → ℕ → AliasRange
span s e = record { start = s; end = e }

-- The cache of one thread, and the counter `alias_addr_high` that all threads share.
pub record AliasState : Type 0 where
  pub high : ℕ
  pub cache : List AliasRange

-- The address that `alloc_alias` returns, what it adds to `*n_consume` (0 where it leaves it alone),
-- and the ranges for which it calls `trie_remove_range`.
pub record Grant : Type 0 where
  pub start : ℕ
  pub n_consume : ℕ
  pub removed : List AliasRange

abbrev pub grant : ℕ → ℕ → List AliasRange → Grant
grant s n l = record { start = s; n_consume = n; removed = l }

-- `x << k` on `uint64_t`
abbrev pub shl64 : ℕ → ℕ → ℕ
shl64 x k = x * 2 ^ k % 2 ^ 64

-- What an allocation of `len` bytes leaves of a slot, and `*n_consume`: a rest of less than four
-- pages is given up.
unfoldable pub rest_of : AliasRange → ℕ → AliasRange × ℕ
rest_of r len =
    let alloc_end = add64 r.start len in
    let n_remain = sub64 r.end alloc_end / 2 ^ 12 in
    if ltb alloc_end r.end
    then if ltb n_remain 4 then (span 0 0, n_remain) else (span alloc_end r.end, 0)
    else (span 0 0, 0)

-- The first loop: the first slot that is long enough.
unfoldable pub take_from : ℕ → List AliasRange → Option (ℕ × ℕ × List AliasRange)
take_from len [] = none
take_from len (r ∷ l) =
    let (r', n) = rest_of r len in
    if leb (add64 r.start len) r.end
    then some (r.start, n, r' ∷ l)
    else elim (take_from len l) [ none ↦ none | some (s, m, l') ↦ some (s, m, r ∷ l') ]

-- The second loop: the first slot that is not used gets the range.
unfoldable pub fill : AliasRange → List AliasRange → Option (List AliasRange)
fill r [] = none
fill r (u ∷ l) =
    if u.end == 0 then some (r ∷ l) else elim (fill r l) [ none ↦ none | some l' ↦ some (u ∷ l') ]

-- The third loop: the ranges that are discarded.
unfoldable pub used : List AliasRange → List AliasRange
used [] = []
used (u ∷ l) = if u.end == 0 then used l else u ∷ used l

-- `memset`, and the assignment to slot 0 behind it
unfoldable pub clear : List AliasRange → List AliasRange
clear [] = []
clear (u ∷ l) = span 0 0 ∷ clear l

unfoldable pub set_first : AliasRange → List AliasRange → List AliasRange
set_first r [] = []
set_first r (u ∷ l) = r ∷ l

-- The end of `alloc_alias`: the allocation is at `start`, and what is left of the new huge pages
-- goes into the cache.
unfoldable pub keep_rest : AliasState → ℕ → ℕ → ℕ → AliasState × Grant
keep_rest s start alloc_end huge_end =
    if ltb alloc_end huge_end
    then elim (fill (span alloc_end huge_end) s.cache) [
      | some l ↦ (record s { cache = l }, grant start 0 [])
      | none ↦ (
        record s { cache = set_first (span alloc_end huge_end) (clear s.cache) },
        grant start 0 (used s.cache),
      )
    ]
    else (s, grant start 0 [])

-- The counter is moved on by `huge` bytes, and its old value is the answer.
unfoldable pub get_new_huge_aliases : AliasState → ℕ → AliasState × ℕ
get_new_huge_aliases s huge = (record s { high = add64 s.high huge }, s.high)

-- New huge pages from `get_new_huge_aliases`, which are joined to slot 0 where they follow it.
unfoldable pub grow : AliasState → ℕ → ℕ → List AliasRange → AliasState × Grant
grow s len huge [] =
    let (taken, start) = get_new_huge_aliases s huge in
    keep_rest taken start (add64 start len) (add64 start huge)
grow s len huge (u ∷ l) =
    let (taken, start) = get_new_huge_aliases s huge in
    if start == u.end
    then (
      record taken { cache = span (add64 u.start len) (add64 start huge) ∷ l },
      grant u.start 0 [],
    )
    else keep_rest taken start (add64 start len) (add64 start huge)

-- Whether the first loop has found a slot.
unfoldable pub grant_from :
    AliasState → ℕ → ℕ → Option (ℕ × ℕ × List AliasRange) → AliasState × Grant
grant_from s len huge none = grow s len huge s.cache
grant_from s len huge (some (start, n, l)) = (record s { cache = l }, grant start n [])

unfoldable pub alloc_alias : AliasState → ℕ → AliasState × Grant
alloc_alias s n_alias =
    let len = shl64 n_alias 12 in
    let n_huges = (n_alias + 511) % 2 ^ 64 / 2 ^ 9 in
    grant_from s len (shl64 n_huges 21) (take_from len s.cache)
