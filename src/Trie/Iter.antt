-- ===== src/Trie/Iter.antt =====
-- The iterators. Each operation takes the indices of the iterator and returns, where it moves, the new
-- ones, with `false` for NULL.
use budalloc.Prelude.{ℕ, ◌+◌, ◌%◌, Bool, true, false, none, ◌==◌, if◌then◌else◌}
use budalloc.Trie.{
  Indices, indices, empty, M, ◌>>=◌, ◌>>◌, ret, at1, at2, at3, acquire, release, lock, unlock,
  touch, touch_lock, drop_cnt,
}

-- L3_RELEASE and L2_RELEASE
abbrev leave3 : Bool → Indices → M Bool
leave3 is_last ix = do at3 ix (release is_last); ret false

abbrev leave2 : Bool → Indices → M Bool
leave2 is_last ix = do is_last ← at2 ix (release is_last); leave3 is_last ix

-- Down from a node of level 2 whose count was taken, and from one of level 3, with the value that
-- `is_last` has where the node below is missing.
abbrev down1 : Bool → Indices → M Bool
down1 is_last ix = do found ← at1 ix lock; if found then ret true else leave2 is_last ix

abbrev down2 : Bool → Bool → Indices → M Bool
down2 junk is_last ix = do
  found ← at2 ix acquire
  if found then down1 is_last ix else leave3 junk ix

-- `trie_iter_init`; `false` for NULL. Where there is no node of level 2, `is_last` has not been set
-- when it is read: `junk` is what it holds.
unfoldable pub trie_iter_init : Bool → Indices → M Bool
trie_iter_init junk ix = do found ← at3 ix acquire; if found then down2 junk false ix else ret false

unfoldable pub trie_iter_finish : Indices → M Bool
trie_iter_finish ix = do
  is_last ← at1 ix unlock
  is_last ← at2 ix (release is_last)
  at3 ix (release is_last)

abbrev pub wrap_add : ℕ → ℕ
wrap_add i = (i + 1) % 512

-- Where the table is full of destroyed entries, its own count is given back.
abbrev drop2 : Bool → Indices → M Bool
drop2 is_last ix = if is_last then at2 ix (release false) else ret false

abbrev drop3 : Bool → Indices → M Bool
drop3 is_last ix = if is_last then at3 ix (release false) else ret false

-- The four cases of `trie_iter_next`: on in the table of level 1, or to the next table of level 1, 2
-- or 3. Behind the last is the PANIC.
abbrev next1 : Bool → Indices → M Bool
next1 is_last ix = do
  found ← at1 ix lock
  if found then drop2 is_last ix >> ret true else leave2 is_last ix

abbrev next2 : Bool → Indices → M Bool
next2 is_last ix = do
  found ← at2 ix acquire
  if found then (do is_last ← drop3 is_last ix; down1 is_last ix) else leave3 is_last ix

abbrev next3 : Bool → Indices → M Bool
next3 is_last ix = do found ← at3 ix acquire; if found then down2 false is_last ix else ret false

abbrev moved : Indices → M Bool → M (Bool × Indices)
moved ix m = do found ← m; ret (found, ix)

abbrev next_table3 : Bool → Indices → M (Bool × Indices)
next_table3 is_last ix = do
  at3 ix (release is_last)
  let ix' = indices ix.i0 ix.i1 ix.i2 (wrap_add ix.i3)
  if ix'.i3 == 0 then (λ _. none) else moved ix' (next3 is_last ix')

abbrev next_table2 : Bool → Indices → M (Bool × Indices)
next_table2 is_last ix = do
  is_last ← at2 ix (release is_last)
  let ix' = indices ix.i0 ix.i1 (wrap_add ix.i2) ix.i3
  if ix'.i2 == 0 then next_table3 is_last ix' else moved ix' (next2 is_last ix')

abbrev next_table1 : Indices → M (Bool × Indices)
next_table1 ix = do
  is_last ← at1 ix unlock
  let ix' = indices ix.i0 (wrap_add ix.i1) ix.i2 ix.i3
  if ix'.i1 == 0 then next_table2 is_last ix' else moved ix' (next1 is_last ix')

unfoldable pub trie_iter_next : Indices → M (Bool × Indices)
trie_iter_next ix =
    let ix' = indices (wrap_add ix.i0) ix.i1 ix.i2 ix.i3 in
    if ix'.i0 == 0 then next_table1 ix' else ret (true, ix')

abbrev pub new1 : Indices → M (Unit {0})
new1 ix = at1 ix (touch_lock 0)

abbrev pub new2 : Indices → M (Unit {0})
new2 ix = at2 ix (touch empty) >> new1 ix

abbrev pub new3 : Indices → M (Unit {0})
new3 ix = at3 ix (touch empty) >> new2 ix

unfoldable pub trie_alloc_iter_init : Indices → M (Unit {0})
trie_alloc_iter_init ix = new3 ix

unfoldable pub trie_alloc_iter_finish : Indices → M Bool
trie_alloc_iter_finish ix = at1 ix unlock

abbrev new_table3 : Indices → M Indices
new_table3 ix =
    let ix' = indices ix.i0 ix.i1 ix.i2 (wrap_add ix.i3) in
    if ix'.i3 == 0 then (λ _. none) else (new3 ix' >> ret ix')

abbrev new_table2 : Indices → M Indices
new_table2 ix =
    let ix' = indices ix.i0 ix.i1 (wrap_add ix.i2) ix.i3 in
    if ix'.i2 == 0 then new_table3 ix' else (new2 ix' >> ret ix')

abbrev new_table1 : Indices → M Indices
new_table1 ix = do
  at1 ix unlock
  let ix' = indices ix.i0 (wrap_add ix.i1) ix.i2 ix.i3
  if ix'.i1 == 0 then new_table2 ix' else (new1 ix' >> ret ix')

unfoldable pub trie_alloc_iter_next : Indices → M Indices
trie_alloc_iter_next ix =
    let ix' = indices (wrap_add ix.i0) ix.i1 ix.i2 ix.i3 in
    if ix'.i0 == 0 then new_table1 ix' else ret ix'

unfoldable pub trie_iter_dec_cnt : Indices → M (Unit {0})
trie_iter_dec_cnt ix = at1 ix (drop_cnt 1)
