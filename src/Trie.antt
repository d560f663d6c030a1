-- ===== src/Trie.antt =====
-- The trie of aliases, libkernel/src/lib/trie.c: for each alias page the word that says which
-- canonical page it stands for. The iterators of one thread, while no other thread has a node of
-- theirs: a compare-and-swap on the word just read succeeds, and a lock that is held is held for good.
pub mod Iter
pub mod Tables
pub mod Runs
pub mod Rest
pub mod Access
pub mod Find
pub mod Level
pub mod Free
pub mod Open
pub mod Store
pub mod Fill
pub mod Malloc
pub mod Roundtrip
pub mod Refuse
pub mod Wipe
pub mod Next
mod Tests
use budalloc.Prelude.{
  ℕ, ◌+◌, ◌-◌, ◌*◌, ◌/◌, ◌%◌, ◌^◌, Bool, true, false, Option, none, some, ◌==◌, if◌then◌else◌,
}

-- An entry of a table that points to a node, by what its word holds: 0; the destroyed mark, which
-- only the entries of a table of level 2 get; or the count in the upper 16 bits, the lock bit, and the
-- node, whose address is left out. A node is the function from an index to its entry.
pub data Slot (A : Type 0) : Type 0 where
  empty : Slot A
  destroyed : Slot A
  node : ℕ → Bool → (ℕ → A) → Slot A

-- Entries of the tables of level 2, 3 and 4. A table of level 1 holds words, 0 for NULL.
abbrev pub Entry1 : Type 0
Entry1 = Slot ℕ

abbrev pub Entry2 : Type 0
Entry2 = Slot Entry1

abbrev pub Entry3 : Type 0
Entry3 = Slot Entry2

-- The root, a table of level 4.
abbrev pub Trie : Type 0
Trie = ℕ → Entry3

-- The indices of an iterator. Its nodes are those on the path that they give.
pub record Indices : Type 0 where
  pub i0 : ℕ
  pub i1 : ℕ
  pub i2 : ℕ
  pub i3 : ℕ

abbrev pub indices : ℕ → ℕ → ℕ → ℕ → Indices
indices a b c d = record { i0 = a; i1 = b; i2 = c; i3 = d }

-- `(key >> (12 + i * 9)) & 0x1ff`
abbrev pub indices_of : ℕ → Indices
indices_of key =
    indices (key / 2 ^ 12 % 512) (key / 2 ^ 21 % 512) (key / 2 ^ 30 % 512) (key / 2 ^ 39 % 512)

unfoldable pub set : {A : Type 0} → (ℕ → A) → ℕ → A → ℕ → A
set t i v j = if i == j then v else t j

-- What an operation does to an entry: the new entry and what it returns, or `none` where it spins for
-- ever, reads through NULL, or takes a count below 0.
abbrev pub Op : Type 0 → Type 0 → Type 0
Op A R = A → Option (A × R)

-- `acquire_trie_node`; `false` for NULL. The count has 16 bits.
unfoldable pub acquire : {A : Type 0} → Op (Slot A) Bool
acquire empty = some (empty, false)
acquire destroyed = some (destroyed, false)
acquire (node c l t) =
    if c == 0 then some (node c l t, false) else some (node ((c + 1) % 2 ^ 16) l t, true)

-- `release_trie_node`: whether the node is gone, with its entry emptied.
unfoldable pub release : {A : Type 0} → Bool → Op (Slot A) Bool
release two_sub empty = none
release two_sub destroyed = none
release two_sub (node c l t) =
    let c' = (c + (if two_sub then 2 ^ 16 - 2 else 2 ^ 16 - 1)) % 2 ^ 16 in
    if c' == 0 then some (empty, true) else some (node c' l t, false)

-- `lock_trie_node`; `false` for NULL.
unfoldable pub lock : {A : Type 0} → Op (Slot A) Bool
lock empty = some (empty, false)
lock destroyed = some (destroyed, false)
lock (node c true t) = none
lock (node c false t) = some (node c true t, true)

-- `unlock_trie_node`: whether the node is destroyed.
unfoldable pub unlock : {A : Type 0} → Op (Slot A) Bool
unlock empty = none
unlock destroyed = none
unlock (node c l t) = if c % 1024 == 0 then some (destroyed, true) else some (node c false t, false)

-- `lock_trie_node_with_entry`; every caller reads through the NULL of a destroyed entry.
abbrev lock_with_entry : {A : Type 0} → Op (Slot A) (Unit {0})
lock_with_entry empty = none
lock_with_entry destroyed = none
lock_with_entry (node c true t) = none
lock_with_entry (node c false t) = some (node c true t, tt)

-- A page that the host has just mapped, as a table of entries `z`.
abbrev pub new_page : {A : Type 0} → A → ℕ → A
new_page z i = z

-- `trie_init`. TRIE_INITIAL_CNT is 0x200.
abbrev trie_init : {A : Type 0} → A → Op (Slot A) (Unit {0})
trie_init z empty = some (node 512 false (new_page z), tt)
trie_init z destroyed = none
trie_init z (node c l t) = some (node c l t, tt)

-- `trie_init_with_lock`
abbrev trie_init_with_lock : {A : Type 0} → A → Op (Slot A) (Unit {0})
trie_init_with_lock z empty = some (node 512 true (new_page z), tt)
trie_init_with_lock z destroyed = lock_with_entry destroyed
trie_init_with_lock z (node c l t) = lock_with_entry (node c l t)

-- `touch_trie_node`
unfoldable pub touch : {A : Type 0} → A → Op (Slot A) (Unit {0})
touch z empty = trie_init z empty
touch z destroyed = trie_init z destroyed
touch z (node c l t) = some (node c l t, tt)

-- `touch_lock_trie_node`
unfoldable pub touch_lock : {A : Type 0} → A → Op (Slot A) (Unit {0})
touch_lock z empty = trie_init_with_lock z empty
touch_lock z destroyed = trie_init_with_lock z destroyed
touch_lock z (node c l t) = lock_with_entry (node c l t)

-- The subtraction of TRIE_META_ONE in `trie_iter_dec_cnt`, `n` times.
unfoldable pub drop_cnt : {A : Type 0} → ℕ → Op (Slot A) (Unit {0})
drop_cnt n empty = none
drop_cnt n destroyed = none
drop_cnt n (node c l t) = some (node ((c + (2 ^ 16 - n % 2 ^ 16)) % 2 ^ 16) l t, tt)

-- An operation on an entry of a node.
abbrev keep_node : {A R : Type 0} → ℕ → Bool → (ℕ → A) → ℕ → Option (A × R) → Option (Slot A × R)
keep_node c l t i none = none
keep_node c l t i (some (v, r)) = some (node c l (set t i v), r)

unfoldable pub within : {A R : Type 0} → ℕ → Op A R → Op (Slot A) R
within i f empty = none
within i f destroyed = none
within i f (node c l t) = keep_node c l t i (f (t i))

abbrev keep_root : {R : Type 0} → Trie → ℕ → Option (Entry3 × R) → Option (R × Trie)
keep_root t i none = none
keep_root t i (some (v, r)) = some (r, set t i v)

-- What an iterator does to the trie.
abbrev pub M : Type 0 → Type 0
M R = Trie → Option (R × Trie)

infixl 5 ◌>>=◌ ◌>>◌
abbrev pub ◌>>=◌ : {A B : Type 0} → M A → (A → M B) → M B
◌>>=◌ m f t = elim (m t) [ none ↦ none | some (a, t') ↦ f a t' ]

abbrev pub ◌>>◌ : {A B : Type 0} → M A → M B → M B
m >> k = m >>= λ _. k

abbrev pub ret : {A : Type 0} → A → M A
ret a t = some (a, t)

-- Operations on `nodes[4]->trie_node[indices[3]]` and so on down to `nodes[1]->data[indices[0]]`.
unfoldable pub at3 : {R : Type 0} → Indices → Op Entry3 R → M R
at3 ix f t = keep_root t ix.i3 (f (t ix.i3))

unfoldable pub at2 : {R : Type 0} → Indices → Op Entry2 R → M R
unfolding at3
at2 ix f = at3 ix (within ix.i2 f)

unfoldable pub at1 : {R : Type 0} → Indices → Op Entry1 R → M R
unfolding at2
at1 ix f = at2 ix (within ix.i1 f)

unfoldable pub at0 : {R : Type 0} → Indices → Op ℕ R → M R
unfolding at1
at0 ix f = at1 ix (within ix.i0 f)

abbrev pub load : Indices → M ℕ
load ix = at0 ix (λ w. some (w, w))

abbrev pub store : ℕ → Indices → M (Unit {0})
store w ix = at0 ix (λ _. some (w, tt))
