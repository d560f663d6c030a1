-- ===== src/Trie/Store.antt =====
-- An entry put into a table that counts enough for it, and pages given up.
use budalloc.Prelude.{ℕ, ◌+◌, ◌-◌, ◌≤◌, ◌<◌, ◌≡◌, refl, Bool, true, false, some, arith}
use budalloc.Trie.{node, set, drop_cnt}
use budalloc.Trie.Tables.{tally, tally-set, one_if}
use budalloc.Trie.Rest.{Rest, set-all}

pub drop_cnt_lem :
    {A : Type 0} (m c : ℕ) (s : ℕ → A)
    → m < c
    → c ≤ 512
    → drop_cnt m (node c true s) ≡ some (node (c - m) true s, tt)
unfolding drop_cnt
drop_cnt_lem m c s h most = ground arith

-- A node of which the count, maybe lowered, is enough for one more entry.
pub Rest-set :
    {A : Type 0} (D : Type 0) (used : A → Bool) (P : A → Type 0) (c d : ℕ) (s : ℕ → A) (i : ℕ)
    (v : A)
    → i < 512
    → Rest D used P (node c false s)
    → P v
    → tally used 512 s + one_if (used v) ≤ d + one_if (used (s i))
    → 0 < d
    → d ≤ 512
    → Rest D used P (node d false (set s i v))
Rest-set D used P c d s i v h r new room pos most =
    (refl, pos, most, omega (arith, tally-set used 512 s i v h), set-all P s i v r.4 new)
