-- ===== src/Trie/Tables.antt =====
-- Tables, written and counted.
use budalloc.Prelude.{
  ℕ, zero, suc, ◌+◌, ◌≤◌, ◌<◌, ◌≡◌, refl, Bool, true, false, ◌==◌, if◌then◌else◌, arith,
}
use mathlib.Core.Path.{fun_ext}
use budalloc.Trie.{set}

abbrev pub one_if : Bool → ℕ
one_if true = 1
one_if false = 0

module _ {A : Type 0} where
  pub set-at : (t : ℕ → A) (i j : ℕ) (v : A) → set t i v j ≡ (if i == j then v else t j)
  unfolding set
  set-at t i j v = refl

  pub set-same : (t : ℕ → A) (i : ℕ) (v : A) → set t i v i ≡ v
  unfolding set
  set-same t i v = ground arith

  pub set-set : (t : ℕ → A) (i : ℕ) (v w : A) → set (set t i v) i w ≡ set t i w
  unfolding set
  set-set t i v w = fun_ext (λ j. ground arith)

  pub set-get : (t : ℕ → A) (i : ℕ) → set t i (t i) ≡ t
  unfolding set
  set-get t i = fun_ext (λ j. get j)
    where
      get : (j : ℕ) → (if i == j then t i else t j) ≡ t j
      get j = ground arith

  -- The indices below `n` whose entry passes the test.
  unfoldable pub tally : (A → Bool) → ℕ → (ℕ → A) → ℕ
  tally p zero t = 0
  tally p (suc n) t = one_if (p (t n)) + tally p n t

  tally-set_above :
      (p : A → Bool) (n : ℕ) (t : ℕ → A) (i : ℕ) (v : A)
      → n ≤ i
      → tally p n (set t i v) ≡ tally p n t
  unfolding tally set
  tally-set_above p zero t i v h = refl
  tally-set_above p (suc n) t i v h = ground (arith, tally-set_above p n t i v)

  pub tally-set :
      (p : A → Bool) (n : ℕ) (t : ℕ → A) (i : ℕ) (v : A)
      → i < n
      → tally p n (set t i v) + one_if (p (t i)) ≡ tally p n t + one_if (p v)
  unfolding tally set
  tally-set p zero t i v h = absurd (omega arith)
  tally-set p (suc n) t i v h = ground (arith, tally-set p n t i v, tally-set_above p n t i v)

  pub tally-none :
      (p : A → Bool) (n : ℕ) (t : ℕ → A) (i : ℕ) → i < n → tally p n t ≡ 0 → p (t i) ≡ false
  unfolding tally
  tally-none p zero t i h e = absurd (omega arith)
  tally-none p (suc n) t i h e = ground (arith, tally-none p n t i)

  pub tally-unused :
      (p : A → Bool) (n : ℕ) (t : ℕ → A) → ((i : ℕ) → p (t i) ≡ false) → tally p n t ≡ 0
  unfolding tally
  tally-unused p zero t h = refl
  tally-unused p (suc n) t h = ground (arith, h n, tally-unused p n t h)
