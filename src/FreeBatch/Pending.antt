-- ===== src/FreeBatch/Pending.antt =====
-- What `__ota_free` puts into the batch stays there until a flush unmaps it.
use budalloc.Prelude.{
  ℕ, zero, suc, ◌+◌, ◌-◌, ◌/◌, ◌%◌, ◌^◌, ◌≤◌, ◌<◌, ◌≡◌, refl, ap, ◌⊎◌, inl, inr, Option, none, some,
  List, [], ◌∷◌, ◌==◌, arith, add64, length, Bool-cases,
}
use budalloc.FreeBatch.{Pages, pages, Batch, next_window, adaptive_window_resize, join, join_one_of}
use budalloc.FreeBatch.Flush.{within, covers, pending}

-- Entries in use: they do not start at 0, and no end wraps.
abbrev pub AllUsed : List Pages → Type 0
AllUsed [] = Unit {0}
AllUsed (r ∷ l) = (0 < r.start) × (r.start + r.len < 2 ^ 64) × AllUsed l

-- A batch as `__ota_free` keeps it: all its entries are in use, or it is empty; they are 256 at most;
-- and the window is from 1 to 1024.
pub record IsBatch (b : Batch) : Type 0 where
  pub entries : ((b.cur ≡ pages 0 0) × (b.older ≡ [])) ⊎ AllUsed (b.cur ∷ b.older)
  pub short : length b.older < 256
  pub window_low : 1 ≤ b.window_size
  pub window_high : b.window_size ≤ 1024

-- A window from 1 to 1024 stays from 1 to 1024 whatever the count is.
pub next_window-bounds :
    (window cnt : ℕ)
    → 1 ≤ window
    → window ≤ 1024
    → (1 ≤ next_window window cnt) × (next_window window cnt ≤ 1024)
unfolding next_window
next_window-bounds window cnt p q = ground arith

pub adaptive_window_resize-IsBatch :
    (now : ℕ) (b : Batch)
    → IsBatch b
    → IsBatch (adaptive_window_resize now b)
      × ((a : ℕ) → pending a (adaptive_window_resize now b) ≡ pending a b)
unfolding adaptive_window_resize
adaptive_window_resize-IsBatch now b i =
    let (low, high) = next_window-bounds b.window_size b.buf_cnt i.window_low i.window_high in
    elim (Bool-cases ((now - b.msecs) / 100 % 2 ^ 32 == 0)) [
      | inl e ↦ rw e (i, λ a. refl)
      | inr e ↦ rw e (
        record { entries = i.entries; short = i.short; window_low = low; window_high = high },
        λ a. refl,
      )
    ]

module _ (new : Pages) (start_pos : 0 < new.start) (fits : new.start + new.len < 2 ^ 64) where
  -- What a join makes of an entry.
  abbrev Joined : Pages → Option Pages → Type 0
  Joined r none = Unit {0}
  Joined r (some r') =
      (0 < r'.start)
      × (r'.start + r'.len < 2 ^ 64)
      × ((a : ℕ) → within a r' ≡ within a r + within a new)

  join_lem : (r : Pages) → 0 < r.start → r.start + r.len < 2 ^ 64 → Joined r (join r new)
  unfolding join
  join_lem r p q = elim (Bool-cases (add64 r.start r.len == new.start)) [
    | inl e ↦ rw e (p, ground arith, λ a. ground arith)
    | inr e ↦ rw e (elim (Bool-cases (add64 new.start new.len == r.start)) [
      | inl f ↦ rw f (start_pos, ground arith, λ a. ground arith)
      | inr f ↦ rw f tt
    ])
  ]

  abbrev pub JoinedOne : List Pages → Option (List Pages) → Type 0
  JoinedOne l none = Unit {0}
  JoinedOne l (some l') =
      AllUsed l' × (length l' ≡ length l) × ((a : ℕ) → covers a l' ≡ covers a l + within a new)

  pub join_one_of_lem : (n : ℕ) (l : List Pages) → AllUsed l → JoinedOne l (join_one_of n new l)
  unfolding join_one_of covers
  join_one_of_lem zero l u = tt
  join_one_of_lem (suc n) [] u = tt
  join_one_of_lem (suc n) (r ∷ l) u =
      go (join r new) (join_lem r u.0 u.1) (join_one_of n new l) (join_one_of_lem n l u.2)
    where
      go :
          (o : Option Pages)
          → Joined r o
          → (p : Option (List Pages)) → JoinedOne l p
          → JoinedOne (r ∷ l) (elim o [
            | some r' ↦ some (r' ∷ l)
            | none ↦ elim p [ none ↦ none | some l' ↦ some (r ∷ l') ]
          ])
      go (some r') j p k = ((j.0, j.1, u.2), refl, λ a. omega (arith, j.2 a))
      go none j none k = tt
      go none j (some l') k = ((u.0, u.1, k.0), ap suc k.1, λ a. omega (arith, k.2 a))
