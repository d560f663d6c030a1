-- ===== src/Vmem/Bounds.antt =====
-- Areas in order within bounds, and what that says of the pages that they map.
use budalloc.Prelude.{
  ℕ, ◌≤◌, ◌<◌, ◌≡◌, refl, inl, inr, Option, none, some, List, [], ◌∷◌, ◌++◌, arith, Bool-cases,
}
use budalloc.Vmem.Vma.{Vma, Attr, holds, attr_at}

-- The areas of a list are not empty, lie in order and apart, from `lo` up to `hi`.
abbrev pub Between : ℕ → ℕ → List Vma → Type 0
Between lo hi [] = lo ≤ hi
Between lo hi (v ∷ l) = (lo ≤ v.vm_start) × (v.vm_start < v.vm_end) × Between v.vm_end hi l

pub Between-le : (lo hi : ℕ) (l : List Vma) → Between lo hi l → lo ≤ hi
Between-le lo hi [] h = h
Between-le lo hi (v ∷ l) h = omega (arith, Between-le v.vm_end hi l h.2)

pub Between-append :
    (lo m m' hi : ℕ) (k l : List Vma)
    → Between lo m k
    → m ≤ m'
    → Between m' hi l
    → Between lo hi (k ++ l)
Between-append lo m m' hi [] [] h le h' = omega arith
Between-append lo m m' hi [] (w ∷ l) h le h' = (omega arith, h'.1, h'.2)
Between-append lo m m' hi (v ∷ k) l h le h' =
    (h.0, h.1, Between-append v.vm_end m m' hi k l h.2 le h')

pub Between-split :
    (lo hi : ℕ) (k l : List Vma)
    → Between lo hi (k ++ l)
    → (m : ℕ) × Between lo m k × Between m hi l
Between-split lo hi [] l h = (lo, omega arith, h)
Between-split lo hi (v ∷ k) l h =
    let (m, p, q) = Between-split v.vm_end hi k l h.2 in (m, (h.0, h.1, p), q)

pub Between-weaken :
    (lo lo' hi hi' : ℕ) (l : List Vma) → lo' ≤ lo → hi ≤ hi' → Between lo hi l → Between lo' hi' l
Between-weaken lo lo' hi hi' [] p q h = omega arith
Between-weaken lo lo' hi hi' (v ∷ l) p q h =
    (omega arith, h.1, Between-weaken v.vm_end v.vm_end hi hi' l (omega arith) q h.2)

-- A list in bounds maps nothing outside of them.
pub attr_at-below : (a lo hi : ℕ) (l : List Vma) → Between lo hi l → a < lo → attr_at a l ≡ none
unfolding attr_at
attr_at-below a lo hi [] h lt = refl
attr_at-below a lo hi (v ∷ l) h lt = ground (arith, attr_at-below a v.vm_end hi l h.2)

pub attr_at-above : (a lo hi : ℕ) (l : List Vma) → Between lo hi l → hi ≤ a → attr_at a l ≡ none
unfolding attr_at
attr_at-above a lo hi [] h le = refl
attr_at-above a lo hi (v ∷ l) h le =
    ground (arith, attr_at-above a v.vm_end hi l h.2, Between-le v.vm_end hi l h.2)

-- The first answer that is one.
abbrev pub or_else : Option Attr → Option Attr → Option Attr
or_else none y = y
or_else (some x) y = some x

pub attr_at-append :
    (a : ℕ) (k l : List Vma) → attr_at a (k ++ l) ≡ or_else (attr_at a k) (attr_at a l)
unfolding attr_at
attr_at-append a [] l = refl
attr_at-append a (v ∷ k) l = elim (Bool-cases (holds v a)) [
  | inl here ↦ rw here
  | inr past ↦ rw past (attr_at-append a k l)
]

-- Two lists map every page alike.
abbrev pub Same : List Vma → List Vma → Type 0
Same k l = (a : ℕ) → attr_at a k ≡ attr_at a l

pub Same-append : (b k l : List Vma) → Same k l → Same (b ++ k) (b ++ l)
Same-append b k l h a = simp (attr_at-append, h a)
