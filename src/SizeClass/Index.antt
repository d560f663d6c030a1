-- ===== src/SizeClass/Index.antt =====
-- The index that the trie keeps for an allocation gives back its usable size.
use native.Mathlib.Decide.{dec_le}
use budalloc.Prelude.{
  ℕ, ◌+◌, ◌*◌, ◌/◌, ◌^◌, ◌%◌, ◌≤◌, ◌<◌, ◌≡◌, refl, sym, ◌∙◌, true, ◌&&◌, ◌||◌, ◌==◌, leb, arith, ap,
  passes, passes-each,
}
use budalloc.SizeClass.{size_to_usable_size, size_to_reservation_index, index_to_max_usable_size}

-- The classes come in rows of four, `4 * r + x` for `x` from 5 to 8 holding `x * 2 ^ (4 + r)` bytes.
row_table :
    passes 10 (λ r.
      passes 9 (λ x. r == 0 || leb x 4 || index_to_max_usable_size (4 * r + x) == x * 2 ^ (4 + r)))
    ≡ true
unfolding passes index_to_max_usable_size
row_table = refl

max_of_row :
    (r x : ℕ)
    → 0 < r
    → r < 10
    → 4 < x
    → x < 9
    → index_to_max_usable_size (4 * r + x) ≡ x * 2 ^ (4 + r)
max_of_row r x r0 r1 x0 x1 =
    let row = passes-each 10 _ r row_table r1 in let cell = passes-each 9 _ x row x1 in ground arith

max_zero : index_to_max_usable_size 0 ≡ 8
unfolding index_to_max_usable_size
max_zero = refl

max_of_first : (x : ℕ) → 0 < x → x < 9 → index_to_max_usable_size x ≡ x * 16
unfolding index_to_max_usable_size
max_of_first x lo hi = ground arith

max_of_index :
    (size i : ℕ)
    → size ≤ 0x8000
    → i ≡ size_to_reservation_index size
    → index_to_max_usable_size i ≡ size_to_usable_size size
unfolding size_to_usable_size size_to_reservation_index
max_of_index size i hi e = ground (
  arith,
  max_of_first ((size + 0xf) / 16),
  max_of_row 1 ((size + 0x1f) / 2 ^ 5),
  max_of_row 2 ((size + 0x3f) / 2 ^ 6),
  max_of_row 3 ((size + 0x7f) / 2 ^ 7),
  max_of_row 4 ((size + 0xff) / 2 ^ 8),
  max_of_row 5 ((size + 0x1ff) / 2 ^ 9),
  max_of_row 6 ((size + 0x3ff) / 2 ^ 10),
  max_of_row 7 ((size + 0x7ff) / 2 ^ 11),
  max_of_row 8 ((size + 0xfff) / 2 ^ 12),
  max_zero,
)

-- Up to 0x8000 the index of a size stands for exactly the usable size of that size.
index_roundtrip :
    (size : ℕ)
    → size ≤ 0x8000
    → index_to_max_usable_size (size_to_reservation_index size) ≡ size_to_usable_size size
index_roundtrip size hi = max_of_index size _ hi refl

-- Each of the 45 classes is its own class, and has its own index.
class_table :
    passes 45 (λ i.
      size_to_reservation_index (index_to_max_usable_size i) == i
      && size_to_usable_size (index_to_max_usable_size i) == index_to_max_usable_size i)
    ≡ true
unfolding passes index_to_max_usable_size size_to_usable_size size_to_reservation_index
class_table = refl

class_fixed :
    (i : ℕ)
    → i < 45
    → (size_to_reservation_index (index_to_max_usable_size i) ≡ i)
      × (size_to_usable_size (index_to_max_usable_size i) ≡ index_to_max_usable_size i)
class_fixed i h = let row = passes-each 45 _ i class_table h in ground arith

index-le : (size : ℕ) → size ≤ 0x8000 → size_to_reservation_index size ≤ 40
unfolding size_to_reservation_index
index-le size hi = ground arith

usable_top :
    (size : ℕ)
    → 0x8000 < size
    → size ≤ 0x10000
    → size_to_usable_size size ≡ (size + 0x1fff) / 2 ^ 13 * 2 ^ 13
unfolding size_to_usable_size
usable_top size lo hi = ground arith

usable_has_index :
    (size : ℕ)
    → size ≤ 0x10000
    → (i : ℕ) × (i < 45) × (size_to_usable_size size ≡ index_to_max_usable_size i)
usable_has_index size hi = elim (dec_le size 0x8000) [
  | yes a ↦
      (size_to_reservation_index size, omega (arith, index-le size a), sym (index_roundtrip size a))
  | no a ↦
      let x = (size + 0x1fff) / 2 ^ 13 in
      let row = max_of_row 9 x (omega arith) (omega arith) (omega arith) (omega arith) in
      (36 + x, omega arith, usable_top size (omega arith) hi ∙ sym row)
]

-- A usable size is its own usable size, and its index stands for exactly that size, for sizes up
-- to 0x10000.
pub class_of_usable :
    (size : ℕ)
    → size ≤ 0x10000
    → (size_to_usable_size (size_to_usable_size size) ≡ size_to_usable_size size)
      × (index_to_max_usable_size (size_to_reservation_index (size_to_usable_size size))
          ≡ size_to_usable_size size)
class_of_usable size hi =
    let (i, lt, e) = usable_has_index size hi in
    let (index, usable) = class_fixed i lt in rw e (usable, ap index_to_max_usable_size index)

-- From 0x8001 to 0x10000 the index of a size that is neither a multiple of 0x2000 nor within 0x3ff
-- bytes below one stands for a class that is smaller than the size.
pub top_index_too_small :
    (size : ℕ)
    → 0x8000 < size
    → size ≤ 0x10000
    → 0 < size % 0x2000
    → size % 0x2000 ≤ 0x1c00
    → index_to_max_usable_size (size_to_reservation_index size) < size
unfolding size_to_reservation_index index_to_max_usable_size
top_index_too_small size lo hi above below = ground arith
