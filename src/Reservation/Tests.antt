-- ===== src/Reservation/Tests.antt =====
-- A reservation of three blocks, and the theorem at it.
use budalloc.Prelude.{ℕ, ◌≡◌, refl, List, [], ◌∷◌}
use budalloc.Reservation.{pages_of, packed, rest_words, place, fill}

-- A word marked for a flush, and two new addresses, the second of which reaches into a second page.
abbrev three_entries : List ℕ
three_entries = 0x8140_7000_0000_0040 ∷ 0x7000_0000_1fc0 ∷ 0x7000_0000_3000 ∷ []

three_blocks : fill 128 7 0x1001_0000_0000 three_entries ≡ (
  0x1001_0000_0040 ∷ 0x1001_0000_1fc0 ∷ 0x1001_0000_3000 ∷ [],
  (0x1001_0000_0000, 0x8147_7000_0000_0044)
      ∷ (0x1001_0000_1000, 0x0007_7000_0000_1fc4)
      ∷ (0x1001_0000_2000, 0x0007_7000_0000_2000)
      ∷ (0x1001_0000_3000, 0x0007_7000_0000_3004)
      ∷ [],
)
unfolding fill place packed pages_of rest_words
three_blocks = refl
