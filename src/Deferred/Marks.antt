-- ===== src/Deferred/Marks.antt =====
-- The marks of a word that goes back into a reservation, and the flush that they ask for.
use budalloc.Prelude.{ℕ, ◌+◌, ◌*◌, ◌%◌, ◌^◌, ◌<◌, ◌≡◌, arith, bit_or-above}
use budalloc.Deferred.{marked, get_flush, get_buf_ver, get_tid}

-- The four fields of the word lie side by side.
marked-sum :
    (tid version a : ℕ)
    → tid < 64
    → version < 8
    → a < 2 ^ 54
    → marked tid version a ≡ a + tid * 2 ^ 54 + version * 2 ^ 60 + 2 ^ 63
unfolding marked
marked-sum tid version a t v c =
    let e : tid * 2 ^ 54 % 2 ^ 64 ≡ tid * 2 ^ 54 = omega arith in
    let f : version * 2 ^ 60 % 2 ^ 64 ≡ version * 2 ^ 60 = omega arith in
    rw
      (
        e,
        f,
        bit_or-above 54 a tid c,
        bit_or-above 60 (a + tid * 2 ^ 54) version (omega arith),
        bit_or-above 63 (a + tid * 2 ^ 54 + version * 2 ^ 60) 1 (omega arith),
      )
      (omega arith)

-- For a thread index below 64, a version below 8 and an address below 2 ^ 54: the word is marked for a
-- flush, with that version and that thread, and the address stands below.
pub marked-fields :
    (tid version a : ℕ)
    → tid < 64
    → version < 8
    → a < 2 ^ 54
    → (get_flush (marked tid version a) ≡ 1)
      × (get_buf_ver (marked tid version a) ≡ version)
      × (get_tid (marked tid version a) ≡ tid)
      × (marked tid version a % 2 ^ 54 ≡ a)
unfolding get_flush get_buf_ver get_tid
marked-fields tid version a t v c =
    let e = marked-sum tid version a t v c in
    (omega (arith, e), omega (arith, e), omega (arith, e), omega (arith, e))
