-- ===== src/Reservation/Layout.antt =====
-- The blocks of a reservation lie one behind the other on the pages that they asked for.
use Prim.Native.Nat.{bit_or}
use budalloc.Prelude.{
  bit_or_step, bit_or-none, low_bits, bit_or-low_bits, ℕ, zero, suc, ◌+◌, ◌-◌, ◌*◌, ◌/◌, ◌%◌, ◌^◌,
  ◌<◌, ◌≤◌, ◌≡◌, refl, ap, ◌∙◌, List, [], ◌∷◌, ◌++◌, map, arith, add64, length,
}
use mathlib.Core.List.{map-append}
use budalloc.Reservation.{pages_of, packed, total_pages, rest_words, place, fill}

-- An entry that is a multiple of 8 and a count below 4 keep apart.
unpack : (e n : ℕ) → e % 8 ≡ 0 → n < 4 → (bit_or e n / 4 * 4 ≡ e) × (bit_or e n % 4 ≡ n)
unpack e n m h =
    let a = bit_or_step e n in
    let b = bit_or_step (e / 2) (n / 2) in
    let z : n / 2 / 2 ≡ 0 = omega (arith, h) in
    let c : bit_or (e / 2 / 2) (n / 2 / 2) ≡ e / 2 / 2 = rw z (bit_or-none (e / 2 / 2)) in
    (omega (arith, a, b, c, m, h), omega (arith, a, b, c, m, h))

-- The class above leaves the offset in the page.
offset_kept : (e idx : ℕ) → bit_or e (idx * 2 ^ 48 % 2 ^ 64) % 4096 ≡ e % 4096
offset_kept e idx =
    let y : idx * 2 ^ 48 % 2 ^ 64 ≡ (idx % 2 ^ 16 * 2 ^ 36) * 2 ^ 12 = omega arith in
    let b = bit_or-low_bits 12 e (idx % 2 ^ 16 * 2 ^ 36) in
    let l : low_bits 12 e ≡ e % 4096 = omega arith in rw y (omega (arith, b, l))

-- Entries are aligned to 8 bytes, whatever marks they carry.
abbrev pub AllAligned : List ℕ → Type 0
AllAligned [] = Unit {0}
AllAligned (e ∷ l) = (e % 8 ≡ 0) × AllAligned l

-- `n` pages, one behind the other.
unfoldable pub pages_from : ℕ → ℕ → List ℕ
pages_from zero page = []
pages_from (suc n) page = page ∷ pages_from n (page + 4096)

pages_from-append :
    (m n page : ℕ) → pages_from m page ++ pages_from n (page + m * 4096) ≡ pages_from (m + n) page
unfolding pages_from
pages_from-append zero n page =
    let e : page + 0 * 4096 ≡ page = omega arith in
    let f : 0 + n ≡ n = omega arith in rw (e, f) refl
pages_from-append (suc m) n page =
    let e : page + suc m * 4096 ≡ page + 4096 + m * 4096 = omega arith in
    let f : suc m + n ≡ suc (m + n) = omega arith in
    rw (e, f) (ap (λ (l : List ℕ). page ∷ l) (pages_from-append m n (page + 4096)))

-- A block of `n` pages, its first one written apart, and `t` pages behind it.
block_and_rest :
    (n t page : ℕ)
    → 0 < n
    → page ∷ (pages_from (n - 1) (page + 4096) ++ pages_from t (page + n * 4096))
      ≡ pages_from (n + t) page
unfolding pages_from
block_and_rest zero t page h = absurd (omega arith)
block_and_rest (suc m) t page h =
    let e : suc m - 1 ≡ m = omega arith in rw e (pages_from-append (suc m) t page)

-- Each alias lies in the first page of its block, at the offset of its entry, and the next block begins
-- behind the pages of this one.
abbrev pub Placed : ℕ → ℕ → List ℕ → List ℕ → Type 0
Placed alloc_size page [] [] = Unit {0}
Placed alloc_size page [] (a ∷ l) = ⊥
Placed alloc_size page (e ∷ k) [] = ⊥
Placed alloc_size page (e ∷ k) (a ∷ l) =
    (a ≡ page + e % 4096) × Placed alloc_size (page + pages_of alloc_size e * 4096) k l

rest_pages :
    (n page word : ℕ)
    → page + n * 4096 < 2 ^ 64
    → map (λ (w : ℕ × ℕ). w.0) (rest_words n page word) ≡ pages_from n (page + 4096)
unfolding rest_words pages_from
rest_pages zero page word h = refl
rest_pages (suc n) page word h =
    let e : add64 page 4096 ≡ page + 4096 = omega arith in
    rw e (
      ap (λ (l : List ℕ). (page + 4096) ∷ l)
        (rest_pages n (page + 4096) (add64 word 4096) (omega arith)))

pages_of-bounds :
    (alloc_size e : ℕ)
    → 0 < alloc_size
    → alloc_size ≤ 8192
    → (0 < pages_of alloc_size e) × (pages_of alloc_size e < 4)
unfolding pages_of
pages_of-bounds alloc_size e pos small = (omega (arith, pos, small), omega (arith, pos, small))

total_pages-le :
    (alloc_size : ℕ) (entries : List ℕ)
    → 0 < alloc_size
    → alloc_size ≤ 8192
    → total_pages alloc_size entries ≤ 3 * length entries
unfolding total_pages
total_pages-le alloc_size [] pos small = omega arith
total_pages-le alloc_size (e ∷ l) pos small =
    omega (arith, pages_of-bounds alloc_size e pos small, total_pages-le alloc_size l pos small)

pub fill_lem :
    (alloc_size alloc_idx page : ℕ) (entries : List ℕ)
    → 0 < alloc_size
    → alloc_size ≤ 8192
    → 3 * length entries < 2 ^ 32
    → page + 3 * length entries * 4096 < 2 ^ 64
    → AllAligned entries
    → (map (λ (w : ℕ × ℕ). w.0) (fill alloc_size alloc_idx page entries).1
        ≡ pages_from (total_pages alloc_size entries) page)
      × Placed alloc_size page entries (fill alloc_size alloc_idx page entries).0
unfolding fill place packed total_pages pages_from
fill_lem alloc_size alloc_idx page [] pos small few fit h = (refl, tt)
fill_lem alloc_size alloc_idx page (e ∷ l) pos small few fit (a, h) =
    let n = pages_of alloc_size e in
    let (some_page, some_pages) = pages_of-bounds alloc_size e pos small in
    let (entry, count) = unpack e n a some_pages in
    let o = offset_kept e alloc_idx in
    let next : add64 page ((n - 1) * 4096 + 4096) ≡ page + n * 4096 =
      omega (arith, some_page, some_pages) in
    let at : add64 page (e % 4096) ≡ page + e % 4096 = omega arith in
    let total : (n + total_pages alloc_size l) % 2 ^ 32 ≡ n + total_pages alloc_size l =
      omega (arith, some_pages, total_pages-le alloc_size l pos small) in
    let entry_of = bit_or e (alloc_idx * 2 ^ 48 % 2 ^ 64) in
    let behind = (place alloc_idx (page + n * 4096) (packed alloc_size l)).1 in
    let (words, aliases) =
      fill_lem alloc_size alloc_idx (page + n * 4096) l pos small (omega arith)
        (omega (arith, some_pages)) h in
    rw (entry, count, next, total)
      (
        ap (λ (k : List ℕ). page ∷ k)
              (map-append (λ (w : ℕ × ℕ). w.0) (rest_words (n - 1) page (entry_of / 4096 * 4096))
                  behind
                ∙ ap (λ (k : List ℕ). k ++ map (λ (w : ℕ × ℕ). w.0) behind)
                    (rest_pages (n - 1) page (entry_of / 4096 * 4096)
                      (omega (arith, some_page, some_pages)))
                ∙ ap (λ (k : List ℕ). pages_from (n - 1) (page + 4096) ++ k) words)
            ∙ block_and_rest n (total_pages alloc_size l) page some_page,
        (rw (o, at) refl, aliases),
      )
