-- ===== src/TrieBlocks/Tests.antt =====
-- Tests of the pages of the trie.
use budalloc.Prelude.{◌≡◌, refl, some, [], ◌∷◌, arith, inl, inr}
use budalloc.TrieBlocks.{
  blocks, new_blocks, get_new_page, Range, range, Reclaims, reclaims, reclaim,
}
use budalloc.TrieBlocks.Reclaim.{IsReclaims, Reclaimed, reclaim_lem}
use budalloc.TrieBlocks.Fresh.{IsBlocks, Given, get_new_page_lem}

first_page : get_new_page (λ n. 0x10000) new_blocks ≡ some (0x10000, blocks 0x11000 0x11000 0x2000)
unfolding get_new_page
first_page = refl

abbrev unused : Range
unused = range 0 0

-- Two ranges of 63 and 64 pages.
abbrev nearly_full : Reclaims
nearly_full =
    reclaims
      (range 0x100000 0x13f000
        ∷ range 0x200000 0x240000
        ∷ unused
        ∷ unused
        ∷ unused
        ∷ unused
        ∷ unused
        ∷ unused
        ∷ [])
      127

all_unmapped : reclaim 0x13f000 nearly_full ≡ (
  reclaims (unused ∷ unused ∷ unused ∷ unused ∷ unused ∷ unused ∷ unused ∷ unused ∷ []) 0,
  range 0x100000 0x140000 ∷ range 0x200000 0x240000 ∷ [],
)
unfolding reclaim
all_unmapped = refl

nearly_full-IsReclaims : IsReclaims nearly_full
nearly_full-IsReclaims = record {
  all = (
    inr (omega arith, omega arith, omega arith),
    (
      inr (omega arith, omega arith, omega arith),
      (
        inl (refl, refl),
        (
          inl (refl, refl),
          (inl (refl, refl), (inl (refl, refl), (inl (refl, refl), (inl (refl, refl), tt)))),
        ),
      ),
    ),
  );
  eight = refl;
  counted = refl;
  few = omega arith;
}

reclaim_lem_example : Reclaimed 0x13f000 nearly_full (reclaim 0x13f000 nearly_full)
reclaim_lem_example =
    reclaim_lem 0x13f000 (omega arith) (omega arith) nearly_full nearly_full-IsReclaims

new_blocks-IsBlocks : IsBlocks new_blocks
new_blocks-IsBlocks = record { left = omega arith; top = omega arith; whole = refl; sized = refl }

get_new_page_lem_example : Given (get_new_page (λ n. 0x10000) new_blocks)
get_new_page_lem_example =
    get_new_page_lem (λ n. 0x10000) (λ n small. (omega arith, omega arith)) new_blocks
      new_blocks-IsBlocks
