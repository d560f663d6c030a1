-- ===== src/PageOps.antt =====
-- The page table program of libkernel/src/memory/page_ops.bpf.c as the address space calls it:
-- `page_ops` with PTE_UNMAP and PTE_SET_PROT.
pub mod Protection
mod Tests
use budalloc.Prelude.{ℕ, ◌+◌, ◌-◌, ◌/◌, ◌%◌, ◌^◌, Bool, not, ◌||◌, ltb, ◌==◌, if◌then◌else◌}
use budalloc.Vmem.Vma.{Call, unmap, set_prot, page_aligned}

-- The callback of `set_protection`, which gives up at once.
unfoldable pub set_page_prot : ℕ → ℕ
set_page_prot index = 1

-- The assertions on a range; they are active in this file.
abbrev pub bad_range : ℕ → ℕ → Bool
bad_range lo hi = not (page_aligned lo) || not (page_aligned hi) || not (ltb lo hi)

-- `unset` is `bpf_unset_page_table`, of an address and a length, and `loop` is `bpf_loop`, of a number
-- of rounds and a callback on the index of the round.
module _ (unset : ℕ → ℕ → ℕ) (loop : ℕ → (ℕ → ℕ) → ℕ) where
  -- `set_protection`. -EINVAL is -22 and -E2BIG is -7.
  unfoldable pub set_protection : ℕ → ℕ → ℕ
  set_protection lo hi =
      let n_pages = (hi - lo) / 2 ^ 12 % 2 ^ 32 in
      let ret = loop n_pages set_page_prot in
      if bad_range lo hi
      then 1
      else if ret == 2 ^ 64 - 22
      then 1
      else if ret == 2 ^ 64 - 7
      then 1
      else if ret == n_pages
      then 0
      else 1

  -- `clear`
  unfoldable pub clear_pages : ℕ → ℕ → ℕ
  clear_pages lo hi = if bad_range lo hi then 1 else if unset lo (hi - lo) == 0 then 0 else 1

  unfoldable pub page_ops : Call → ℕ
  page_ops (unmap lo hi) = clear_pages lo hi
  page_ops (set_prot lo hi prot) = set_protection lo hi
