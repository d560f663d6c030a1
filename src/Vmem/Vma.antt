-- ===== src/Vmem/Vma.antt =====
-- The areas of an address space, the errors of its operations, and the calls that they make of the
-- page table program.
use text.Mathlib.Text.{◌==◌ as str_eq}
use Prim.Native.String.{String}
use budalloc.Prelude.{
  ℕ, ◌+◌, ◌%◌, ◌^◌, Bool, true, false, ◌&&◌, Option, none, some, List, [], ◌∷◌, ltb, leb, ◌==◌,
  if◌then◌else◌, clear_low,
}

-- `struct vm_area_struct` less its list links, which are the list that it stands in, and `vm_mm`,
-- the one address space of the process. `vm_ops` is left out too: `vma_map` sets it to the
-- anonymous operations or leaves it unset, and `Map` keeps that case apart. `aux` is `none` where
-- the source leaves the field uninitialised.
pub record Vma : Type 0 where
  pub vm_start : ℕ
  pub vm_end : ℕ
  pub vm_page_prot : ℕ
  pub vm_flags : ℕ
  pub name : Option String
  pub aux : Option ℕ

pub data Errno : Type 0 where
  eperm enoent enomem eexist einval eoverflow enotsup : Errno

-- A call of the page table program: `vma_op_unmap`, `vma_op_set_prot` and `vma_op_advise`.
pub data Call : Type 0 where
  unmap : ℕ → ℕ → Call
  set_prot : ℕ → ℕ → ℕ → Call

-- What an operation leaves: the areas and the calls made, an error with the areas as they are then,
-- or the end of the process (PANIC, TODO).
pub data Run : Type 0 where
  done : List Vma → List Call → Run
  failed : Errno → List Vma → Run
  panic : Run

-- VADDR_BASE
abbrev pub vaddr_base : ℕ
vaddr_base = 0x100000000

-- PAGE_ALIGNED
abbrev pub page_aligned : ℕ → Bool
page_aligned x = x % 4096 == 0

-- PAGE_ALIGN, which wraps as `unsigned long` does
abbrev pub page_align : ℕ → ℕ
page_align x = clear_low ((x + 4095) % 2 ^ 64) 12

-- The test of names in `vmem_vma_can_merge`: equal pointers, or two texts that `strcmp` finds equal.
unfoldable pub name_eq : Option String → Option String → Bool
name_eq none none = true
name_eq none (some t) = false
name_eq (some s) none = false
name_eq (some s) (some t) = str_eq s t

-- The abstract view of an address space: what a page at address `a` is mapped as.
abbrev pub Attr : Type 0
Attr = ℕ × ℕ × Option String

abbrev pub attr : Vma → Attr
attr v = (v.vm_page_prot, v.vm_flags, v.name)

abbrev pub holds : Vma → ℕ → Bool
holds v a = leb v.vm_start a && ltb a v.vm_end

unfoldable pub attr_at : ℕ → List Vma → Option Attr
attr_at a [] = none
attr_at a (v ∷ l) = if holds v a then some (attr v) else attr_at a l

-- Whether an address lies in `[vaddr, vaddr + len)`.
abbrev pub in_range : ℕ → ℕ → ℕ → Bool
in_range vaddr len a = leb vaddr a && ltb a (vaddr + len)
