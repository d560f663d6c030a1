-- ===== src/Vmem.antt =====
-- The virtual address space of libkernel/src/memory/vmem.c: the sorted list of mapped areas, and
-- the operations that map, unmap and protect ranges of it.
pub mod Vma
pub mod Find
pub mod Merge
pub mod Split
pub mod Unmap
pub mod Protect
pub mod Advise
pub mod Map
pub mod Bounds
pub mod Cut
pub mod End
pub mod Range
pub mod Cutting
pub mod Merging
pub mod Parted
mod Tests
