-- ===== src/Lib.antt =====
-- The parts of BUDAlloc that keep its address spaces: the list of mapped areas of the user level
-- kernel with the system calls on it, the alias ranges that give each allocation addresses of its own,
-- the trie that says which canonical page an alias page stands for, the batch in which freed alias
-- pages wait for their unmapping with the canonical addresses behind them, the page fault program, the
-- size classes, the locks, and the entry points of malloc.
--
-- SizeClass: libkernel/include/ota.h, the rounding of sizes to classes.
-- Vmem: libkernel/src/memory/vmem.c. Vma has the areas and their attributes, Find the searches of
--   vmem_find_vma and vmem_vma_find_range, Merge and Split what joins and cuts areas, Unmap, Protect,
--   Advise and Map the operations vma_unmap, vma_set_prot, vma_advise and vma_map.
-- Syscall: do_mmap, mmap, mprotect, munmap and madvise of libkernel/src/mmap/mmap.c, which call the
--   operations of Vmem.
-- AliasCache: alloc_alias and get_new_huge_aliases of libkernel/src/alloc/alloc_alias.c for one thread,
--   and Threads for any sequence of calls by several of them.
-- FreeBatch: the part of __ota_free (libkernel/src/alloc/alloc_alias.c) that adds freed pages to the
--   buffer of the thread, with adaptive_window_resize, and flush of
--   libkernel/src/memory/page_ops.bpf.c, which empties it. Fault has flush_alias_free_buf of
--   libkernel/src/memory/page_fault.bpf.c, and History sequences of frees.
-- Deferred: the rest of __ota_free behind the trie, with try_deferred_free, and canonical_free,
--   canonical_delayed_free and canonical_flush_delayed_free of libkernel/src/alloc/alloc_canonical.c.
--   History has sequences of frees and of flushes on page faults; Buckets, Held and Conserve follow
--   the canonical addresses, Quiet, Sound, Steps and Order the order of events, Marks and Reuse the words
--   that go back into a reservation, and Early a free that comes to a full buffer.
-- PageFault: page_fault and prefetch_fn of libkernel/src/memory/page_fault.bpf.c. Run, Rounds and
--   Mapping say what is mapped, Skipping which flushes are left out.
-- Entry: the entry points of libkernel/src/alloc/alloc_entry.c, built without LIBC_MALLOC, and the phases
--   of the start of a process that init_mm goes through.
-- PageOps: page_ops, clear and set_protection of libkernel/src/memory/page_ops.bpf.c, which Vmem has as
--   a parameter.
-- Trie: libkernel/src/lib/trie.c, from the operations on one entry (Trie) to the iterators (Iter) and to
--   malloc, free and malloc_usable_size, which use them (Access). A node is a function from indices to
--   entries; Runs, Level, Wipe, Fill, Open and Store have the lemmas on nodes, Rest says what a trie at
--   rest is and which words it gives to pages, and Find, Free, Malloc, Refuse, Next and Roundtrip what
--   the operations do to those words.
-- TrieBlocks: the pages of the nodes, get_new_page, rollback_page and reclaim of the same file.
-- Locks: libkernel/include/spin_lock.h and libkernel/include/rwlock.h, as relations between states.
-- Prelude: Booleans, machine words, lists, masks and fields of words that the parts share.
--
-- A word is a natural number, and sums and differences are taken modulo 2 ^ 64 or 2 ^ 32 where the
-- source's are. The list of areas is a list; a pair of pointers into it is the list cut in two places,
-- and the buffer of freed pages is cut at its index. The answers of kmalloc are Booleans, and the page
-- table program (page_ops) and bpf_unset_page_table are parameters: what they answer for each call.
-- Assertions do nothing, as in a build with CONFIG_NDEBUG. The loop at retry in vma_map runs on fuel,
-- one more than there are areas, which is enough wherever the hint can be added to the end of the
-- areas: each round passes the area that it met. The loops of malloc and free on the pages of a block
-- recur on the number of pages left, bpf_loop on its rounds left, and the loop over the hash on the buckets
-- left.
--
-- Not modelled: trie_remove_range and the caches of nodes, what several threads do to the trie at once,
-- how the reservations of small blocks are filled, realloc and memalign, the canonical allocator
-- (mimalloc), the iterator of the page fault program with its cached nodes, map_page,
-- and liballoc, the console and the other copies of foreign code.
pub mod Prelude
pub mod AliasCache
pub mod Deferred
pub mod Entry
pub mod FreeBatch
pub mod Locks
pub mod PageFault
pub mod PageOps
pub mod Realloc
pub mod Reservation
pub mod SizeClass
pub mod Syscall
pub mod Trie
pub mod TrieBlocks
pub mod Vmem
