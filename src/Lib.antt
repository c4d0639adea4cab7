-- ===== src/Lib.antt =====
-- The TomatOS kernel: models of its components and the theorems that make them correct.
--
-- Phys models kernel/mem/phys.c, the physical page allocator. A MemoryRegion (memory_region_t) is the
-- pages of one range of the direct map, with a metadata entry for each page and a free list for each
-- of the 24 buddy levels. A free list, whose nodes the code keeps in the free blocks themselves by
-- kernel/lib/list.h, is the list of its nodes' addresses from the head on. Phys/Region has the
-- region and its list operations, Phys/Levels get_level_by_size, Phys/Buddy allocate_from_level and
-- free_at_level with their loops, Phys/Fill add_memory_to_region, and Phys/Allocator the global state
-- (Memory: m_memory_regions, m_memory_region_lock, m_lock_cpu, m_reserved_page) with phys_alloc,
-- phys_free and init_phys_per_cpu.
--
-- Phys/Layout models create_memory_regions, the two passes over the boot loader's memory map: the first
-- counts regions and pages, the second makes the regions and gives each its part of the metadata
-- (Phys/Layout/Place); add_memory then frees the usable pages (Phys/Layout/Add). The first of these takes
-- it that all entries are whole pages, which the boot loader promises of some types only. Phys/FreeMemory
-- says which addresses of a list of regions are free.
--
-- Heap models kernel/mem/alloc.c, the kernel heap: 24 size classes (m_mem_global_regions), each with a
-- part of 512 GB of the address space, a watermark, and a free list that is linked through the first
-- words of the freed blocks. Memory is a function from addresses to words. Heap/Sizes has the size
-- class of a request, Heap/Class and Heap/Mark the invariant of a class, Heap/Sound the invariant of
-- the heap, and Heap/Alloc, Heap/Free and Heap/Realloc what mem_alloc, mem_free and mem_realloc do.
-- A shift of an int that leaves its range is a fault.
--
-- Ring models kernel/lib/list.h: the links of the nodes in memory, and the list of nodes that they
-- stand for. The free lists of Phys are such lists of nodes.
--
-- Stack models kernel/mem/stack.c: the watermark of the small stacks, which several cores move by
-- atomic additions. A run is a list of these additions in the order in which they happen.
--
-- Virt models kernel/mem/virt.c: page tables as entries in memory (Virt/Tables), the functions on ranges
-- (Virt/Ranges) and the page fault handler (Virt/PageFault). Virt/Mapping has what the tables stand
-- for, the entry of each virtual page in its last table, and the invariant of the state after init_virt:
-- below the PML4 the tables form a tree, and the entries 288 to 319 of the PML4, the shadow, lead to the
-- tables of the entries 256 to 287. A page is the same in the shadow; the permissions of the upper
-- tables are not part of its entry. Virt/Pages is the interface to the physical allocator, a parameter of
-- all of it, and Phys/Pages fills it with phys_alloc and phys_free; Virt/Init has the loop of
-- init_virt that makes the shadow (make_shadow), and Virt/Shadow and Virt/Booted a concrete state after
-- it over that allocator. Ranges have at most 2^32 pages, 16 TB, so that no page of
-- one is in another's shadow. Loops count the pages that are left.
--
-- Sched models kernel/thread/scheduler.c and kernel/thread/thread.c for one core: Sched/Core has the
-- state (Core: m_core, with the fields of all threads) and the calls that switch threads, each as one
-- step from the thread that makes it to the thread that runs next, Sched/Threads the pool of threads.
-- The park callback is a function on the state. The scheduler's timer is a flag and a deadline.
-- Sched/Guard joins the stacks of the threads to the page fault handler of Virt.
--
-- Timer models kernel/time/timer.c: the timers of a core (Timers: m_timers, the fields of the timers and
-- the deadline that m_timer_backend was last given), with timer_set, timer_cancel and timer_dispatch.
-- Timer/Tree is the interface of the vendored red-black tree of kernel/lib/rbtree, a parameter.
-- timer_dispatch runs on the readings of the clock, one for each timer that it looks at.
--
-- String models kernel/lib/string.c on a memory of bytes: the copies and the fill by rep movsb and rep
-- stosb, and the comparisons. String/Move has memmove, String/Compare the comparisons.
--
-- Symbols models kernel/debug/debug.c: the table of symbols (Table: m_symbols, m_symbols_count), its
-- quicksort (Symbols/Scan, Partition, Sort), its binary searches (Symbols/Insert, Lookup) and the loading
-- from the kernel's ELF file (Symbols/Load). A range is its first index and the index after its last
-- one, where the code has an int that goes down to -1. mem_realloc and strdup are parameters: whether the
-- array could be made is a Bool, and a file without symbols, for which the code asks for no bytes, is not
-- told apart. The number of symbols has no bound here, where the code has an int.
--
-- Code that can fault returns an Option. A fault is a failed ASSERT, the use of NULL, the unlinking of
-- a node that is on no list, or the taking of a lock that is held, which never returns. NULL itself is
-- `none` of an inner Option in Phys, and the address 0 in Heap. Addresses and sizes are natural
-- numbers with the wrap-around of uintptr_t and uint32_t written out.
--
-- The invariant of a region (Phys/Region/Inv) is stated for blocks of whole pages, that is from level 8
-- on, since a page has one metadata entry. `live level addr` is the set of the blocks that are handed
-- out: the specification's view, which the code does not store. The free and the handed out blocks
-- are aligned, lie in the region and share no address; the entry of the first page of each says what
-- it is; and a page whose entry says that it is free is covered by one of them.
--
-- Loops run on fuel that their own bounds give: the search and the merging loop run over the levels
-- that are left, the splitting loop over the levels between the two blocks, and the loops of
-- add_memory_to_region over the pages that are left.
--
-- Not modelled: init_phys_mappings, the mapping of the memory map's entries; interrupts and their flag,
-- and the interleaving of cores inside of a critical section, which is one step here; the single bytes
-- of a word outside of String; and the other components of the kernel.
pub mod Base
pub mod Phys
pub mod Heap
pub mod Ring
pub mod Stack
pub mod Errors
pub mod Virt
pub mod Sched
pub mod Timer
pub mod String
pub mod Symbols
