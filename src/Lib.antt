-- ===== src/Lib.antt =====
-- Walden's kernel Rocinante, the parts that hand out memory.
--
-- The kernel boots with a list of memory regions from its boot environment. The physical memory manager
-- turns that list into a bitmap and a table of page frames, and from then on hands out physical pages and
-- counts their references and mappings. The kernel virtual address allocator hands out ranges of kernel
-- virtual addresses. The paging code takes the pages of its tables from the memory manager and counts the
-- mappings of frames there. When a mapping changes, the CPUs are told through mailboxes to drop what they
-- have cached of it. The virtual memory manager's pagers and the heap are clients of these.
--
-- Which file models which part:
--   Base         shared names, Boolean tests, lists by native numbers, 64-bit words and single bits.
--   Kva          rocinante/src/memory/kernel_va_allocator.h, the class KernelVirtualAddressAllocator: the
--                record `Allocator` is its state; `init`, `allocate`, `reserve` and `release` are Init,
--                Allocate, Reserve and Free. Below it, Ranges, Search, Carve, Merge and Coalesce hold
--                lemmas on free lists, and Allocation, Reservation, Release and RoundTrip what the
--                methods do.
--   Boot         rocinante/src/memory/boot_memory_map.h and boot_memory_map.cpp: the regions and
--                AddRegion.
--   Pmm          rocinante/src/memory/pmm.h and pmm.cpp, the class PhysicalMemoryManager: the record `Pmm`
--                is its state, with the bitmap's bytes and the frame metadata as functions of the index,
--                and each method has the function of its name in snake_case. Placement has the searches of
--                _allocate_bitmap and _allocate_frame_metadata, and Boot InitializeFromBootMemoryMap. The
--                other modules below it hold the invariant and what the methods do.
--   Layout       rocinante/src/memory/virtual_layout.h: the base of the higher half of the virtual addresses,
--                and the window there that maps physical memory.
--   Paging       rocinante/src/memory/paging.h and paging.cpp: entries, layouts and checks. Tables has the
--                operations: the record `Memory` is the manager's state and the entries of every table, and
--                `map_page`, `translate`, `unmap_page`, `map_range`, `free_all_page_tables` and
--                `allocate_root_page_table` are MapPage4KiB and the others; the overloads without address
--                widths end in `_with_cpucfg`. The modules below Tables hold the invariant that the tables
--                of a root form a tree, and what the operations do to walks in it. Coverage relates
--                the indices of the levels to pages.
--   Shootdown    rocinante/src/memory/tlb_shootdown_state.h, the class State: each method has the function
--                of its name in snake_case, and publish_to_targets is the common body of the three
--                publishers. Runs has the step relation: one step is one call of a method that changes the
--                state, each but Reset, with which a run begins. In a run the counter of generations does not
--                run out, and a caller gives RecordAcknowledgedGeneration, PublishRequestToCore and
--                PublishRequestToTargets no generation that the counter has not reached.
--
-- State is passed explicitly: an operation returns its result beside the new state, also where it fails,
-- since some operations of the source change state and then fail.
--
-- Words: addresses and sizes are numbers below 2 ^ 64, and the sums and differences that may wrap in the
-- source are taken modulo 2 ^ 64 (`add64`, `sub64`, `mul64`). Counts of references and mappings are below
-- 2 ^ 32.
--
-- Loops: a loop over an array is a recursion on the list of its entries; a loop over indices is a
-- recursion on the number of rounds left. The second pass of Reserve inserts entries into the array
-- that it walks, so it has fuel, the array's length and two more: each round moves the index past one
-- range, or is the one round at the range that holds the block. The search for a place for the
-- manager's storage tries 8 candidates in a region, as the source does. The loops over the 64 bits of a
-- mask of CPUs have 65 rounds of fuel, one for each bit and the last, which finds no bit left. The
-- walks of page tables recur on the level.
--
-- Not modelled: the other components of the kernel (the set-up of paging, the pagers, virtual memory
-- objects, the heap, the parser of the flattened device tree, traps, devices and the boot code). The
-- storage of the bitmap and of the metadata is not part of a model of memory: that no other part of
-- the kernel writes to it is taken for granted, as it is for page tables. The methods of the shootdown
-- state are single steps: the atomic accesses of two of them are not interleaved. What CPUCFG reports as
-- the widths of addresses, and the translation mode in CSR.CRMD, are arguments.
pub mod Base
pub mod Boot
pub mod Kva
pub mod Layout
pub mod Paging
pub mod Pmm
pub mod Shootdown
