-- ===== src/Lib.antt =====
-- allox, a general-purpose memory allocator in Rust: its size classes, its address-space
-- reservation, its side table, its pages and spans, its caches of large regions, and the dispatch
-- between its tiers.
--
-- A request goes to one of four tiers by its size and alignment (src/lib.rs). Small, medium and
-- big requests are rounded up to a size class (src/classes.rs) and served from pages and spans that
-- are carved into blocks (src/page.rs). Large ones get a region of their own with a header, first
-- from the thread's stash (src/cache.rs), then from a sharded cache of freed regions (src/lib.rs),
-- else from the kernel. Spans and large regions are slices of one reservation (src/arena.rs), and
-- the side table there says which span or region owns a pointer.
--
-- The files, and what they model; paths are those of the repository:
--   Prelude: names, array and word lemmas that the others share.
--   Classes: src/classes.rs, the tables (`build_classes`, `build_medium`, `build_big`), the
--   lookups (`class_for_size`, `medium_class_for_size`, `big_class_for_size`) and the span lengths.
--   Regions: the arrays of regions that arena, shard and stash each keep, with their searches.
--   Arena: src/arena.rs, `Arena` and `HoleStore`; Arena/Slices has `commit`, `grow_frontier`,
--   `release` and `contains`; Arena/Steps has the threads, Arena/Growth and Arena/Schedules whole
--   calls of `grow_frontier` and `release` among their steps.
--   Table: src/arena.rs, `BIG_MAP` and its writers and readers.
--   Pages: src/page.rs, `PageHeader`, `SpanMaster`, `BigMaster` and the free lists.
--   Large: src/lib.rs, `LargeRegionCache`; Large/Store has the parking part of `free_large`;
--   Large/Stash has the stash of src/cache.rs; Large/Header the size, place and header of a region.
--   Dispatch: src/lib.rs, `alloc_impl`, `alloc_zeroed_impl`, `dealloc_with_layout`, `malloc` and
--   `calloc` as far as they choose a tier; Dispatch/Resolve has `dealloc_impl` and `usable_size`.
--   Retired: src/cache.rs, the slots of `retire` and `take_one`, with the threads; Retired/Schedules
--   has any order of their turns.
--   Registry: src/lib.rs, the hashed registry of large regions outside the arena, with the links
--   through the headers; Registry/Buckets has the lists that the links stand for.
--   Heap: src/heap.rs, one size class of the small heap: the pages of `ListHead`, `fill_from_list`,
--   and in Heap/Class `take_blocks`, `release_inner`, `park_empty_page`, `retire_page_inner` and a
--   chunk of `release_many`; Heap/Steps has the threads. A linked list of pages is the list of its
--   addresses, with its pointers in Heap/Links, and a free list the list of its blocks.
--   Cache: src/cache.rs, the flushes of a `ThreadCache` (`flush_bin`, `flush_mbin`, `flush_bbin`);
--   Cache/Trim has `trim`, `shed` and the flushes of the active spans. What goes to the heap is
--   logged; the owner of a medium or big block is a parameter.
--   Bins: src/cache.rs, one small bin of a `ThreadCache`: `alloc_zeroed`, the split in `refill`, and
--   the push of `dealloc`.
--
-- State is passed on explicitly. A pointer is its address and null is 0. The target is 64-bit unix
-- with `std` in a release build. Numbers are natural numbers; where the source wraps, truncates or
-- checks, the model does so with the width written out. An array with a length is the list of its
-- entries below the length. Memory is a function from addresses.
--
-- Concurrency: a critical section or an atomic exchange of the arena is one step of the relation in
-- Arena/Steps, a critical section of a size class one of the relation in Heap/Steps, an atomic
-- access of a retired slot a turn in Retired, and any number of threads is any order of such steps.
-- The other components are modelled under the lock that guards them, or as the thread's own.
--
-- Parameters: `Kernel` is `mmap`, with what a reservation answers and whether a fixed mapping comes
-- out where it was asked for; a theorem about the reservation assumes that a range that is reserved
-- lies inside the address space. `Discarded` is what a purge reports; a page that a purge reports
-- as zeroed is zero, and so is a page that comes from `map_heap_pages`.
--
-- Fuel: the scans run as many rounds as the table or array has entries. The chains of class sizes
-- have 64 rounds, more than the 24 values of the longest. The search for a span length has 16
-- rounds and ends within 8. The inner loop of a refill has two rounds for each block of a batch and
-- two more, the outer one as many as pages. A flush has as many rounds as blocks in the bin, a trim
-- as many as blocks in the cache, and one more. A walk of the registry has as many rounds as
-- headers are counted. The carving loops have as many rounds as bytes.
--
-- Not modelled: the drift cap, `flush_all` and `reclaim_retired` (src/cache.rs), the medium and big
-- heaps and `release_bin_chunks` (src/heap.rs), `realloc`, the growth of large regions in place,
-- counters, exit hooks and system calls.
pub mod Prelude
pub mod Classes
pub mod Regions
pub mod Arena
pub mod Large
pub mod Table
pub mod Pages
pub mod Dispatch
pub mod Bins
pub mod Registry
pub mod Retired
pub mod Heap
pub mod Cache
