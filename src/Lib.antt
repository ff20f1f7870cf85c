-- ===== src/Lib.antt =====
-- Flash cache simulator: the page-mapping flash translation layer, its garbage collection and
-- its eviction policies, and the FIFO, LRU and FairyWREN caches over it.
--
-- The program simulates caches on flash devices. Each device is a page-mapping FTL (ftl.h,
-- ftl.cpp). It appends the host's pages to an active block per stream, keeps maps between
-- logical and physical pages, and collects garbage when fewer than four blocks are free: a
-- policy (evict_policy.h) names the victim, RunGC copies its valid pages to a block of its own
-- and frees the victim. The default policy takes the block with the fewest valid pages
-- (evict_policy_greedy.h, evict_policy_greedy.cpp).
--
-- Base: names, Boolean tests, maps as functions, counts of set bits. Policy: the interface of
-- the policies as a record of methods, and IsLawful, the laws that the FTL relies on.
-- Policy/Heap: boost's d_ary_heap, a parameter with its documented behaviour (Heap/Lists has a
-- list that behaves so). Policy/Greedy: GreedyEvictPolicy; Policy/Greedy/Counts: the counts by
-- which it compares segments.
--
-- Ftl: Block, PageMappingFTL and its private methods, one function for each, in the program's
-- order of calls. Ftl/Host: the constructor, Write, Trim and the getters. The state is the
-- record Ftl; hash maps and vectors are functions, freePool_ is a list whose head is the
-- vector's back. A failing assert is the result fault. The loop of AllocateNewActiveBlock runs
-- on fuel and gives spin when the fuel is out. NAND_PAGE_SIZE and the other geometry macros,
-- which a build may override, are parameters. Addresses of byte ranges are 64-bit, with their
-- wrap-around; the page counters are kept unbounded, and the getters reduce them. Block and page
-- numbers stay below the device's size, so that their arithmetic does not wrap.
--
-- Ftl/Invariant: IsValid, the well-formedness of the state between calls (maps and valid bits
-- agree, the counts are the numbers of set bits, free blocks are empty and no stream's), and
-- Inv, the same in the middle of an operation with the exceptions that it allows for.
-- Ftl/Append, Changes, Pool: the single changes keep Inv. Ftl/Room, Migrate, Sweep, Gc: garbage
-- collection. Ftl/Wait, Alloc: the wait for space (the fuel needed is the number of pages
-- missing to more than four blocks). Ftl/Forget, Write, Quiet, Fits: Write and Trim. Ftl/Init:
-- the constructor. Ftl/Span: the pages of a byte range. Ftl/Correct: the operations on well-
-- formed states.
--
-- Allocator: DummyAllocator (allocator.h, allocator.cpp), the stack of free cache blocks, and
-- Allocator/Stack: its operations on valid states. Cache: what the FIFO and the LRU cache share,
-- that is the list of keys, the map to blocks and the allocator; Cache/Keys: these agree
-- (IsTable). Cache/Fifo and Cache/Fifo/Queue: FIFOCache (fifo_cache.h, fifo_cache.cpp) and a
-- queue of keys as its specification. Device: what a cache calls of its translation layers, as
-- an interface, and Accepts: a device that serves a number of writes, the quota, of whole units
-- below a limit, and any trims. Device/Flash: PageMappingFTL is such a device, for as many
-- writes as its free pool has blocks for, whatever their streams; beyond that the host's streams
-- may use up all blocks, and a write may not end, so that the theorems on the caches over
-- devices count the writes. Device/Examples: a small FTL on which these theorems are run.
-- Cache/Lru and the modules below it: LRUCache (lru_cache.h, lru_cache.cpp, and _evict_one_block
-- of icache.cpp) and a list ordered by use as its specification. std::map and std::list are
-- lists, unordered_map is a function with a size. An access that the language leaves undefined
-- (front of an empty list, an index out of range) is the result fault. The loops that make room
-- run on one round more than there are keys, which is enough. The percentage of over-
-- provisioning, floating-point in the source, is an argument.
--
-- Ghost: GhostCache (ghost_cache.h, ghost_cache.cpp), the numbers of blocks that left a cache.
-- Policy/Fifo: FifoEvictPolicy (evict_policy_fifo.h, evict_policy_fifo.cpp); Policy/Fifo/Order:
-- the order of its victims.
--
-- Policy/MultiQueue: MultiQueueEvictPolicy (evict_policy_multiqueue.h,
-- evict_policy_multiqueue.cpp), a queue for each range of ages; Policy/MultiQueue/Order: its
-- operations on well-formed queues.
--
-- FairyWren: FairyWrenCache (fairywren_cache.h, fairywren_cache.cpp, log_cache_segment.h), a log
-- of three regions before the cold store: the host's blocks go to the first, and garbage
-- collection moves the valid ones on, or evicts the blocks of a full segment of the third.
-- FairyWren/Log: segments, regions and index; FairyWren/Cache: the state, and the blocks of a
-- segment; FairyWren/Collect: migration, reclaiming, and ensure_active_segment, which calls
-- itself through these: its fuel is the depth of the calls, and four are enough
-- (FairyWren/Find). FairyWren/Host: what the host calls; FairyWren/Init: the constructor. A
-- segment is its number in all_segments_, a deque is a list with its front as head, and a map is
-- a function with its size. An exception is the result thrown. Floating-point rounding (of the
-- regions' shares and of the collection's thresholds) is an argument.
--
-- FairyWren/Index, Places, Invariant: the well-formedness of the log (Inv), while some segments,
-- taken from a list, are in flight: the index leads to the valid blocks and each valid block has
-- its entry, each other segment stands once in the lists of its region, the counts are sums.
-- FairyWren/Lists, Victims, Blocks, Relocation, Drop: the single steps keep it. FairyWren/Safe:
-- what a collection leaves alone. FairyWren/Copy, Reclaim, Ensure, Find: the collections.
-- FairyWren/Invalidate, Refusal, Append, Collections, Batch: the host's requests.
-- FairyWren/Fresh: the constructor. Histogram (histogram.h, histogram.cpp): counts by ranges of
-- a number.
--
-- LogFifo: LogFIFOCache (log_fifo_cache.h, log_fifo_cache.cpp), a ring of blocks over the cold
-- store. LogFifo/Ring: the ring and the map agree (IsRing); LogFifo/Insert and Batch: the
-- insertion of a block and of a request. With EVICTED_BLOCK_SIZE 1, as it is defined, the loop
-- over the range of an evicted block has one round, for the block itself.
--
-- Streams: set_stream_interval (istream.cpp) and the classifier HotCold (hot_cold.cpp), which
-- chooses between two streams by the age of a block.
--
-- Streams/Table: FIFO (fifo.h), the table of recent writes that SepBIT asks for the age of a
-- block's last write.
--
-- Not modelled: the log-structured and MiDAS caches, the other stream classifiers and policies,
-- which none of the modelled parts calls; logs and traces, command lines, the scripts, and
-- MiDAS/, a copy of another project.
pub mod Allocator
pub mod Base
pub mod Cache
pub mod Device
pub mod FairyWren
pub mod Ftl
pub mod Ghost
pub mod Histogram
pub mod LogFifo
pub mod LogSegment
pub mod Policy
pub mod Streams
