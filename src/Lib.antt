-- ===== src/Lib.antt =====
-- NVAlloc, an allocator for persistent memory. Its parts, and the files that model them:
--
--   - include/nvalloc/internal/bitmap.h: Bitmap. The free blocks of a slab, of a thread cache and of
--     a chunk of the log are bits of an array of 64-bit words, here lists of Booleans with the
--     lowest bit first (Word). `bitmap_ffu`, `bitmap_sfu`, `bitmap_set_bits`, `bitmap_unset_bits`
--     and `get_bitmap_num` have their names. Bitmap/View reads an array as one sequence of bits, and
--     Bitmap/Search is about the two searches.
--   - `bid_to_mid` of slab.h and `count_to_index` of src/log.c and src/minilog.c: Interleave. They
--     spread what is written in a row over the cache lines of six banks.
--   - sizeclass.h and src/sizeclass.c: SizeClass. SizeClass/Table holds the two tables of the
--     header; `sizeclass_boot` is cut at its loops: the lookup tables (`fill_classes`, with
--     `fill_to` for the inner loop) and the layout of each class (`boot_class`, `boot_classes`).
--     Slabs use a class for the places of their marks, their index table and their blocks.
--   - log.h and src/log.c: Log. The chunks of the log file, their volatile parts, and the log that
--     refers to both are one record `VLog`, in which a chunk is known by its address; the red-black
--     tree of rb.h is the parameter `ChunkTree`. `add_log` is cut into `next_slot`, `retire`,
--     `write_item` (together `append_log`) and `collect`, its trigger of the collections in Log and
--     Log/Collect. Log/Inv is the invariant, Log/Append, Log/Retire, Log/Write and Log/Add the steps
--     that keep it, and Log/Timer the timer of the collections.
--   - tcache.h, src/tcache.c and `nvalloc_malloc_to` of src/nvalloc.c: Cache. A thread keeps a stack
--     of free blocks for each bank; Cache/Inv is its invariant, Cache/Turn the choice of the bank,
--     Cache/Take the two operations of a stack, Cache/Malloc a round of the loop of
--     `nvalloc_malloc_to`. The bytes of marks in persistent memory and the `dmeta_t` are `Marks`.
--   - slab.h and src/slab.c: Slab, with `slab_free_small` in Slab/Free. A slab fills the caches by
--     `slab_pop_one_cache` (Slab/Popping, Slab/Touch) and gets blocks back by `slab_free_small`
--     (Slab/Freeing); Slab/Inv is its invariant, Slab/Place says where blocks and marks stand,
--     Slab/Lru is about the counts of the slabs that may change their class, and Slab/Morph has the
--     marks and the table of `slab_morphing`, on which are Slab/InUse, Slab/Flagged and
--     Slab/Returned. A list of slabs is the
--     sequence of the names of its nodes.
--   - `slab_create`, `slab_get_one` and `slab_morphing` of src/slab.c and `tcache_fill_cache` of
--     src/tcache.c: Supply, where a thread gets blocks for a bank of its cache: from the slab at
--     hand, from the others of the bin, from one that changes its class, or from a new one.
--     Supply/Pops is about taking blocks from one slab, Supply/Fill and Supply/Stock about filling a
--     bank, Supply/Create about new slabs.
--   - dl.h and src/dl.c: DoubleList, over a heap of nodes. DoubleList/Ring says that the nodes of a
--     list are linked both ways, DoubleList/Ends is about its ends and DoubleList/Search about the
--     search. The slabs use the sequences that it refines.
--   - minilog.h and src/minilog.c: Minilog, the ring to which each allocation writes the address
--     that is to point to its block; Minilog/Recent is about a run of additions.
--   - `choose_arena_hard`, `arenas_extend` and `arenas_cleanup` of src/nvalloc.c: Arenas, with the
--     counts of threads of all arenas as the state, and Arenas/Choose.
--   - simple_list.h: SimpleList, over a heap of nodes, and SimpleList/Queue, where it is a sequence.
--     The log uses it as that sequence.
--   - extent.h and src/extent.c: Extents, Space and Recycle. An `extent_t` is known by its address,
--     and `Store` has what stands there. Extents has `extents_t`, the extents of one state that are
--     not in use, and the search of the best fit (the build defines NVALLOC_BESTFIT): Extents/Inv is
--     its invariant, Extents/Floor about the class of an extent, Extents/Start, Extents/Insert,
--     Extents/Remove, Extents/Fit and Extents/Extract about its operations. Space has the tree of
--     addresses together with the extents, which are split (Space/Split), merged (Space/Merge) and,
--     for slabs, registered page by page (Space/Register, Space/RegisterSlab) and taken out again
--     (Space/Deregister). Recycle joins both, as `World`: `extents_alloc` (Recycle/Cut,
--     Recycle/Alloc), `extents_dalloc` with the merging of neighbours (Recycle/Coalesce,
--     Recycle/Join) and for slabs (Recycle/Loose, Recycle/Given), and `extents_evict`
--     (Recycle/Evict, Recycle/Chunks, Recycle/Oldest). Whether `extent_alloc` has memory is an
--     argument. The pairing heap, the ring and the radix tree are the parameters of Containers.
--   - arena.h and src/arena.c: Arena, with the memory that is handed out from chunks (Arena/Memory)
--     and, in Arena/Decay, how many pages may stay unused (Arena/Backlog, Arena/Limit). Arena/Purge
--     has `arena_decay`, which takes the oldest extents (Arena/Purge/Stash) and puts them away;
--     Arena/Start has `arena_new`, and Arena/Logged an arena with its log and its decays: the ticks,
--     the pointers that a collection writes (Arena/Logged/Kept), and the extents of slabs with their
--     records in the log, when they are made (Arena/Logged/Fresh), given back (Arena/Logged/Given)
--     and both (Arena/Logged/Back). The chunk that is mapped, the time, whether a ticker fires, the
--     locks, the random jitter and the weights of smoothstep.h are arguments.
--   - `tcache_alloc_large` of tcache.h, `arena_large_alloc`, `arena_dalloc` and the branch of
--     `nvalloc_free_from` for large blocks: Large, which puts a thread's stacks of extents, its
--     write-ahead log and an arena with its log together, and Large/Reuse.
--   - `is_small_size` and the pages of a large block, of src/nvalloc.c: Request.
--
-- Paths are from the root of the repository. A failed assertion and `exit` are `none`. Machine integers
-- are natural numbers; a truncation is written out (`% 2 ^ w`) where the code can reach it. The loops
-- that count down or walk an array are structural; `fill_to` takes as fuel the limit of its class,
-- which bounds the entries that it writes; `copy_chunks` takes the number of chunks of the chain;
-- `search_from` takes the number of nodes. `release_overlapped` and `overlap` take two rounds more
-- than the quotient of the two block sizes, since each round goes on by one block; a word has at most 64
-- bits for `word_blocks`. `dl_search` takes a round for each node and one, `pop_all` two more than the
-- blocks of the slab, `walk` the nodes of the bin; the rounds of `tcache_fill_cache` come from the caller.
--
-- `count_chunks` takes a round more than the chunks that an extent can have; `best_fit_from` takes as many as
-- there are classes. The loops that merge extents, walk their list or purge them take fuel from the caller.
--
-- Not modelled: the search of the first fit, which the build leaves out, the statistics of `extents_t`, the
-- file tree of an arena with the mapping of files, locks and the interleaving of threads, the copies of
-- other code (rb.h, ph.h, ql.h, qr.h, hash.h, prng.h, ticker.h, the atomics, the radix tree), flushes and
-- fences, and the order in which stores become persistent.
pub mod Prelude
pub mod Word
pub mod Bitmap
pub mod Machine
pub mod Interleave
pub mod SizeClass
pub mod Space
pub mod Tests
pub mod Large
pub mod Log
pub mod Cache
pub mod Slab
pub mod Minilog
pub mod SimpleList
pub mod DoubleList
pub mod Supply
pub mod Recycle
pub mod Request
pub mod Arena
pub mod Arenas
pub mod Containers
pub mod Extents
