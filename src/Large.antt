-- ===== src/Large.antt =====
-- Large blocks, of include/nvalloc/internal/tcache.h, src/arena.c and src/nvalloc.c: a thread keeps a stack of
-- extents for each class of pages. It takes 32 from the arena when it has none, and gives one back to
-- the arena when it has 32. A free record can start a collection and each extent that is taken or given back
-- ticks the arena's ticker, as in Arena/Logged; what is allocated is appended (`append_log`), since that starts
-- no collection.
pub mod Reuse
use nvalloc.Prelude.{
  ℕ, zero, suc, ◌+◌, ◌-◌, ◌*◌, Bool, true, false, not, Option, none, some, List, [], ◌∷◌,
  if◌then◌else◌, ltb, ◌==◌, ◌>>=◌, ◌>>◌, assert, get_elem?, set, update,
}
use nvalloc.SizeClass.Table.{max_psz_idx, get_psizeclass, npages_by_idx}
use nvalloc.Cache.{num_max_cache}
use nvalloc.Log.{ChunkTree, VLog, append_log, normal_log, free_log, null}
use nvalloc.Minilog.{Minilog, add_minilog}
use nvalloc.Containers.{ExtentHeap, ExtentList, ExtentTree}
use nvalloc.Recycle.Coalesce.{extents_dalloc}
use nvalloc.Arena.{arena_extent_alloc_large}
use nvalloc.Arena.Logged.{
  LoggedArena, Tick, Collection, arena_add_log, arena_decay_ticks, arena_extents_dirty_dalloc,
}

-- `large_cache_s`
pub record LargeCache : Type 0 where
  pub ncached : ℕ
  pub avail : List ℕ

-- what the system has for an extent that is taken: memory for it and for what is left, and a chunk
pub record Supply : Type 0 where
  pub memory : Option ℕ
  pub memory_left : Option ℕ
  pub mapped : ℕ
  pub tick : Tick

module _ (heap : ExtentHeap) (list : ExtentList) (tree : ExtentTree) (chunks : ChunkTree) where
  -- the caches of a thread by class, its write-ahead log, the one arena with its log, and the words of
  -- memory in which users keep pointers
  pub record Thread : Type 0 where
    pub large_caches : ℕ → LargeCache
    pub minilog : Minilog
    pub logged : LoggedArena heap list tree chunks
    pub words : ℕ → ℕ

  -- `arena_extent_alloc_large`, with its tick
  unfoldable pub large_extent :
      LoggedArena heap list tree chunks
      → Supply
      → ℕ
      → Option (Option ℕ × LoggedArena heap list tree chunks)
  unfolding arena_decay_ticks
  large_extent logged supply npages = do
    (extent, a) ←
        arena_extent_alloc_large heap list tree logged.arena supply.memory supply.memory_left
          supply.mapped npages
    l ← arena_decay_ticks heap list tree chunks supply.tick (record logged { arena = a })
    some (extent, l)

  -- the extent with its new item in the log
  abbrev pub with_new_item :
      LoggedArena heap list tree chunks → ℕ → ℕ → VLog chunks → LoggedArena heap list tree chunks
  with_new_item logged extent item log =
      let space = logged.arena.space in
      record logged {
        arena = record logged.arena {
          space = record space {
            store = update space.store extent (record (space.store extent) { log = item });
          };
        };
        log = log;
      }

  -- the loop of `tcache_alloc_large`, from entry `i` on; an extent that is not there is null
  unfoldable pub fill_large :
      ℕ
      → (ℕ → Supply)
      → ℕ
      → LoggedArena heap list tree chunks
      → List ℕ
      → ℕ
      → Option (List ℕ × LoggedArena heap list tree chunks)
  unfolding large_extent
  fill_large zero supply i logged avail npages = some (avail, logged)
  fill_large (suc left) supply i logged avail npages = do
    (extent, l) ← large_extent logged (supply i) npages
    let entry : ℕ = elim extent [ none ↦ null | some e ↦ e ]
    fill_large left supply (i + 1) l (set avail i entry) npages

  -- the address that is returned, and stored at `ptr`
  unfoldable pub tcache_alloc_large : Thread → (ℕ → Supply) → ℕ → ℕ → Option (ℕ × Thread)
  tcache_alloc_large thread supply npages ptr = do
    szind ← get_psizeclass npages
    let cache = thread.large_caches szind
    let fill : Option (List ℕ × LoggedArena heap list tree chunks) =
        fill_large num_max_cache supply 0 thread.logged cache.avail (npages_by_idx szind)
    (avail, l) ← (if cache.ncached == 0 then fill else some (cache.avail, thread.logged))
    let n = if cache.ncached == 0 then num_max_cache - 1 else cache.ncached - 1
    extent ← get_elem? avail n
    assert (not (extent == null))
    let e = l.arena.space.store extent
    (item, log) ← append_log chunks l.log normal_log e.e_addr e.size false
    some (
      e.e_addr,
      record {
        large_caches = update thread.large_caches szind (record { ncached = n; avail = avail });
        minilog = add_minilog thread.minilog ptr;
        logged = with_new_item l extent item log;
        words = update thread.words ptr e.e_addr;
      },
    )

  -- `arena_large_alloc` of the thread's arena: the address, which is null where there is no extent
  unfoldable pub arena_large_alloc : Thread → Supply → ℕ → ℕ → Option (ℕ × Thread)
  arena_large_alloc thread supply npages ptr = do
    (extent, l) ← large_extent thread.logged supply npages
    elim extent [
      | none ↦ some (null, record thread { logged = l })
      | some extent ↦ (do
        let e = l.arena.space.store extent
        (item, log) ← append_log chunks l.log normal_log e.e_addr e.size false
        some (
          e.e_addr,
          record thread {
            minilog = add_minilog thread.minilog ptr;
            words = update thread.words ptr e.e_addr;
            logged = with_new_item l extent item log;
          },
        ))
    ]

  -- The extent goes to the dirty ones, and the item that its `log` names is freed. The C code reads
  -- `log` after the extent may have been merged; it reads here what stands there then.
  unfoldable pub arena_dalloc : ℕ → Tick → Collection → Thread → ℕ → Option Thread
  unfolding arena_extents_dirty_dalloc arena_add_log
  arena_dalloc fuel tick gc thread extent = do
    l ← arena_extents_dirty_dalloc heap list tree chunks fuel tick thread.logged extent
    (item, l') ←
        arena_add_log heap list tree chunks gc l free_log (l.arena.space.store extent).log null
          false
    some (record thread { logged = l' })

  -- `nvalloc_free_from` of a pointer to a large block; that of a small one is `slab_free_small`
  unfoldable pub nvalloc_free_large : ℕ → Tick → Collection → Thread → ℕ → Option Thread
  nvalloc_free_large fuel tick gc thread pptr = do
    let ptr = thread.words pptr
    let space = thread.logged.arena.space
    assert (tree.has_leaf space.rtree ptr)
    let leaf = tree.read space.rtree ptr
    assert (not (leaf.szind == max_psz_idx))
    assert (not leaf.slab)
    let cleared : Thread = record thread { words = update thread.words pptr null }
    assert (ltb leaf.szind max_psz_idx)
    let cache = thread.large_caches leaf.szind
    let keep : Option Thread = (do
      (item, l) ←
          arena_add_log heap list tree chunks gc thread.logged free_log
            (space.store leaf.extent).log null false
      some (record cleared {
        logged = l;
        large_caches = update thread.large_caches leaf.szind (record {
          ncached = cache.ncached + 1;
          avail = set cache.avail cache.ncached leaf.extent;
        });
      }))
    if cache.ncached == num_max_cache then arena_dalloc fuel tick gc cleared leaf.extent else keep
