-- ===== src/Large/Reuse.antt =====
-- A large block that was freed is the next one allocated of its class.
use nvalloc.Prelude.{
  ℕ, ◌+◌, ◌-◌, ◌<◌, ◌≡◌, ◌≢◌, ◌∙◌, refl, ap, true, false, some, arith, ltb, lt→ltb, ◌==◌, length,
  get_elem?, set, get_elem-set_self, update, update_self,
}
use nvalloc.SizeClass.Table.{max_psz_idx, get_psizeclass}
use nvalloc.Cache.{num_max_cache}
use nvalloc.Log.{ChunkTree, VLog, append_log, normal_log, free_log, null}
use nvalloc.Minilog.{add_minilog}
use nvalloc.Containers.{ExtentHeap, ExtentList, ExtentTree}
use nvalloc.Extents.{Extent}
use nvalloc.Arena.Logged.{LoggedArena, Tick, Collection, arena_add_log}
use nvalloc.Arena.Logged.Kept.{arena_add_log-kept}
use nvalloc.Large.{
  LargeCache, Supply, Thread, with_new_item, nvalloc_free_large, tcache_alloc_large,
}

module _ {heap : ExtentHeap} {list : ExtentList} {tree : ExtentTree} {chunks : ChunkTree}
    (thread : Thread heap list tree chunks) (pptr extent k : ℕ) where
  -- `pptr` has the address of a large block of class `k`, whose stack has room
  pub record IsBlock : Type 0 where
    pub found : tree.has_leaf thread.logged.arena.space.rtree (thread.words pptr) ≡ true
    pub leaf :
        tree.read thread.logged.arena.space.rtree (thread.words pptr)
        ≡ record { extent = extent; szind = k; slab = false }
    pub real : extent ≢ null
    pub address : (thread.logged.arena.space.store extent).e_addr ≡ thread.words pptr
    pub class : k < max_psz_idx
    pub room : (thread.large_caches k).ncached < num_max_cache
    pub row : length (thread.large_caches k).avail ≡ num_max_cache

module _ {heap : ExtentHeap} {list : ExtentList} {tree : ExtentTree} {chunks : ChunkTree} (fuel : ℕ)
    (tick : Tick) (gc : Collection) (thread : Thread heap list tree chunks) (supply : ℕ → Supply)
    (pptr ptr extent k : ℕ) where
  -- after the block was freed and one was allocated for `ptr`
  pub record Reused (npages : ℕ) (freed taken : Thread heap list tree chunks) : Type 0 where
    pub put : nvalloc_free_large heap list tree chunks fuel tick gc thread pptr ≡ some freed
    pub cleared : freed.words pptr ≡ null
    pub got :
        tcache_alloc_large heap list tree chunks freed supply npages ptr
        ≡ some (thread.words pptr, taken)
    pub stored : taken.words ptr ≡ thread.words pptr
    pub count : (taken.large_caches k).ncached ≡ (thread.large_caches k).ncached

  module _ (is : IsBlock thread pptr extent k) (npages item item' : ℕ)
      (l : LoggedArena heap list tree chunks) (log' : VLog chunks)
      (class : get_psizeclass npages ≡ some k)
      (logged : arena_add_log heap list tree chunks gc thread.logged free_log
          (thread.logged.arena.space.store extent).log
          null
          false
        ≡ some (item, l))
      (logged' : append_log chunks l.log normal_log
          (thread.words pptr)
          (thread.logged.arena.space.store extent).size
          false
        ≡ some (item', log')) where
    abbrev old : LargeCache
    old = thread.large_caches k

    -- Where the stack of its class has room and both items can be added to the log, whether or not the first
    -- starts a collection, freeing a large block clears the pointer to it, and the next allocation of pages
    -- of that class by the thread returns the same address, stores it where it was asked to, and leaves as
    -- many extents on the stack as there were.
    pub nvalloc_free_large-Reused :
        (freed taken : Thread heap list tree chunks) × Reused npages freed taken
    unfolding nvalloc_free_large tcache_alloc_large
    nvalloc_free_large-Reused =
        let more : LargeCache = record {
          ncached = old.ncached + 1;
          avail = set old.avail old.ncached extent;
        } in
        let freed : Thread heap list tree chunks = record thread {
          words = update thread.words pptr null;
          logged = l;
          large_caches = update thread.large_caches k more;
        } in
        let taken : Thread heap list tree chunks = record {
          large_caches =
              update freed.large_caches k (record { ncached = old.ncached; avail = more.avail });
          minilog = add_minilog thread.minilog ptr;
          logged = with_new_item heap list tree chunks l extent item' log';
          words = update freed.words ptr (thread.words pptr);
        } in
        let address : (l.arena.space.store extent).e_addr ≡ thread.words pptr =
          arena_add_log-kept thread.logged Extent.e_addr (λ e i. refl) gc free_log _ null false item
            l logged extent
          ∙ is.address in
        let size : (l.arena.space.store extent).size
            ≡ (thread.logged.arena.space.store extent).size =
          arena_add_log-kept thread.logged Extent.size (λ e i. refl) gc free_log _ null false item l
            logged extent in
        let not_max : (k == max_psz_idx) ≡ false = ground (arith, is.class) in
        let below : ltb k max_psz_idx ≡ true = lt→ltb k max_psz_idx is.class in
        let not_full : (old.ncached == num_max_cache) ≡ false = ground (arith, is.room) in
        let this : (k == k) ≡ true = ground arith in
        let not_empty : (old.ncached + 1 == 0) ≡ false = ground arith in
        let top : old.ncached + 1 - 1 ≡ old.ncached = omega arith in
        let there : get_elem? more.avail old.ncached ≡ some extent =
          get_elem-set_self old.avail old.ncached extent (omega (arith, is.row, is.room)) in
        let not_null : (extent == null) ≡ false = ground (arith, is.real) in
        (
          freed,
          taken,
          record {
            put = rw (is.found, is.leaf, not_max, below, not_full, logged);
            cleared = update_self thread.words pptr null;
            got = rw (class, this, not_empty, top, there, not_null, address, size, logged');
            stored = update_self freed.words ptr (thread.words pptr);
            count = ap LargeCache.ncached (update_self freed.large_caches k _);
          },
        )
