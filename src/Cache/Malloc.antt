-- ===== src/Cache/Malloc.antt =====
-- A round of the loop of `nvalloc_malloc_to`, and the stack that it works on.
use nvalloc.Prelude.{
  ℕ, suc, ◌<◌, ◌≡◌, ◌≢◌, refl, ap, ◌∙◌, false, some, arith, get_or, get_elem?, set,
}
use nvalloc.Machine.{nbanks}
use nvalloc.Cache.{
  Cache, CacheEntry, Marks, returned, cache_push, cache_bitmap_findnxt, num_max_cache, row, drop_sb,
  take_top, malloc_round, meta_set, dmeta_set_state, meta_alloced,
}
use nvalloc.Cache.Inv.{IsCache, set_same}
use nvalloc.Cache.Take.{cache_push-Pushed, Taken, take_top-Taken}

module _ (cache : Cache) (marks : Marks) (cid : ℕ) (entry : CacheEntry) (is : IsCache cache)
    (lt : cid < nbanks) (room : get_or cache.ncached cid 0 < num_max_cache) where
  -- what is left of the cache when the block that was put is taken again
  pub record Restored (pushed taken : Cache) : Type 0 where
    pub put : cache_push cache cid entry ≡ some pushed
    pub got :
        take_top pushed marks cid (get_or cache.ncached cid 0)
        ≡ some (
          entry.ret,
          taken,
          dmeta_set_state (meta_set marks entry.metas entry.index) entry.dmeta meta_alloced,
        )
    pub counts : (k : ℕ) → get_or taken.ncached k 0 ≡ get_or cache.ncached k 0
    pub same :
        (k : ℕ)
        → row cid (get_or cache.ncached cid 0) ≢ k
        → get_elem? taken.avail k ≡ get_elem? cache.avail k

  -- The block last put into a bank is the first taken from it, and the other blocks of the cache are
  -- then those that it had before.
  pub take_top-cache_push : (pushed taken : Cache) × Restored pushed taken
  take_top-cache_push =
      let (pushed, p) = cache_push-Pushed cache cid entry is lt room in
      let count : get_or pushed.ncached cid 0 ≡ suc (get_or cache.ncached cid 0) =
        p.counts cid ∙ ground arith in
      let (taken, t) =
        take_top-Taken pushed marks cid (get_or cache.ncached cid 0) entry p.is lt count p.top in
      (
        pushed,
        taken,
        record {
          put = p.result;
          got = t.result;
          counts = λ k. t.counts k ∙ ground (arith, p.counts k);
          same = λ k ne. ap (λ l. get_elem? l k) t.same ∙ p.same k ne;
        },
      )

module _ (front : CacheEntry) (cache : Cache) (marks : Marks) (b n : ℕ) (entry over : CacheEntry)
    (is : IsCache cache) (lt : b < nbanks) (next : cache_bitmap_findnxt cache.bm cache.now ≡ some b)
    (count : get_or cache.ncached b 0 ≡ suc n) (top : get_elem? cache.avail (row b n) ≡ some entry)
    (above : get_elem? cache.avail (row b (suc n)) ≡ some over) where
  same_count : set cache.ncached b (suc n) ≡ cache.ncached
  same_count = set_same cache.ncached b (suc n) 0 (omega (arith, is.banks)) count

  drop_none :
      over.is_sb ≡ false → drop_sb cache.avail b (get_or cache.ncached b 0) ≡ some (some (suc n))
  unfolding drop_sb
  drop_none keep = rw (count, above, keep) refl

  round-Taken :
      (taken : Cache)
      → Taken cache marks b n entry taken
      → over.is_sb ≡ false
      → malloc_round front cache marks
        ≡ some (
            returned entry.ret taken
              (dmeta_set_state (meta_set marks entry.metas entry.index) entry.dmeta meta_alloced))
  unfolding malloc_round
  round-Taken taken t keep = rw (next, drop_none keep, same_count, t.result) refl

  -- A round with blocks in the next bank returns the topmost one, marked in its slab, and keeps the
  -- invariant of the cache, if the entry behind the top of the stack is not flagged as given back. The
  -- flag of the topmost entry itself is not looked at.
  pub malloc_round-Taken :
      over.is_sb ≡ false
      → (taken : Cache) × (malloc_round front cache marks
          ≡ some (
              returned entry.ret taken (
                dmeta_set_state (meta_set marks entry.metas entry.index) entry.dmeta meta_alloced)))
        × Taken cache marks b n entry taken
  malloc_round-Taken keep =
      let (taken, t) = take_top-Taken cache marks b n entry is lt count top in
      (taken, round-Taken taken t keep, t)
