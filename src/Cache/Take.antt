-- ===== src/Cache/Take.antt =====
-- Putting a block on the stack of its bank, and taking one for an allocation.
use nvalloc.Prelude.{
  ℕ, suc, ◌+◌, ◌<◌, ◌≡◌, ◌≢◌, refl, ◌∙◌, some, arith, length-set, get_or, get_elem?, set,
  get_elem-set_self, get_elem-set_other, get_or-set, if◌then◌else◌, ltb, ◌==◌, lt→ltb,
}
use nvalloc.Machine.{nbanks}
use nvalloc.Cache.{
  Cache, CacheEntry, Marks, cache_push, cache_bitmap_flip, num_max_cache, row, take_top, meta_set,
  dmeta_set_state, meta_alloced,
}
use nvalloc.Cache.Inv.{IsCache, count-IsCache, flip_to}

-- what `cache_push` does: one entry more on top of the stack of one bank
pub record Pushed (cache : Cache) (cid : ℕ) (entry : CacheEntry) (cache' : Cache) : Type 0 where
  pub result : cache_push cache cid entry ≡ some cache'
  pub is : IsCache cache'
  pub counts :
      (k : ℕ)
      → get_or cache'.ncached k 0
        ≡ (if cid == k then get_or cache.ncached cid 0 + 1 else get_or cache.ncached k 0)
  pub top : get_elem? cache'.avail (row cid (get_or cache.ncached cid 0)) ≡ some entry
  pub same :
      (k : ℕ)
      → row cid (get_or cache.ncached cid 0) ≢ k
      → get_elem? cache'.avail k ≡ get_elem? cache.avail k
  pub same_turn : cache'.now ≡ cache.now

module _ (cache : Cache) (cid : ℕ) (entry : CacheEntry) (is : IsCache cache) (lt : cid < nbanks)
    (room : get_or cache.ncached cid 0 < num_max_cache) where
  push_bm :
      (if get_or cache.ncached cid 0 == 0 then cache_bitmap_flip cache.bm cid else cache.bm)
      ≡ set cache.bm cid (ltb 0 (get_or cache.ncached cid 0 + 1))
  push_bm =
      flip_to cache cid (get_or cache.ncached cid 0 == 0) (ltb 0 (get_or cache.ncached cid 0 + 1))
        is lt (is.bit cid ∙ ground arith)

  -- A block put into a bank with room is the top of its stack; no other block is touched, and the
  -- bits of the banks stay right.
  pub cache_push-Pushed : (cache' : Cache) × Pushed cache cid entry cache'
  unfolding cache_push
  cache_push-Pushed = (
    record cache {
      bm = if get_or cache.ncached cid 0 == 0 then cache_bitmap_flip cache.bm cid else cache.bm;
      avail = set cache.avail (row cid (get_or cache.ncached cid 0)) entry;
      ncached = set cache.ncached cid (get_or cache.ncached cid 0 + 1);
    },
    record {
      result = rw (lt→ltb (get_or cache.ncached cid 0) num_max_cache room) refl;
      is =
          count-IsCache cache cid (get_or cache.ncached cid 0 + 1) _ cache.now _ is lt (omega arith)
            (length-set cache.avail _ entry ∙ is.rows) push_bm;
      counts = λ k. get_or-set cache.ncached cid k _ 0 (omega (arith, is.banks));
      top = get_elem-set_self cache.avail _ entry (omega (arith, is.rows));
      same = λ k ne. get_elem-set_other cache.avail _ k entry ne;
      same_turn = refl;
    },
  )

-- what taking the topmost entry of a bank does
pub record Taken (cache : Cache) (marks : Marks) (b n : ℕ) (entry : CacheEntry) (cache' : Cache)
    : Type 0 where
  pub result :
      take_top cache marks b n
      ≡ some (
        entry.ret,
        cache',
        dmeta_set_state (meta_set marks entry.metas entry.index) entry.dmeta meta_alloced,
      )
  pub is : IsCache cache'
  pub counts :
      (k : ℕ) → get_or cache'.ncached k 0 ≡ (if b == k then n else get_or cache.ncached k 0)
  pub same : cache'.avail ≡ cache.avail
  pub turn : cache'.now ≡ b

module _ (cache : Cache) (marks : Marks) (b n : ℕ) (entry : CacheEntry) (is : IsCache cache)
    (lt : b < nbanks) (count : get_or cache.ncached b 0 ≡ suc n)
    (top : get_elem? cache.avail (row b n) ≡ some entry) where
  take_bm : (if n == 0 then cache_bitmap_flip cache.bm b else cache.bm) ≡ set cache.bm b (ltb 0 n)
  take_bm = flip_to cache b (n == 0) (ltb 0 n) is lt (is.bit b ∙ ground (arith, count))

  -- Taking the top of a bank gives its block, marks it in its slab, and leaves the rest of the stack.
  pub take_top-Taken : (cache' : Cache) × Taken cache marks b n entry cache'
  unfolding take_top
  take_top-Taken = (
    record cache {
      ncached = set cache.ncached b n;
      bm = if n == 0 then cache_bitmap_flip cache.bm b else cache.bm;
      now = b;
    },
    record {
      result = rw top;
      is =
          count-IsCache cache b n cache.avail b _ is lt (omega (arith, count, is.count_le b))
            is.rows take_bm;
      counts = λ k. get_or-set cache.ncached b k n 0 (omega (arith, is.banks));
      same = refl;
      turn = refl;
    },
  )
