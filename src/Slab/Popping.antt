-- ===== src/Slab/Popping.antt =====
-- `slab_pop_one_cache`: a free block of a slab goes to the cache of a thread.
use nvalloc.Prelude.{
  ℕ, ◌+◌, ◌%◌, ◌^◌, ◌<◌, ◌≡◌, inl, inr, refl, sym, ap, ◌∙◌, true, false, some, arith, length,
  get_or, set, first_one, first_one-get, if◌then◌else◌, ◌==◌, lt→ltb, Bool-cases,
}
use nvalloc.Bitmap.{Bitmap, BitmapHeader, bitmap_sfu}
use nvalloc.Bitmap.View.{bits, AreWords}
use nvalloc.Bitmap.Search.{bitmap_sfu-first_one}
use nvalloc.Machine.{nbanks}
use nvalloc.SizeClass.Table.{sizeclass_lookup}
use nvalloc.Cache.{Cache, num_max_cache}
use nvalloc.Cache.Inv.{IsCache}
use nvalloc.Cache.Take.{Pushed, cache_push-Pushed}
use nvalloc.Slab.{
  VSlab, LruSlabs, Pop, cache_full, cached, block_entry, pop_block, slab_pop_one_cache,
  update_arena_lru_morphing_slab,
}
use nvalloc.Slab.Inv.{IsVSlab, IsVSlab-same, free_block, taken-IsVSlab}
use nvalloc.Slab.Touch.{
  counted_low, IsLru, IsLru-counted, with_taken, Touched, touch-Touched, counted_low-same, counted,
}

-- what a call that finds a free block does
pub record Popped (lru : LruSlabs) (cache : Cache) (v : VSlab) (sc_idx k : ℕ) (pop : Pop)
    (lru' : LruSlabs) (cache' : Cache) (v' : VSlab) : Type 0 where
  pub result : slab_pop_one_cache lru cache v sc_idx ≡ some (pop, lru', cache', v')
  pub first : first_one (bits v.bitmap) ≡ some k
  pub in_class : k < v.sc.nbits
  pub is : IsVSlab v'
  pub taken : bits v'.bitmap ≡ set (bits v.bitmap) k false
  pub count : v'.bitmap_header.nbits ≡ v.bitmap_header.nbits + 1
  pub pushed : Pushed cache (k % nbanks) (block_entry v k) cache'
  pub full :
      pop ≡ (if get_or cache'.ncached (k % nbanks) 0 == num_max_cache then cache_full else cached)
  pub low : lru'.morphing_len + counted_low v ≡ lru.morphing_len + counted_low v'
  pub lru_is : IsLru lru' v'
  pub same_class : v'.sc ≡ v.sc
  pub same_self : v'.self ≡ v.self

-- `pop_block`, with what its calls return
module _ (lru : LruSlabs) (cache : Cache) (v : VSlab) (sc_idx k : ℕ) (is : IsVSlab v)
    (lru_is : IsLru lru v) (class : (sizeclass_lookup v.sc.bitsize == sc_idx) ≡ true)
    (less : v.bitmap_header.nbits < v.sc.nbits) (in_class : k < v.sc.nbits)
    (first : first_one (bits v.bitmap) ≡ some k) (bm : Bitmap)
    (found : bitmap_sfu v.sc.n_bitmaps v.bitmap_header.nbits v.bitmap true ≡ some (k, bm))
    (taken : bits bm ≡ set (bits v.bitmap) k false) (words : AreWords bm)
    (len : length bm ≡ length v.bitmap) (lru' : LruSlabs)
    (updated : (if v.num_b == 0
        then update_arena_lru_morphing_slab lru v.bitmap_header.nbits
            (v.bitmap_header.nbits + 1)
            v.sc.nbits
        else some lru)
      ≡ some lru')
    (low : lru'.morphing_len + counted_low v ≡ lru.morphing_len + counted_low (with_taken v bm))
    (lru_len : lru'.lru_len ≡ lru.lru_len) (cache' : Cache)
    (p : Pushed cache (k % nbanks) (block_entry v k) cache') (lru'' : LruSlabs) (v'' : VSlab)
    (t : Touched lru' (with_taken v bm) lru'' v'') where
  no_wrap : (v.bitmap_header.nbits + 1) % 2 ^ 16 ≡ v.bitmap_header.nbits + 1
  no_wrap = omega (arith, is.small)

  is_taken : IsVSlab (with_taken v bm)
  is_taken = taken-IsVSlab v k bm is (first_one-get (bits v.bitmap) k first) words len less taken

  is_touched : IsVSlab v''
  is_touched = IsVSlab-same (with_taken v bm) v'' t.bitmap t.header t.sc is_taken

  guards : slab_pop_one_cache lru cache v sc_idx ≡ pop_block lru cache v
  unfolding slab_pop_one_cache
  guards = ground arith

  Popped-full :
      (get_or cache'.ncached (k % nbanks) 0 == num_max_cache) ≡ true
      → Popped lru cache v sc_idx k cache_full lru' cache' (with_taken v bm)
  unfolding pop_block
  Popped-full full = record {
    result =
        guards ∙ rw (found, lt→ltb k v.sc.nbits in_class, no_wrap, updated, p.result, full) refl;
    first = first;
    in_class = in_class;
    is = is_taken;
    taken = taken;
    count = refl;
    pushed = p;
    full = rw full refl;
    low = low;
    lru_is = IsLru-counted lru lru' v (with_taken v bm) lru_is low lru_len refl refl;
    same_class = refl;
    same_self = refl;
  }

  low_after : lru''.morphing_len + counted_low v ≡ lru.morphing_len + counted_low v''
  low_after =
      omega (arith, low, t.len, counted_low-same (with_taken v bm) v'' t.num_b t.header t.sc)

  Popped-more :
      (get_or cache'.ncached (k % nbanks) 0 == num_max_cache) ≡ false
      → Popped lru cache v sc_idx k cached lru'' cache' v''
  unfolding pop_block
  Popped-more full = record {
    result =
        guards
        ∙ rw (found, lt→ltb k v.sc.nbits in_class, no_wrap, updated, p.result, full, t.result) refl;
    first = first;
    in_class = in_class;
    is = is_touched;
    taken = ap bits t.bitmap ∙ taken;
    count = ap BitmapHeader.nbits t.header;
    pushed = p;
    full = rw full refl;
    low = low_after;
    lru_is = IsLru-counted lru lru'' v v'' lru_is low_after (t.lru_len ∙ lru_len) t.num_b t.in_lru;
    same_class = t.sc;
    same_self = t.self;
  }

-- Where the invariants of the slab, the cache and the counts hold, and every bank of the cache has room,
-- a call on a slab of the class, of which not all blocks are in use, takes the first free block out of
-- its bitmap and puts it on the stack of its bank. It tells whether that stack is full then, and keeps
-- the invariants of the slab, the cache and the counts, and the count of slabs in low use.
pub slab_pop_one_cache-Popped :
    (lru : LruSlabs) (cache : Cache) (v : VSlab) (sc_idx : ℕ)
    → IsVSlab v
    → IsCache cache
    → IsLru lru v
    → (sizeclass_lookup v.sc.bitsize == sc_idx) ≡ true
    → v.bitmap_header.nbits < v.sc.nbits
    → ((cid : ℕ) → get_or cache.ncached cid 0 < num_max_cache)
    → (k : ℕ) × (pop : Pop) × (lru' : LruSlabs) × (cache' : Cache) × (v' : VSlab) × Popped lru cache
        v sc_idx k pop lru' cache' v'
slab_pop_one_cache-Popped lru cache v sc_idx is cached_is lru_is class less room =
    let (k, first, in_class) = free_block v is less in
    let (bm, found, taken, words, len) =
      bitmap_sfu-first_one v.bitmap_header.nbits v.bitmap k is.words first in
    let found' : bitmap_sfu v.sc.n_bitmaps v.bitmap_header.nbits v.bitmap true ≡ some (k, bm) =
      ap (λ n. bitmap_sfu n v.bitmap_header.nbits v.bitmap true) (sym is.shape) ∙ found in
    let (lru', updated, low, lru_len, clock) = counted lru v bm lru_is in
    let (cache', p) =
      cache_push-Pushed cache (k % nbanks) (block_entry v k) cached_is (omega arith)
        (room (k % nbanks)) in
    let (lru'', v'', t) = touch-Touched lru' (with_taken v bm) lru_is.member in
    elim (Bool-cases (get_or cache'.ncached (k % nbanks) 0 == num_max_cache)) [
      | inl full ↦ (
        k,
        cache_full,
        lru',
        cache',
        with_taken v bm,
        Popped-full lru cache v sc_idx k is lru_is class less in_class first bm found' taken words
            len lru' updated low lru_len cache' p lru'' v'' t full,
      )
      | inr more ↦ (
        k,
        cached,
        lru'',
        cache',
        v'',
        Popped-more lru cache v sc_idx k is lru_is class less in_class first bm found' taken words
            len lru' updated low lru_len cache' p lru'' v'' t more,
      )
    ]
