-- ===== src/Tests/Slabs.antt =====
-- Runs of the slabs.
use nvalloc.Prelude.{
  ℕ, zero, suc, ◌+◌, ◌*◌, ◌≢◌, ◌≡◌, ◌<◌, refl, true, false, some, ◌∷◌, [], arith, get_or, replicate,
}
use nvalloc.Word.{Word, all_zeros, all_ones, width}
use nvalloc.SizeClass.{SizeClass}
use nvalloc.SizeClass.Table.{sizeclass_lookup}
use nvalloc.Cache.{Cache, CacheEntry, Marks, cache_create, meta_free}
use nvalloc.Cache.Inv.{IsCache, cache_create-IsCache}
use nvalloc.Slab.{VSlab, LruSlabs, Bin, Pop, block_entry, is_low}
use nvalloc.Slab.Place.{block_entry-marks}
use nvalloc.Slab.Inv.{IsVSlab}
use nvalloc.Slab.Touch.{IsLru}
use nvalloc.Slab.Popping.{Popped, slab_pop_one_cache-Popped}
use nvalloc.Slab.Free.{Freed}
use nvalloc.Slab.Morph.{sb_rows, slab_unset_bm_tcache}
use nvalloc.Slab.Flagged.{lies, block_of, entry_at, CanReturn}
use nvalloc.Slab.Returned.{IsReturned, slab_unset_bm_tcache-IsReturned}
use nvalloc.Slab.Freeing.{ToSlab, slab_free_small-ToSlab}

-- a class of 70 blocks of 64 bytes
abbrev class : SizeClass
class = record { moffset = 64; roffset = 448; nbits = 70; n_bitmaps = 2; bitsize = 64; toffset = 0 }

-- a slab of it, with the first block in use or none
abbrev slab : Word → ℕ → VSlab
slab w nbits = record {
  self = 77;
  slab = 65536;
  bitmap_header = record { nbits = nbits; cur = 0 };
  bitmap = w ∷ all_ones width ∷ [];
  sc = class;
  dmeta = 4096;
  timestamp = 0;
  in_lru = true;
  num_b = 0;
  sc_b = class;
}

abbrev free_slab : VSlab
free_slab = slab (all_ones width) 0

abbrev used_slab : VSlab
used_slab = slab (false ∷ all_ones 63) 1

free_slab-IsVSlab : IsVSlab free_slab
free_slab-IsVSlab = record {
  words = (refl, (refl, tt));
  shape = refl;
  count = refl;
  room = omega arith;
  small = omega arith;
  size = omega arith;
  header = omega arith;
}

used_slab-IsVSlab : IsVSlab used_slab
used_slab-IsVSlab = record {
  words = (refl, (refl, tt));
  shape = refl;
  count = refl;
  room = omega arith;
  small = omega arith;
  size = omega arith;
  header = omega arith;
}

abbrev pub lru : LruSlabs
lru = record { timestamp = 9; lru_len = 3; morphing_len = 2; lru_vslabs = 77 ∷ 78 ∷ 79 ∷ [] }

pub lru-IsLru :
    (v : VSlab)
    → v.in_lru ≡ true
    → v.num_b ≡ 0
    → is_low v.bitmap_header.nbits v.sc.nbits ≡ true
    → IsLru lru v
lru-IsLru v inside unmixed low = record {
  fits = omega arith;
  low = ground arith;
  bounded = omega arith;
  member = λ e. inside;
  others = λ e. ground arith;
}

abbrev pub cache : Cache
cache = record {
  ncached = replicate 6 0;
  avail = replicate 192 (record { ret = 0; metas = 0; index = 0; dmeta = 0; is_sb = false });
  bm = all_zeros width;
  now = 5;
}

pub cache-IsCache : IsCache cache
unfolding cache_create
cache-IsCache = cache_create-IsCache cache.avail refl

pub none_in_bank : (n cid : ℕ) → get_or (replicate n zero) cid 0 < 32
none_in_bank zero cid = omega arith
none_in_bank (suc n) zero = omega arith
none_in_bank (suc n) (suc cid) = none_in_bank n cid

block_entry-marks_example :
    (block_entry free_slab 5).metas * 8 + (block_entry free_slab 5).index
    ≢ (block_entry free_slab 6).metas * 8 + (block_entry free_slab 6).index
block_entry-marks_example = block_entry-marks free_slab 5 6 (λ e. omega arith)

slab_pop_one_cache-Popped_example :
    (k : ℕ) × (pop : Pop) × (lru' : LruSlabs) × (cache' : Cache) × (v' : VSlab) × Popped lru cache
      free_slab
      (sizeclass_lookup 64)
      k
      pop
      lru'
      cache'
      v'
slab_pop_one_cache-Popped_example =
    slab_pop_one_cache-Popped lru cache free_slab (sizeclass_lookup 64) free_slab-IsVSlab
      cache-IsCache (lru-IsLru free_slab refl refl refl) (ground arith) (omega arith)
      (none_in_bank 6)

abbrev bin : Bin
bin = record { vslabs = 77 ∷ []; now_vslab = some 77 }

abbrev pub marks : Marks
marks = record { bit = λ b i. true; dmeta = λ d. record { state = 1; num_b = 0 } }

slab_free_small-ToSlab_example :
    (r : Freed) × ToSlab lru bin cache used_slab marks [] 0 used_slab-IsVSlab
      (omega arith)
      refl
      true
      r
slab_free_small-ToSlab_example =
    slab_free_small-ToSlab lru bin cache used_slab marks [] 0 used_slab-IsVSlab (omega arith) refl
      true refl (lru-IsLru used_slab refl refl refl) refl refl

rows_run : sb_rows used_slab.bitmap ≡ record { bid_b = 0; is_freed = 0 } ∷ []
unfolding sb_rows
rows_run = refl

-- the first bank has the first block of the slab and one of another slab
abbrev banked : Cache
banked =
    let entry : ℕ → CacheEntry =
      λ ret. record { ret = ret; metas = 0; index = 0; dmeta = 0; is_sb = false } in
    record {
      ncached = 2 ∷ replicate 5 0;
      avail = entry (used_slab.slab + 448) ∷ entry 0 ∷ replicate 190 (entry 0);
      bm = all_zeros width;
      now = 0;
    }

abbrev free_marks : Marks
free_marks = record { bit = λ b i. true; dmeta = λ d. record { state = meta_free; num_b = 0 } }

banked-inside :
    (k : ℕ)
    → k < 2
    → lies used_slab (entry_at banked k) ≡ true
    → block_of used_slab (entry_at banked k) < 128
banked-inside zero lt e = omega arith
banked-inside (suc zero) lt e = omega arith
banked-inside (suc (suc k)) lt e = omega (arith, lt)

banked-CanReturn : CanReturn 2 0 banked used_slab
banked-CanReturn = record {
  words = (refl, (refl, tt));
  row = omega arith;
  inside = λ k ge lt e. banked-inside k lt e;
  enough = omega arith;
  bounded = omega arith;
}

slab_unset_bm_tcache-IsReturned_example :
    IsReturned 2 0
      (replicate 6 false)
      banked
      used_slab
      (slab_unset_bm_tcache free_marks 0 (replicate 6 false) banked used_slab)
slab_unset_bm_tcache-IsReturned_example =
    slab_unset_bm_tcache-IsReturned free_marks 0 (replicate 6 false) banked used_slab refl refl
      banked-CanReturn
