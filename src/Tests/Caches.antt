-- ===== src/Tests/Caches.antt =====
-- Runs of the thread cache.
use nvalloc.Prelude.{
  ℕ, ◌≡◌, ◌<◌, refl, true, false, some, List, ◌∷◌, [], ◌++◌, arith, get_or, replicate, length,
}
use nvalloc.Word.{Word, all_zeros}
use nvalloc.Cache.{
  Cache, CacheEntry, Marks, returned, cache_bitmap_findnxt, cache_create, malloc_round, meta_set,
  dmeta_set_state, meta_alloced,
}
use nvalloc.Cache.Turn.{IsNext, cache_bitmap_findnxt-IsNext}
use nvalloc.Cache.Inv.{IsCache, cache_create-IsCache, count-IsCache}
use nvalloc.Cache.Take.{Taken}
use nvalloc.Cache.Malloc.{malloc_round-Taken}

abbrev banks_2_and_4 : Word
banks_2_and_4 = false ∷ false ∷ true ∷ false ∷ true ∷ all_zeros 59

findnxt_run : cache_bitmap_findnxt banks_2_and_4 4 ≡ some 2
unfolding cache_bitmap_findnxt
findnxt_run = refl

cache_bitmap_findnxt-IsNext_example :
    (r : ℕ) × (cache_bitmap_findnxt banks_2_and_4 4 ≡ some r) × IsNext banks_2_and_4 4 r
cache_bitmap_findnxt-IsNext_example = cache_bitmap_findnxt-IsNext banks_2_and_4 4 2 refl

abbrev block : CacheEntry
block = record { ret = 8192; metas = 4160; index = 3; dmeta = 512; is_sb = false }

abbrev given_back : CacheEntry
given_back = record { ret = 8256; metas = 4224; index = 3; dmeta = 514; is_sb = true }

abbrev marks : Marks
marks = record { bit = λ b i. false; dmeta = λ d. record { state = 0; num_b = 0 } }

-- the rows of a cache, of which the first bank's starts with the given entries
abbrev rows : List CacheEntry → List CacheEntry
rows top = top ++ replicate 190 block

empty-IsCache : IsCache (cache_create (rows (block ∷ block ∷ [])))
empty-IsCache = cache_create-IsCache (rows (block ∷ block ∷ [])) refl

room_in_bank_3 : get_or (cache_create (rows (block ∷ block ∷ []))).ncached 3 0 < 32
unfolding cache_create
room_in_bank_3 = omega arith

-- a cache with one block, in bank 0
abbrev one_block : List CacheEntry → Cache
one_block avail = record {
  ncached = 1 ∷ 0 ∷ 0 ∷ 0 ∷ 0 ∷ 0 ∷ [];
  avail = avail;
  bm = true ∷ all_zeros 63;
  now = 5;
}

one_block-IsCache : (avail : List CacheEntry) → length avail ≡ 192 → IsCache (one_block avail)
unfolding cache_create
one_block-IsCache avail h =
    count-IsCache (cache_create avail) 0 1 avail 5 (true ∷ all_zeros 63)
      (cache_create-IsCache avail h) (omega arith) (omega arith) h refl

next_bank : (avail : List CacheEntry) → cache_bitmap_findnxt (true ∷ all_zeros 63) 5 ≡ some 0
unfolding cache_bitmap_findnxt
next_bank avail = refl

malloc_round-Taken_example :
    (taken : Cache) × (malloc_round block (one_block (rows (block ∷ block ∷ []))) marks
      ≡ some (returned 8192 taken (dmeta_set_state (meta_set marks 4160 3) 512 meta_alloced)))
    × Taken (one_block (rows (block ∷ block ∷ []))) marks 0 0 block taken
malloc_round-Taken_example =
    malloc_round-Taken block (one_block (rows (block ∷ block ∷ []))) marks 0 0 block block
      (one_block-IsCache (rows (block ∷ block ∷ [])) refl) (omega arith) (next_bank []) refl refl
      refl refl
