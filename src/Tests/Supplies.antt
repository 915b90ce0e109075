-- ===== src/Tests/Supplies.antt =====
-- Runs of filling a cache.
use native.Mathlib.Decide.{dec_lt}
use nvalloc.Prelude.{
  ℕ, zero, suc, replicate, ◌≡◌, refl, true, false, none, some, [], ◌∷◌, arith, get_or,
}
use nvalloc.Word.{all_ones, width}
use nvalloc.SizeClass.{SizeClass}
use nvalloc.SizeClass.Table.{bitsizes, sizeclass_lookup}
use nvalloc.SizeClass.Lookup.{IsFirstFit, sizeclass_lookup-IsFirstFit}
use nvalloc.Cache.{Cache}
use nvalloc.Slab.Morph.{no_entry}
use nvalloc.Slab.{VSlab, LruSlabs, Bin, Pop}
use nvalloc.Slab.Inv.{IsVSlab}
use nvalloc.Supply.{Slabs, Fresh, at_hand, tcache_fill_cache}
use nvalloc.Supply.Pops.{Drained, pop_all-Drained}
use nvalloc.Supply.Create.{Created}
use nvalloc.Supply.Fill.{IsSource, Filled, handed, ticked, tcache_fill_cache-Filled}
use nvalloc.Supply.Stock.{tcache_fill_cache-Created}
use nvalloc.Tests.Slabs.{cache, cache-IsCache, none_in_bank, marks, lru, lru-IsLru}

-- a class of 200 blocks of 8 bytes
abbrev class : SizeClass
class = record { moffset = 64; roffset = 576; nbits = 200; n_bitmaps = 4; bitsize = 8; toffset = 0 }

eight_class : sizeclass_lookup 8 ≡ 1
eight_class =
    let f : IsFirstFit bitsizes 1 8 (sizeclass_lookup 8) =
      sizeclass_lookup-IsFirstFit 8 (omega arith) in
    elim (dec_lt 1 (sizeclass_lookup 8)) [
      | yes gt ↦ absurd (omega (arith, f.before 0 gt))
      | no le ↦ omega (arith, f.from)
    ]

abbrev slab : VSlab
slab = record {
  self = 77;
  slab = 65536;
  bitmap_header = record { nbits = 0; cur = 0 };
  bitmap = all_ones width ∷ all_ones width ∷ all_ones width ∷ all_ones width ∷ [];
  sc = class;
  dmeta = 4096;
  timestamp = 0;
  in_lru = true;
  num_b = 0;
  sc_b = class;
}

slab-IsVSlab : IsVSlab slab
slab-IsVSlab = record {
  words = (refl, (refl, (refl, (refl, tt))));
  shape = refl;
  count = refl;
  room = omega arith;
  small = omega arith;
  size = omega arith;
  header = omega arith;
}

-- an arena with the slab in the bin of its class or none, and empty caches
abbrev slabs : Bin → Slabs
slabs bin = record {
  lru = lru;
  bins = λ i. bin;
  vslabs = λ a. slab;
  caches = λ i. cache;
  marks = marks;
  headers = λ a. record { sc = class; sc_b = class; is_mixed = 0 };
  tables = λ a. [];
}

abbrev fresh : Fresh
fresh = record { vslab = 99; junk = slab; slab = some 131072; dmeta = 8192; rows = [] }

pop_all-Drained_example :
    (ret : Pop) × (lru' : LruSlabs) × (cache' : Cache) × (v' : VSlab) × Drained 202 lru cache slab 1
      ret lru' cache' v'
pop_all-Drained_example =
    pop_all-Drained 202 lru cache slab 1 slab-IsVSlab cache-IsCache (lru-IsLru slab refl refl refl)
      (ground (arith, eight_class)) (omega arith) (none_in_bank 6) (omega arith)

slab-IsSource : IsSource (slabs (record { vslabs = 77 ∷ []; now_vslab = some 77 })) 1 77
slab-IsSource = record {
  is = slab-IsVSlab;
  lru_is = lru-IsLru slab refl refl refl;
  class = ground (arith, eight_class);
  in_class = omega arith;
  enough = omega arith;
}

tcache_fill_cache-Filled_example :
    (s' : Slabs) × (tcache_fill_cache
        (class ∷ class ∷ [])
        512
        1
        (slabs (record { vslabs = 77 ∷ []; now_vslab = some 77 }))
        (λ i. fresh)
        1
      ≡ some s')
    × Filled (ticked (slabs (record { vslabs = 77 ∷ []; now_vslab = some 77 }))) 1 77 s'
tcache_fill_cache-Filled_example =
    tcache_fill_cache-Filled (class ∷ class ∷ []) 512 0
      (slabs (record { vslabs = 77 ∷ []; now_vslab = some 77 })) (λ i. fresh) 1 77 0 slab-IsSource
      cache-IsCache (none_in_bank 6) refl refl

-- 30 slabs of which 2 are in low use
abbrev many : Slabs
many = record (slabs (record { vslabs = []; now_vslab = none })) {
  lru = record lru { lru_len = 30 };
}

tcache_fill_cache-Created_example :
    (t : Slabs) × (s' : Slabs) × Created
      (class ∷ class ∷ [])
      512
      (at_hand (ticked many) 1)
      fresh
      1
      131072
      class
      t
    × (tcache_fill_cache (class ∷ class ∷ []) 512 2 many (λ i. fresh) 1 ≡ some s')
    × Filled (handed t 1 99) 1 99 s'
tcache_fill_cache-Created_example =
    tcache_fill_cache-Created (class ∷ class ∷ []) 512 0 many (λ i. fresh) 1 131072 class refl refl
      refl refl (ground (arith, eight_class)) (omega arith) (omega arith) (omega arith)
      (omega arith) (omega arith) cache-IsCache (none_in_bank 6) (omega arith)

no_address :
    (n k : ℕ) → (get_or (replicate n (record no_entry { is_sb = false })) k no_entry).ret ≡ 0
no_address zero k = refl
no_address (suc n) zero = refl
no_address (suc n) (suc k) = no_address n k
