-- ===== src/Supply/Pops.antt =====
-- The calls of `slab_pop_one_cache` for one slab: they end, with a bank full or the slab used up.
use native.Mathlib.Decide.{dec_lt}
use nvalloc.Prelude.{
  ℕ, zero, suc, ◌+◌, ◌%◌, ◌≤◌, ◌<◌, ◌≡◌, ◌⊎◌, inl, inr, refl, ap, ◌∙◌, true, false, some, arith,
  get_or, ◌==◌, Bool-cases,
}
use nvalloc.Machine.{nbanks}
use nvalloc.SizeClass.{SizeClass}
use nvalloc.SizeClass.Table.{sizeclass_lookup}
use nvalloc.Cache.{Cache, CacheEntry, num_max_cache}
use nvalloc.Cache.Inv.{IsCache}
use nvalloc.Cache.Take.{Pushed}
use nvalloc.Slab.{
  VSlab, LruSlabs, Pop, no_block, cache_full, cached, block_entry, slab_pop_one_cache,
}
use nvalloc.Slab.Inv.{IsVSlab}
use nvalloc.Slab.Touch.{IsLru}
use nvalloc.Slab.Popping.{Popped, slab_pop_one_cache-Popped}
use nvalloc.Supply.{pop_all}

-- the blocks in the six banks of a cache
abbrev pub total : Cache → ℕ
total cache =
    get_or cache.ncached 0 0
    + get_or cache.ncached 1 0
    + get_or cache.ncached 2 0
    + get_or cache.ncached 3 0
    + get_or cache.ncached 4 0
    + get_or cache.ncached 5 0

abbrev pub HasRoomInBanks : Cache → Type 0
HasRoomInBanks cache = (cid : ℕ) → get_or cache.ncached cid 0 < num_max_cache

-- a bank is full, or the slab is used up and every bank has room
abbrev pub HasEnded : Pop → Cache → VSlab → Type 0
HasEnded ret cache v =
    ((ret ≡ cache_full) × (cid : ℕ) × (get_or cache.ncached cid 0 ≡ num_max_cache))
    ⊎ ((ret ≡ no_block) × (v.bitmap_header.nbits ≡ v.sc.nbits) × HasRoomInBanks cache)

-- what the calls for a slab do
pub record Drained (fuel : ℕ) (lru : LruSlabs) (cache : Cache) (v : VSlab) (sc_idx : ℕ) (ret : Pop)
    (lru' : LruSlabs) (cache' : Cache) (v' : VSlab) : Type 0 where
  pub result : pop_all fuel lru cache v sc_idx ≡ some (ret, lru', cache', v')
  pub is : IsVSlab v'
  pub cache_is : IsCache cache'
  pub lru_is : IsLru lru' v'
  pub same_class : v'.sc ≡ v.sc
  pub same_self : v'.self ≡ v.self
  pub moved : total cache' + v.bitmap_header.nbits ≡ total cache + v'.bitmap_header.nbits
  pub ends : HasEnded ret cache' v'

total-Pushed :
    (cache cache' : Cache) (cid : ℕ) (entry : CacheEntry)
    → cid < nbanks
    → Pushed cache cid entry cache'
    → total cache' ≡ total cache + 1
total-Pushed cache cache' cid entry lt p =
    ground (arith, p.counts 0, p.counts 1, p.counts 2, p.counts 3, p.counts 4, p.counts 5)

-- A slab of the class with all blocks in use has none to pop.
pop_none :
    (lru : LruSlabs) (cache : Cache) (v : VSlab) (sc_idx : ℕ)
    → (sizeclass_lookup v.sc.bitsize == sc_idx) ≡ true
    → v.bitmap_header.nbits ≡ v.sc.nbits
    → slab_pop_one_cache lru cache v sc_idx ≡ some (no_block, lru, cache, v)
unfolding slab_pop_one_cache
pop_none lru cache v sc_idx class used = ground arith

-- `num_max_cache` is reached where the call tells so, and else all banks have room
room_after :
    (cache cache' : Cache) (cid : ℕ) (entry : CacheEntry)
    → HasRoomInBanks cache
    → Pushed cache cid entry cache'
    → (get_or cache'.ncached cid 0 == num_max_cache) ≡ false
    → HasRoomInBanks cache'
room_after cache cache' cid entry room p less k =
    ground (arith, p.counts k, p.counts cid, room k, room cid)

-- A call for a slab that is used up is the last one.
used_up-Drained :
    (fuel : ℕ) (lru : LruSlabs) (cache : Cache) (v : VSlab) (sc_idx : ℕ)
    → IsVSlab v
    → IsCache cache
    → IsLru lru v
    → (sizeclass_lookup v.sc.bitsize == sc_idx) ≡ true
    → v.bitmap_header.nbits ≡ v.sc.nbits
    → HasRoomInBanks cache
    → Drained (suc fuel) lru cache v sc_idx no_block lru cache v
unfolding pop_all
used_up-Drained fuel lru cache v sc_idx is cached_is lru_is class used room = record {
  result = rw (pop_none lru cache v sc_idx class used) refl;
  is = is;
  cache_is = cached_is;
  lru_is = lru_is;
  same_class = refl;
  same_self = refl;
  moved = refl;
  ends = inr (refl, used, room);
}

-- a call that pops block `k`
module _ (fuel : ℕ) (lru : LruSlabs) (cache : Cache) (v : VSlab) (sc_idx k : ℕ) (pop : Pop)
    (lru' : LruSlabs) (cache' : Cache) (v' : VSlab)
    (p : Popped lru cache v sc_idx k pop lru' cache' v') where
  one_more : total cache' ≡ total cache + 1
  one_more = total-Pushed cache cache' (k % nbanks) (block_entry v k) (omega arith) p.pushed

  -- Where it fills the bank it is the last one,
  filled-Drained :
      (get_or cache'.ncached (k % nbanks) 0 == num_max_cache) ≡ true
      → Drained (suc fuel) lru cache v sc_idx cache_full lru' cache' v'
  unfolding pop_all
  filled-Drained full =
      let ret : pop ≡ cache_full = p.full ∙ rw full refl in
      record {
        result = rw (p.result, ret) refl;
        is = p.is;
        cache_is = p.pushed.is;
        lru_is = p.lru_is;
        same_class = p.same_class;
        same_self = p.same_self;
        moved = omega (arith, one_more, p.count);
        ends = inl (refl, k % nbanks, ground arith);
      }

  -- and else the others follow.
  more-Drained :
      (ret : Pop) (lru'' : LruSlabs) (cache'' : Cache) (v'' : VSlab)
      → (get_or cache'.ncached (k % nbanks) 0 == num_max_cache) ≡ false
      → Drained fuel lru' cache' v' sc_idx ret lru'' cache'' v''
      → Drained (suc fuel) lru cache v sc_idx ret lru'' cache'' v''
  unfolding pop_all
  more-Drained ret lru'' cache'' v'' not_full d =
      let again : pop ≡ cached = p.full ∙ rw not_full refl in
      record {
        result = rw (p.result, again) d.result;
        is = d.is;
        cache_is = d.cache_is;
        lru_is = d.lru_is;
        same_class = d.same_class ∙ p.same_class;
        same_self = d.same_self ∙ p.same_self;
        moved = omega (arith, one_more, p.count, d.moved);
        ends = d.ends;
      }

-- The calls for a slab of the class that satisfies the invariants, with room in every bank of the cache,
-- end within as many rounds as it has free blocks and one: a bank is full, or all blocks of the slab are
-- in use and every bank has room. As many blocks are in use more as the cache holds more, and the
-- invariants of the slab, the cache and the counts hold.
pub pop_all-Drained :
    (fuel : ℕ) (lru : LruSlabs) (cache : Cache) (v : VSlab) (sc_idx : ℕ)
    → IsVSlab v
    → IsCache cache
    → IsLru lru v
    → (sizeclass_lookup v.sc.bitsize == sc_idx) ≡ true
    → v.bitmap_header.nbits ≤ v.sc.nbits
    → HasRoomInBanks cache
    → v.sc.nbits < v.bitmap_header.nbits + fuel
    → (ret : Pop) × (lru' : LruSlabs) × (cache' : Cache) × (v' : VSlab) × Drained fuel lru cache v
        sc_idx ret lru' cache' v'
pop_all-Drained zero lru cache v sc_idx is cached_is lru_is class le room enough =
    absurd (omega arith)
pop_all-Drained (suc fuel) lru cache v sc_idx is cached_is lru_is class le room enough =
    elim (dec_lt v.bitmap_header.nbits v.sc.nbits) [
      | no not_less ↦ (
        no_block,
        lru,
        cache,
        v,
        used_up-Drained fuel lru cache v sc_idx is cached_is lru_is class (omega arith) room,
      )
      | yes less ↦
          let (k, pop, lru', cache', v', p) =
            slab_pop_one_cache-Popped lru cache v sc_idx is cached_is lru_is class less room in
          let nbits : v'.sc.nbits ≡ v.sc.nbits = ap SizeClass.nbits p.same_class in
          let class' : (sizeclass_lookup v'.sc.bitsize == sc_idx) ≡ true =
            ap (λ (c : SizeClass). sizeclass_lookup c.bitsize == sc_idx) p.same_class ∙ class in
          elim (Bool-cases (get_or cache'.ncached (k % nbanks) 0 == num_max_cache)) [
            | inl full ↦ (
              cache_full,
              lru',
              cache',
              v',
              filled-Drained fuel lru cache v sc_idx k pop lru' cache' v' p full,
            )
            | inr not_full ↦
                let (ret, lru'', cache'', v'', d) =
                  pop_all-Drained fuel lru' cache' v' sc_idx p.is p.pushed.is p.lru_is class'
                    (omega (arith, nbits, p.count))
                    (room_after cache cache' (k % nbanks) (block_entry v k) room p.pushed not_full)
                    (omega (arith, nbits, p.count)) in
                (
                  ret,
                  lru'',
                  cache'',
                  v'',
                  more-Drained fuel lru cache v sc_idx k pop lru' cache' v' p ret lru'' cache'' v''
                      not_full d,
                )
          ]
    ]
