-- ===== src/Supply/Fill.antt =====
-- `tcache_fill_cache`, where the slab at hand or a new one has the blocks for a full bank.
use nvalloc.Prelude.{
  ℕ, suc, ◌+◌, ◌%◌, ◌≤◌, ◌<◌, ◌≡◌, ◌≢◌, refl, ap, ◌∙◌, inl, inr, true, some, List, arith, length,
  get_or, ◌==◌, update, update_self, update_other,
}
use nvalloc.Machine.{u64_mod}
use nvalloc.SizeClass.{SizeClass}
use nvalloc.SizeClass.Table.{sizeclass_lookup}
use nvalloc.Cache.{Cache, num_max_cache}
use nvalloc.Cache.Inv.{IsCache}
use nvalloc.Slab.{VSlab, LruSlabs, Bin}
use nvalloc.Slab.Inv.{IsVSlab}
use nvalloc.Slab.Touch.{IsLru}
use nvalloc.Supply.{Slabs, Fresh, walk, walk_bin, at_hand, fill_rounds, tcache_fill_cache}
use nvalloc.Supply.Pops.{total, HasRoomInBanks, pop_all-Drained}

-- a slab of the class that satisfies the invariants, and with which a bank gets full: six banks with
-- room for one block more than they hold take 186 blocks
pub record IsSource (s : Slabs) (sc_idx a : ℕ) : Type 0 where
  pub is : IsVSlab (s.vslabs a)
  pub lru_is : IsLru s.lru (s.vslabs a)
  pub class : (sizeclass_lookup (s.vslabs a).sc.bitsize == sc_idx) ≡ true
  pub in_class : (s.vslabs a).bitmap_header.nbits ≤ (s.vslabs a).sc.nbits
  pub enough :
      186 + (s.vslabs a).bitmap_header.nbits < total (s.caches sc_idx) + (s.vslabs a).sc.nbits

-- what filling the cache from the slab `a` does
pub record Filled (s : Slabs) (sc_idx a : ℕ) (s' : Slabs) : Type 0 where
  pub full : (cid : ℕ) × (get_or (s'.caches sc_idx).ncached cid 0 ≡ num_max_cache)
  pub cache_is : IsCache (s'.caches sc_idx)
  pub is : IsVSlab (s'.vslabs a)
  pub lru_is : IsLru s'.lru (s'.vslabs a)
  pub now : (s'.bins sc_idx).now_vslab ≡ some a
  pub moved :
      total (s'.caches sc_idx) + (s.vslabs a).bitmap_header.nbits
      ≡ total (s.caches sc_idx) + (s'.vslabs a).bitmap_header.nbits
  pub others : (x : ℕ) → a ≢ x → s'.vslabs x ≡ s.vslabs x
  pub other_caches : (i : ℕ) → sc_idx ≢ i → s'.caches i ≡ s.caches i

module _ (s : Slabs) (sc_idx a n : ℕ) (source : IsSource s sc_idx a)
    (cache_is : IsCache (s.caches sc_idx)) (room : HasRoomInBanks (s.caches sc_idx)) where
  walk-Filled : (s' : Slabs) × (walk (suc n) s sc_idx a ≡ some (true, s')) × Filled s sc_idx a s'
  unfolding walk
  walk-Filled =
      let v = s.vslabs a in
      let (ret, lru', cache', v', d) =
        pop_all-Drained (v.sc.nbits + 2) s.lru (s.caches sc_idx) v sc_idx source.is cache_is
          source.lru_is source.class source.in_class room (omega arith) in
      elim d.ends [
        | inr (_, used, room') ↦ absurd (
            omega (
              arith,
              used,
              ap SizeClass.nbits d.same_class,
              d.moved,
              source.enough,
              room' 0,
              room' 1,
              room' 2,
              room' 3,
              room' 4,
              room' 5,
            ))
        | inl (is_full, cid, count) ↦
            let bin : Bin = record (s.bins sc_idx) { now_vslab = some a } in
            let s' : Slabs = record s {
              lru = lru';
              caches = update s.caches sc_idx cache';
              vslabs = update s.vslabs a v';
              bins = update s.bins sc_idx bin;
            } in
            let slab_now : s'.vslabs a ≡ v' = update_self s.vslabs a v' in
            let cache_now : s'.caches sc_idx ≡ cache' = update_self s.caches sc_idx cache' in
            (
              s',
              rw (d.result, is_full) refl,
              record {
                full = (cid, ap (λ (c : Cache). get_or c.ncached cid 0) cache_now ∙ count);
                cache_is = rw cache_now d.cache_is;
                is = rw slab_now d.is;
                lru_is = rw slab_now d.lru_is;
                now = ap Bin.now_vslab (update_self s.bins sc_idx bin);
                moved = rw (cache_now, slab_now) d.moved;
                others = λ x ne. update_other s.vslabs a v' x ne;
                other_caches = λ i ne. update_other s.caches sc_idx cache' i ne;
              },
            )
      ]

-- the clock of the arena does not count for the invariants
abbrev pub ticked : Slabs → Slabs
ticked s = record s { lru = record s.lru { timestamp = (s.lru.timestamp + 1) % u64_mod } }

pub ticked-IsLru :
    (lru : LruSlabs) (v : VSlab) (now : ℕ) → IsLru lru v → IsLru (record lru { timestamp = now }) v
ticked-IsLru lru v now is = record {
  fits = is.fits;
  low = is.low;
  bounded = is.bounded;
  member = is.member;
  others = is.others;
}

ticked-IsSource : (s : Slabs) (sc_idx a : ℕ) → IsSource s sc_idx a → IsSource (ticked s) sc_idx a
ticked-IsSource s sc_idx a source = record {
  is = source.is;
  lru_is = ticked-IsLru s.lru (s.vslabs a) _ source.lru_is;
  class = source.class;
  in_class = source.in_class;
  enough = source.enough;
}

-- the arena with `now_vslab` written again
abbrev pub handed : Slabs → ℕ → ℕ → Slabs
handed s sc_idx a = record s {
  bins = update s.bins sc_idx (record (s.bins sc_idx) { now_vslab = some a });
}

at_hand-now :
    (s : Slabs) (sc_idx a : ℕ)
    → (s.bins sc_idx).now_vslab ≡ some a
    → at_hand s sc_idx ≡ handed s sc_idx a
unfolding at_hand
at_hand-now s sc_idx a now = rw now refl

walk_bin-now :
    (s : Slabs) (sc_idx a n : ℕ)
    → (s.bins sc_idx).now_vslab ≡ some a
    → length (s.bins sc_idx).vslabs ≡ suc n
    → walk_bin s sc_idx ≡ walk (suc n) s sc_idx a
unfolding walk_bin
walk_bin-now s sc_idx a n now held = rw (now, held, walk_bin) refl

walk_bin-handed :
    (s s' : Slabs) (sc_idx a n : ℕ)
    → (s.bins sc_idx).now_vslab ≡ some a
    → length (s.bins sc_idx).vslabs ≡ suc n
    → walk (suc n) (handed s sc_idx a) sc_idx a ≡ some (true, s')
    → walk_bin (at_hand s sc_idx) sc_idx ≡ some (true, s')
walk_bin-handed s s' sc_idx a n now held result =
    let bin : Bin = record (s.bins sc_idx) { now_vslab = some a } in
    let bin_now : (handed s sc_idx a).bins sc_idx ≡ bin = update_self s.bins sc_idx bin in
    ap (λ t. walk_bin t sc_idx) (at_hand-now s sc_idx a now)
    ∙ walk_bin-now (handed s sc_idx a) sc_idx a n (ap Bin.now_vslab bin_now)
        (ap (λ (b : Bin). length b.vslabs) bin_now ∙ held)
    ∙ result

module _ (classes : List SizeClass) (meta_size : ℕ) where
  pub rounds-Filled :
      (fuel : ℕ) (s : Slabs) (new : ℕ → Fresh) (sc_idx a n : ℕ)
      → IsSource s sc_idx a
      → IsCache (s.caches sc_idx)
      → HasRoomInBanks (s.caches sc_idx)
      → (s.bins sc_idx).now_vslab ≡ some a
      → length (s.bins sc_idx).vslabs ≡ suc n
      → (s' : Slabs) × (fill_rounds classes meta_size (suc fuel) s new sc_idx ≡ some s')
        × Filled s sc_idx a s'
  unfolding fill_rounds
  rounds-Filled fuel s new sc_idx a n source cache_is room now held =
      let source' : IsSource (handed s sc_idx a) sc_idx a = record {
        is = source.is;
        lru_is = source.lru_is;
        class = source.class;
        in_class = source.in_class;
        enough = source.enough;
      } in
      let (s', result, f) = walk-Filled (handed s sc_idx a) sc_idx a n source' cache_is room in
      (
        s',
        rw (walk_bin-handed s s' sc_idx a n now held result) refl,
        record {
          full = f.full;
          cache_is = f.cache_is;
          is = f.is;
          lru_is = f.lru_is;
          now = f.now;
          moved = f.moved;
          others = f.others;
          other_caches = f.other_caches;
        },
      )

  -- When the slab at hand has enough free blocks and the banks of the cache have room, one round fills a bank
  -- from that slab alone: as many of its blocks are in use more as the cache holds more, no other slab
  -- and no other cache changes, and the invariants hold.
  pub tcache_fill_cache-Filled :
      (fuel : ℕ) (s : Slabs) (new : ℕ → Fresh) (sc_idx a n : ℕ)
      → IsSource s sc_idx a
      → IsCache (s.caches sc_idx)
      → HasRoomInBanks (s.caches sc_idx)
      → (s.bins sc_idx).now_vslab ≡ some a
      → length (s.bins sc_idx).vslabs ≡ suc n
      → (s' : Slabs) × (tcache_fill_cache classes meta_size (suc fuel) s new sc_idx ≡ some s')
        × Filled (ticked s) sc_idx a s'
  unfolding tcache_fill_cache
  tcache_fill_cache-Filled fuel s new sc_idx a n source cache_is room now held =
      rounds-Filled fuel (ticked s) new sc_idx a n (ticked-IsSource s sc_idx a source) cache_is room
        now held
