-- ===== src/Supply/Stock.antt =====
-- `tcache_fill_cache` for a bin without slabs: a slab is created, and fills a bank.
use nvalloc.Prelude.{
  ℕ, suc, ◌+◌, ◌*◌, ◌^◌, ◌≤◌, ◌<◌, ◌≡◌, refl, ap, ◌∙◌, false, true, Option, none, some, List, [],
  arith, length, get_elem?, ltb, ◌==◌, update_self,
}
use nvalloc.SizeClass.{SizeClass}
use nvalloc.SizeClass.Table.{sizeclass_lookup}
use nvalloc.Cache.Inv.{IsCache}
use nvalloc.Slab.{Bin}
use nvalloc.Supply.{
  Slabs, Fresh, at_hand, walk_bin, morph_search, slab_get_one, slab_create, fill_rounds,
  tcache_fill_cache,
}
use nvalloc.Supply.Pops.{total, HasRoomInBanks}
use nvalloc.Supply.Create.{Created, slab_create-Created}
use nvalloc.Supply.Fill.{IsSource, Filled, handed, ticked, rounds-Filled}

at_hand-empty :
    (s : Slabs) (sc_idx : ℕ)
    → s.bins sc_idx ≡ record { vslabs = []; now_vslab = none }
    → (at_hand s sc_idx).bins sc_idx ≡ record { vslabs = []; now_vslab = none }
unfolding at_hand
at_hand-empty s sc_idx empty =
    update_self s.bins sc_idx _
    ∙ ap
        (λ (b : Bin).
          let now : Option ℕ = elim b.now_vslab [ some a ↦ some a | none ↦ get_elem? b.vslabs 0 ] in
          record b { now_vslab = now })
        empty

walk_bin-none :
    (s : Slabs) (sc_idx : ℕ)
    → s.bins sc_idx ≡ record { vslabs = []; now_vslab = none }
    → walk_bin s sc_idx ≡ some (false, s)
unfolding walk_bin
walk_bin-none s sc_idx empty = rw (empty, walk_bin) refl

module _ (classes : List SizeClass) (meta_size : ℕ) where
  -- the search for a slab that changes its class is not made while few slabs are in low use
  morph_search-none :
      (s : Slabs) (new : Fresh) (sc_idx : ℕ)
      → ltb s.lru.lru_len (10 * s.lru.morphing_len) ≡ false
      → morph_search classes meta_size s new sc_idx ≡ some (none, s)
  unfolding morph_search
  morph_search-none s new sc_idx few = rw few refl

  slab_get_one-new :
      (s : Slabs) (new : Fresh) (sc_idx : ℕ)
      → ltb s.lru.lru_len (10 * s.lru.morphing_len) ≡ false
      → slab_get_one classes meta_size s new sc_idx ≡ slab_create classes meta_size s new sc_idx
  unfolding slab_get_one
  slab_get_one-new s new sc_idx few = rw (morph_search-none s new sc_idx few) refl

  -- a round that finds no block
  rounds-Created :
      (fuel : ℕ) (s : Slabs) (new : ℕ → Fresh) (sc_idx a : ℕ) (s' t : Slabs)
      → walk_bin (at_hand s sc_idx) sc_idx ≡ some (false, s')
      → slab_get_one classes meta_size s' (new fuel) sc_idx ≡ some (a, t)
      → fill_rounds classes meta_size (suc fuel) s new sc_idx
        ≡ fill_rounds classes meta_size fuel (handed t sc_idx a) new sc_idx
  unfolding fill_rounds
  rounds-Created fuel s new sc_idx a s' t none_left got = rw (none_left, got, fill_rounds) refl

  -- a new slab of a class with enough blocks is a source
  Created-IsSource :
      (s : Slabs) (new : Fresh) (sc_idx slab : ℕ) (sc : SizeClass) (t : Slabs)
      → Created classes meta_size s new sc_idx slab sc t
      → (sizeclass_lookup sc.bitsize == sc_idx) ≡ true
      → 186 < total (s.caches sc_idx) + sc.nbits
      → IsSource (handed t sc_idx new.vslab) sc_idx new.vslab
  Created-IsSource s new sc_idx slab sc t c class enough =
      let nbits : (t.vslabs new.vslab).sc.nbits ≡ sc.nbits = ap SizeClass.nbits c.class in
      let same : total (t.caches sc_idx) ≡ total (s.caches sc_idx) =
        ap (λ f. total (f sc_idx)) c.same_caches in
      record {
        is = c.is;
        lru_is = c.lru_is;
        class = ap (λ (k : SizeClass). sizeclass_lookup k.bitsize == sc_idx) c.class ∙ class;
        in_class = omega (arith, nbits, c.none_used);
        enough = omega (arith, nbits, c.none_used, same);
      }

  -- When a bin has no slab, few slabs are in low use, the banks of the cache have room and the class is laid
  -- out with enough blocks for them, two rounds create a slab and fill a bank from it: the slab is the
  -- one at hand, it has as many blocks in use as the cache holds more, and the invariants hold.
  pub tcache_fill_cache-Created :
      (fuel : ℕ) (s : Slabs) (new : ℕ → Fresh) (sc_idx slab : ℕ) (sc : SizeClass)
      → s.bins sc_idx ≡ record { vslabs = []; now_vslab = none }
      → ltb s.lru.lru_len (10 * s.lru.morphing_len) ≡ false
      → (new (suc fuel)).slab ≡ some slab
      → get_elem? classes sc_idx ≡ some sc
      → (sizeclass_lookup sc.bitsize == sc_idx) ≡ true
      → sc.nbits ≤ sc.n_bitmaps * 64
      → sc.nbits < 2 ^ 16
      → 0 < sc.bitsize
      → s.lru.morphing_len ≤ s.lru.lru_len
      → s.lru.lru_len + 1 < 2 ^ 64
      → IsCache (s.caches sc_idx)
      → HasRoomInBanks (s.caches sc_idx)
      → 186 < total (s.caches sc_idx) + sc.nbits
      → (t : Slabs) × (s' : Slabs) × Created classes meta_size
          (at_hand (ticked s) sc_idx)
          (new (suc fuel))
          sc_idx
          slab
          sc
          t
        × (tcache_fill_cache classes meta_size (suc (suc fuel)) s new sc_idx ≡ some s')
        × Filled (handed t sc_idx (new (suc fuel)).vslab) sc_idx (new (suc fuel)).vslab s'
  unfolding tcache_fill_cache at_hand
  tcache_fill_cache-Created fuel s new sc_idx slab sc empty few pages found class room small size
        bounded fits cache_is banks enough =
      let a = (new (suc fuel)).vslab in
      let hand = at_hand (ticked s) sc_idx in
      let (t, c) =
        slab_create-Created classes meta_size hand (new (suc fuel)) sc_idx slab sc pages found room
          small size bounded fits in
      let caches : t.caches sc_idx ≡ s.caches sc_idx = ap (λ f. f sc_idx) c.same_caches in
      let bin : Bin = record (t.bins sc_idx) { now_vslab = some a } in
      let at : (handed t sc_idx a).bins sc_idx ≡ bin = update_self t.bins sc_idx bin in
      let (s', result, f) =
        rounds-Filled classes meta_size fuel (handed t sc_idx a) new sc_idx a
          (length (hand.bins sc_idx).vslabs)
          (Created-IsSource hand (new (suc fuel)) sc_idx slab sc t c class enough)
          (rw caches cache_is) (rw caches banks) (ap Bin.now_vslab at)
          (ap (λ (b : Bin). length b.vslabs) at ∙ ap length c.in_bin) in
      let first =
        rounds-Created (suc fuel) (ticked s) new sc_idx a hand t
          (walk_bin-none hand sc_idx (at_hand-empty (ticked s) sc_idx empty))
          (slab_get_one-new hand (new (suc fuel)) sc_idx few ∙ c.result) in
      (t, s', c, first ∙ result, f)
