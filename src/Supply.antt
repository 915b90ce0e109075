-- ===== src/Supply.antt =====
-- How slabs come into the bins of an arena and fill the caches of a thread: `slab_create`,
-- `slab_morphing` and `slab_get_one` of src/slab.c, `tcache_fill_cache` of src/tcache.c. Memory that an
-- allocation returns is an argument, and what it holds before it is written.

pub mod Pops
pub mod Create
pub mod Fill
pub mod Stock
use nvalloc.Prelude.{
  ℕ, zero, suc, ◌+◌, ◌-◌, ◌*◌, ◌%◌, ◌^◌, Bool, true, false, not, ◌&&◌, Option, none, some, List, [],
  ◌∷◌, ◌++◌, if◌then◌else◌, ltb, leb, ◌==◌, ◌>>=◌, ◌>>◌, assert, get_elem?, get_or, set, length,
  replicate, update,
}
use nvalloc.Word.{all_ones, width}
use nvalloc.Bitmap.{Bitmap}
use nvalloc.Machine.{nbanks, u64_mod}
use nvalloc.SizeClass.{SizeClass, sizeclass_reset}
use nvalloc.SizeClass.Table.{sizeclass_lookup}
use nvalloc.Cache.{Cache, Marks}
use nvalloc.Slab.{
  VSlab, LruSlabs, Bin, Pop, no_block, cache_full, cached, slab_init, vslab_init, is_low, is_node,
  get_sb_table_size, sizeof_dmeta, sizeof_sb_table, dl_delete, dl_next, dl_delete_vslab,
  slab_pop_one_cache,
}
use nvalloc.Slab.Free.{SbTable}
use nvalloc.Slab.Morph.{unset_words, blocks_in_use, sb_rows, overlap_all}

-- `slab_s`, at the start of a slab
pub record SlabHeader : Type 0 where
  pub sc : SizeClass
  pub sc_b : SizeClass
  pub is_mixed : ℕ

-- the bins and slabs of an arena, the caches of the thread, and the memory of the slabs: the marks, the
-- headers and the index tables. A `vslab_t`, which names its nodes, is known by its address.
pub record Slabs : Type 0 where
  pub lru : LruSlabs
  pub bins : ℕ → Bin
  pub vslabs : ℕ → VSlab
  pub caches : ℕ → Cache
  pub marks : Marks
  pub headers : ℕ → SlabHeader
  pub tables : ℕ → List SbTable

-- what allocations return for a new slab: the `vslab_t` and what it holds, the pages, `none` for no
-- extent, the array of `dmeta_t`, and what the memory of the index table holds
pub record Fresh : Type 0 where
  pub vslab : ℕ
  pub junk : VSlab
  pub slab : Option ℕ
  pub dmeta : ℕ
  pub rows : List SbTable

-- `dl_insert` into the list of a bin
abbrev pub bin_insert : Bin → ℕ → Bin
bin_insert bin node = record bin { vslabs = node ∷ bin.vslabs }

-- the `memset` of `n` new `dmeta_t`
unfoldable pub clear_dmeta : Marks → ℕ → ℕ → Marks
clear_dmeta marks dmeta n = record marks {
  dmeta = λ a.
      if leb dmeta a && ltb a (dmeta + sizeof_dmeta * n)
      then record { state = 0; num_b = 0 }
      else marks.dmeta a;
}

-- `slab_init` and `vslab_init` of the slab at `a`
unfoldable pub init_slab : Slabs → ℕ → ℕ → SizeClass → Slabs
unfolding slab_init vslab_init clear_dmeta
init_slab s a dmeta sc =
    let v = s.vslabs a in
    record s {
      vslabs = update s.vslabs a (vslab_init v dmeta sc);
      marks = clear_dmeta (slab_init s.marks v.slab sc) dmeta (sc.nbits + 1);
      headers = update s.headers v.slab (record (s.headers v.slab) { sc = sc; is_mixed = 0 });
    }

-- the slab at `a` goes from its bin to that of class `sc_idx`
unfoldable pub change_bin : Slabs → ℕ → ℕ → ℕ → Slabs
unfolding dl_delete_vslab
change_bin s a sc_idx_b sc_idx =
    let bins = update s.bins sc_idx_b (dl_delete_vslab (s.bins sc_idx_b) a) in
    record s { bins = update bins sc_idx (bin_insert (bins sc_idx) a) }

-- step 1 of `slab_morphing`, which takes blocks back from the cache of class `sc_idx`
unfoldable pub take_back : Slabs → ℕ → ℕ → Slabs
unfolding unset_words
take_back s a sc_idx =
    let v = s.vslabs a in
    let (checked, cache, v') =
      unset_words s.marks v.sc.n_bitmaps 0 (replicate nbanks false) (s.caches sc_idx) v in
    record s { vslabs = update s.vslabs a v'; caches = update s.caches sc_idx cache }

-- step 4 but its loops: the slab, with the blocks of its old class in use, gets the class `sc_a`
unfoldable pub with_class : Slabs → ℕ → Fresh → SizeClass → Slabs
unfolding dl_delete clear_dmeta
with_class s a new sc_a =
    let v = s.vslabs a in
    let v' : VSlab = record v {
      sc = sc_a;
      sc_b = v.sc;
      num_b = v.bitmap_header.nbits % 2 ^ 8;
      bitmap_header = record { cur = v.bitmap_header.cur; nbits = 0 };
      bitmap = replicate sc_a.n_bitmaps (all_ones width);
      in_lru = false;
      dmeta = new.dmeta;
    } in
    let header = s.headers v.slab in
    let marks : Marks = record s.marks {
      bit = λ byte i.
          if leb (v.slab + sc_a.moffset) byte && ltb byte (v.slab + sc_a.toffset)
          then false
          else s.marks.bit byte i;
    } in
    record s {
      vslabs = update s.vslabs a v';
      lru = record s.lru {
        lru_vslabs = dl_delete s.lru.lru_vslabs a;
        lru_len = (s.lru.lru_len + u64_mod - 1) % u64_mod;
        morphing_len = (s.lru.morphing_len + u64_mod - 1) % u64_mod;
      };
      headers =
          update s.headers v.slab
            (record { sc = sc_a; sc_b = v.sc; is_mixed = (header.is_mixed + 3) % 2 ^ 8 });
      marks = clear_dmeta marks new.dmeta (sc_a.nbits + 1);
    }

-- the index table: a row for each block in use, and behind them one for block 0, where it has room
unfoldable pub index_table : SizeClass → Bitmap → List SbTable → List SbTable
unfolding sb_rows
index_table sc_a bm_b rest =
    let rows = sb_rows bm_b in
    let next = get_or rest 0 (record { bid_b = 0; is_freed = 0 }) in
    rows
    ++ (if leb (sc_a.toffset + sizeof_sb_table * (length rows + 1)) sc_a.roffset
        then set rest 0 (record next { bid_b = 0 })
        else rest)

-- steps 4 and 5
unfoldable pub change_class : Slabs → ℕ → Fresh → SizeClass → ℕ → ℕ → Option Slabs
unfolding with_class change_bin index_table overlap_all
change_class s a new sc_a sc_idx_b sc_idx = do
  let v = s.vslabs a
  let s' = change_bin (with_class s a new sc_a) a sc_idx_b sc_idx
  let v' = s'.vslabs a
  assert (length (sb_rows v.bitmap) == v'.num_b)
  (done, marks) ← overlap_all (blocks_in_use v.bitmap 0) v' s'.marks
  assert (leb done.bitmap_header.nbits (done.sc.nbits + 1))
  let header = s'.headers v.slab
  some (record s' {
    vslabs = update s'.vslabs a done;
    marks = marks;
    tables = update s'.tables v.slab (index_table sc_a v.bitmap new.rows);
    headers = update s'.headers v.slab (record header { is_mixed = (header.is_mixed + 1) % 2 ^ 8 });
  })

-- the calls of `slab_pop_one_cache` for a slab, until one does not return 1
unfoldable pub pop_all : ℕ → LruSlabs → Cache → VSlab → ℕ → Option (Pop × LruSlabs × Cache × VSlab)
unfolding slab_pop_one_cache
pop_all zero lru cache v sc_idx = none
pop_all (suc fuel) lru cache v sc_idx =
    slab_pop_one_cache lru cache v sc_idx >>= λ (ret, lru', cache', v').
    let rest = pop_all fuel lru' cache' v' sc_idx in
    elim ret [
      | cached ↦ rest
      | cache_full ↦ some (cache_full, lru', cache', v')
      | no_block ↦ some (no_block, lru', cache', v')
    ]

-- `dln->nxt`, over the head of the list
abbrev pub ring_next : List ℕ → ℕ → ℕ
ring_next vslabs dln = elim (dl_next vslabs dln) [ some a ↦ a | none ↦ get_or vslabs 0 0 ]

-- the inner loop of `tcache_fill_cache` from the slab `dln` on: whether a bank of the cache is full; for
-- at most `fuel` slabs
unfoldable pub walk : ℕ → Slabs → ℕ → ℕ → Option (Bool × Slabs)
unfolding pop_all dl_next
walk zero s sc_idx dln = none
walk (suc fuel) s sc_idx dln =
    let v = s.vslabs dln in
    pop_all (v.sc.nbits + 2) s.lru (s.caches sc_idx) v sc_idx >>= λ (ret, lru, cache, v').
    let s' : Slabs = record s {
      lru = lru;
      caches = update s.caches sc_idx cache;
      vslabs = update s.vslabs dln v';
    } in
    let bin = s.bins sc_idx in
    let next = ring_next bin.vslabs dln in
    let rest = walk fuel s' sc_idx next in
    elim ret [
      | cache_full ↦
          some
            (true, record s' { bins = update s'.bins sc_idx (record bin { now_vslab = some dln }) })
      | no_block ↦ if is_node bin.now_vslab next then some (false, s') else rest
      | cached ↦ none
    ]

-- the start of a round of the outer loop: the slab at hand, or the first of the bin
unfoldable pub at_hand : Slabs → ℕ → Slabs
at_hand s sc_idx =
    let bin = s.bins sc_idx in
    let now : Option ℕ = elim bin.now_vslab [ some a ↦ some a | none ↦ get_elem? bin.vslabs 0 ] in
    record s { bins = update s.bins sc_idx (record bin { now_vslab = now }) }

-- the slabs of the bin, from the one at hand on
unfoldable pub walk_bin : Slabs → ℕ → Option (Bool × Slabs)
unfolding walk
walk_bin s sc_idx =
    let bin = s.bins sc_idx in
    elim bin.now_vslab [ none ↦ some (false, s) | some dln ↦ walk (length bin.vslabs) s sc_idx dln ]

module _ (classes : List SizeClass) (meta_size : ℕ) where
  unfoldable pub slab_create : Slabs → Fresh → ℕ → Option (ℕ × Slabs)
  unfolding init_slab
  slab_create s new sc_idx = do
    slab ← new.slab
    sc ← get_elem? classes sc_idx
    let a = new.vslab
    let made : Slabs = record s {
      vslabs = update s.vslabs a (record new.junk { self = a; slab = slab });
    }
    let s' = init_slab made a new.dmeta sc
    some (
      a,
      record s' {
        vslabs = update s'.vslabs a (record (s'.vslabs a) { in_lru = true });
        lru = record s'.lru {
          lru_vslabs = s'.lru.lru_vslabs ++ a ∷ [];
          lru_len = (s'.lru.lru_len + 1) % u64_mod;
          morphing_len = (s'.lru.morphing_len + 1) % u64_mod;
        };
        bins = update s'.bins sc_idx (bin_insert (s'.bins sc_idx) a);
      },
    )

  -- step 3: the class with an index table, unless the first block in use is in its way
  unfoldable pub try_class : Slabs → ℕ → Fresh → SizeClass → ℕ → ℕ → Option (Bool × Slabs)
  unfolding change_class
  try_class s a new sc sc_idx_b sc_idx = do
    let v = s.vslabs a
    sc_tmp ← sizeclass_reset meta_size sc (get_sb_table_size v.bitmap_header.nbits)
    bid_b ← get_elem? (blocks_in_use v.bitmap 0) 0
    assert (ltb bid_b v.sc.nbits)
    let changed = change_class s a new sc_tmp sc_idx_b sc_idx
    if ltb (v.sc.roffset + bid_b * v.sc.bitsize) sc_tmp.roffset
        then some (false, s)
        else (changed >>= λ s'. some (true, s'))

  unfoldable pub slab_morphing : Slabs → ℕ → Fresh → ℕ → Option (Bool × Slabs)
  unfolding take_back change_bin init_slab try_class
  slab_morphing s a new sc_idx = do
    sc ← get_elem? classes sc_idx
    let sc_idx_b = sizeclass_lookup (s.vslabs a).sc.bitsize
    let s' = take_back s a sc_idx
    let emptied = change_bin (init_slab s' a new.dmeta sc) a sc_idx_b sc_idx
    let tried = try_class s' a new sc sc_idx_b sc_idx
    if (s'.vslabs a).bitmap_header.nbits == 0 then some (true, emptied) else tried

  -- the loop of `slab_get_one` over the arena's list from the oldest slab on: the slab that has changed
  -- its class, if any
  unfoldable pub morph_first : List ℕ → Slabs → Fresh → ℕ → ℕ → Option (Option ℕ × Slabs)
  unfolding slab_morphing
  morph_first [] s new bitsize sc_idx = some (none, s)
  morph_first (a ∷ others) s new bitsize sc_idx =
      let v = s.vslabs a in
      let age = (s.lru.timestamp + u64_mod - v.timestamp) % u64_mod in
      let fits = is_low v.bitmap_header.nbits v.sc.nbits && not (v.sc.bitsize == bitsize) in
      let morphed : Option (Bool × Slabs) =
        if fits then slab_morphing s a new sc_idx else some (false, s) in
      let next : Option (Option ℕ × Slabs) = morphed >>= λ (done, s').
      let rest = morph_first others s' new bitsize sc_idx in
      if done then some (some a, s') else rest in
      if ltb 1000 age then next else some (none, s)

  -- the search of `slab_get_one`, where more than a tenth of the slabs are in low use
  unfoldable pub morph_search : Slabs → Fresh → ℕ → Option (Option ℕ × Slabs)
  unfolding morph_first
  morph_search s new sc_idx =
      let search =
        get_elem? classes sc_idx >>= λ sc. morph_first s.lru.lru_vslabs s new sc.bitsize sc_idx in
      if ltb s.lru.lru_len (10 * s.lru.morphing_len) then search else some (none, s)

  unfoldable pub slab_get_one : Slabs → Fresh → ℕ → Option (ℕ × Slabs)
  unfolding morph_search slab_create
  slab_get_one s new sc_idx = morph_search s new sc_idx >>= λ (found, s'). elim found [
    | some a ↦ some (a, s')
    | none ↦ slab_create s' new sc_idx
  ]

  -- the outer loop, for at most `fuel` rounds, with what the allocations of each return
  unfoldable pub fill_rounds : ℕ → Slabs → (ℕ → Fresh) → ℕ → Option Slabs
  unfolding at_hand walk_bin slab_get_one
  fill_rounds zero s new sc_idx = none
  fill_rounds (suc fuel) s new sc_idx = walk_bin (at_hand s sc_idx) sc_idx >>= λ (filled, s'').
      let more : Option Slabs = slab_get_one s'' (new fuel) sc_idx >>= λ (a, t).
      fill_rounds fuel
        (record t { bins = update t.bins sc_idx (record (t.bins sc_idx) { now_vslab = some a }) })
        new sc_idx in
      if filled then some s'' else more

  unfoldable pub tcache_fill_cache : ℕ → Slabs → (ℕ → Fresh) → ℕ → Option Slabs
  unfolding fill_rounds
  tcache_fill_cache fuel s new sc_idx =
      fill_rounds fuel
        (record s { lru = record s.lru { timestamp = (s.lru.timestamp + 1) % u64_mod } }) new sc_idx
