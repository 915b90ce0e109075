-- ===== src/Slab.antt =====
-- include/nvalloc/internal/slab.h and src/slab.c: a slab of 64 KiB with blocks of one size, and with
-- blocks of a second size in a slab that has changed its class ("mixed"). What the code keeps under a
-- lock is changed here in one step.
pub mod Place
pub mod Inv
pub mod Lru
pub mod Touch
pub mod Popping
pub mod Free
pub mod Freeing
pub mod Morph
pub mod InUse
pub mod Flagged
pub mod Returned
use nvalloc.Prelude.{
  ℕ, zero, suc, ◌+◌, ◌-◌, ◌*◌, ◌/◌, ◌%◌, ◌^◌, Bool, true, false, ◌&&◌, not, Option, none, some,
  List, [], ◌∷◌, ◌++◌, if◌then◌else◌, ltb, leb, ◌==◌, ◌>>=◌, ◌>>◌, assert, get_or, set, replicate,
}
use nvalloc.Word.{Word, width, all_ones}
use nvalloc.Bitmap.{Bitmap, BitmapHeader, bitmap_sfu, bitmap_unset_bits}
use nvalloc.Interleave.{bid_to_mid}
use nvalloc.Machine.{nbanks, cacheline_size, round_up, u64_mod}
use nvalloc.SizeClass.{SizeClass}
use nvalloc.SizeClass.Table.{sizeclass_lookup}
use nvalloc.Cache.{
  Cache, CacheEntry, DMeta, Marks, cache_push, meta_unset, dmeta_set_state, meta_free,
  num_max_cache,
}

-- the fields of `vslab_s`, with the address of the structure, which also names its node in the list of
-- the arena's slabs; `in_lru` is `LRU_dlnode != NULL`
pub record VSlab : Type 0 where
  pub self : ℕ
  pub slab : ℕ
  pub bitmap_header : BitmapHeader
  pub bitmap : Bitmap
  pub sc : SizeClass
  pub dmeta : ℕ
  pub timestamp : ℕ
  pub in_lru : Bool
  pub num_b : ℕ
  pub sc_b : SizeClass

-- the fields of `arena_s` on the slabs that may change their class, oldest first
pub record LruSlabs : Type 0 where
  pub timestamp : ℕ
  pub lru_len : ℕ
  pub morphing_len : ℕ
  pub lru_vslabs : List ℕ

-- `bin_s`: the slabs of a class, and the one at hand, `none` at the head of the list
pub record Bin : Type 0 where
  pub vslabs : List ℕ
  pub now_vslab : Option ℕ

-- `sizeof(dmeta_t)` and `sizeof(sb_table_t)`
abbrev pub sizeof_dmeta : ℕ
sizeof_dmeta = 2

abbrev pub sizeof_sb_table : ℕ
sizeof_sb_table = 2

unfoldable pub get_sb_table_size : ℕ → ℕ
get_sb_table_size nbits = round_up (sizeof_sb_table * nbits) cacheline_size

-- `memset` of the bytes of the marks, and of the index table, to zero
unfoldable pub slab_init : Marks → ℕ → SizeClass → Marks
slab_init marks slab sc = record marks {
  bit = λ byte i.
      if leb (slab + sc.moffset) byte && ltb byte (slab + sc.roffset)
      then false
      else marks.bit byte i;
}

-- the new array of `dmeta_t` stands at `dmeta`
unfoldable pub vslab_init : VSlab → ℕ → SizeClass → VSlab
vslab_init vslab dmeta sc = record vslab {
  bitmap_header = record { cur = 0; nbits = 0 };
  bitmap = replicate sc.n_bitmaps (all_ones width);
  sc = sc;
  dmeta = dmeta;
  timestamp = 0;
  num_b = 0;
}

-- `num_a <= 0.2 * num + 0.00001`, for integers
abbrev pub is_low : ℕ → ℕ → Bool
is_low num_a num = leb (5 * num_a) num

unfoldable pub update_arena_lru_morphing_slab : LruSlabs → ℕ → ℕ → ℕ → Option LruSlabs
update_arena_lru_morphing_slab lru num_a num_b num =
    let len =
      if is_low num_a num && not (is_low num_b num)
      then (lru.morphing_len + u64_mod - 1) % u64_mod
      else if not (is_low num_a num) && is_low num_b num
      then (lru.morphing_len + 1) % u64_mod
      else lru.morphing_len in
    assert (leb len lru.lru_len) >> some (record lru { morphing_len = len })

-- the lists by the names of their nodes: `dl_delete`, `dl_move_to_tail`, `node->nxt`
unfoldable pub dl_delete : List ℕ → ℕ → List ℕ
dl_delete [] node = []
dl_delete (x ∷ xs) node = let rest = dl_delete xs node in if x == node then xs else x ∷ rest

unfoldable pub dl_next : List ℕ → ℕ → Option ℕ
dl_next [] node = none
dl_next (x ∷ []) node = none
dl_next (x ∷ y ∷ ys) node = let rest = dl_next (y ∷ ys) node in if x == node then some y else rest

unfoldable pub dl_move_to_tail : List ℕ → ℕ → List ℕ
unfolding dl_delete
dl_move_to_tail dl node = dl_delete dl node ++ node ∷ []

abbrev pub is_node : Option ℕ → ℕ → Bool
is_node o node = elim o [ none ↦ false | some n ↦ n == node ]

abbrev pub last : List ℕ → Option ℕ
last [] = none
last (x ∷ []) = some x
last (x ∷ y ∷ ys) = last (y ∷ ys)

unfoldable pub dl_delete_vslab : Bin → ℕ → Bin
unfolding dl_delete dl_next
dl_delete_vslab bin node = record {
  vslabs = dl_delete bin.vslabs node;
  now_vslab = if is_node bin.now_vslab node then dl_next bin.vslabs node else bin.now_vslab;
}

-- the entry of block `index`
abbrev pub block_entry : VSlab → ℕ → CacheEntry
block_entry vslab index =
    let mid = bid_to_mid index in
    record {
      ret = vslab.slab + vslab.sc.roffset + index * vslab.sc.bitsize;
      metas = vslab.slab + vslab.sc.moffset + mid / 8;
      index = mid % 8;
      dmeta = vslab.dmeta + sizeof_dmeta * index;
      is_sb = false;
    }

-- the slab goes to the end of the list, unless it is mixed or there already
unfoldable pub touch : LruSlabs → VSlab → Option (LruSlabs × VSlab)
unfolding dl_move_to_tail
touch lru vslab =
    let vslab' : VSlab = record vslab { timestamp = lru.timestamp } in
    let moved : LruSlabs = record lru { lru_vslabs = dl_move_to_tail lru.lru_vslabs vslab.self } in
    let at_tail = is_node (last lru.lru_vslabs) vslab.self in
    if vslab.num_b == 0
    then if vslab.in_lru && at_tail
      then some (lru, vslab')
      else (assert vslab.in_lru >> some (moved, vslab'))
    else some (lru, vslab)

-- the results -1, 0 and 1 of `slab_pop_one_cache`
pub data Pop : Type 0 where
  no_block : Pop
  cache_full : Pop
  cached : Pop

-- `slab_pop_one_cache` with a block to pop
unfoldable pub pop_block : LruSlabs → Cache → VSlab → Option (Pop × LruSlabs × Cache × VSlab)
unfolding update_arena_lru_morphing_slab touch
pop_block lru cache vslab = do
  let nbits = vslab.bitmap_header.nbits
  (index, bitmap) ← bitmap_sfu vslab.sc.n_bitmaps nbits vslab.bitmap true
  assert (ltb index vslab.sc.nbits)
  let vslab' : VSlab = record vslab {
    bitmap = bitmap;
    bitmap_header = record { cur = vslab.bitmap_header.cur; nbits = (nbits + 1) % 2 ^ 16 };
  }
  let updated = update_arena_lru_morphing_slab lru nbits ((nbits + 1) % 2 ^ 16) vslab.sc.nbits
  lru' ← (if vslab.num_b == 0 then updated else some lru)
  let cid = index % nbanks
  cache' ← cache_push cache cid (block_entry vslab index)
  let touched : Option (Pop × LruSlabs × Cache × VSlab) =
      touch lru' vslab' >>= λ (l, v). some (cached, l, cache', v)
  if get_or cache'.ncached cid 0 == num_max_cache
      then some (cache_full, lru', cache', vslab')
      else touched

unfoldable pub slab_pop_one_cache :
    LruSlabs → Cache → VSlab → ℕ → Option (Pop × LruSlabs × Cache × VSlab)
unfolding pop_block
slab_pop_one_cache lru cache vslab sc_idx =
    let nbits = vslab.bitmap_header.nbits in
    let popped = pop_block lru cache vslab in
    if not (sizeclass_lookup vslab.sc.bitsize == sc_idx)
    then some (no_block, lru, cache, vslab)
    else if nbits == vslab.sc.nbits + 1
    then some (no_block, lru, cache, vslab)
    else (do
      assert (leb nbits vslab.sc.nbits)
      if nbits == vslab.sc.nbits then some (no_block, lru, cache, vslab) else popped)
