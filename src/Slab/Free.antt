-- ===== src/Slab/Free.antt =====
-- `slab_free_small` of src/slab.c: a block goes back to the cache of the thread, or to its slab, or is
-- one of the old size in a slab that has changed its class.
use nvalloc.Prelude.{
  ℕ, zero, suc, ◌+◌, ◌-◌, ◌/◌, ◌%◌, ◌^◌, Bool, true, false, ◌&&◌, not, Option, none, some, List, [],
  ◌∷◌, ◌++◌, if◌then◌else◌, ltb, leb, ◌==◌, ◌>>=◌, ◌>>◌, assert, get_or, set,
}
use nvalloc.Bitmap.{bitmap_unset_bits}
use nvalloc.Machine.{nbanks, u64_mod}
use nvalloc.Cache.{
  Cache, CacheEntry, Marks, cache_push, meta_unset, dmeta_set_state, meta_free, num_max_cache,
}
use nvalloc.Slab.{
  VSlab, LruSlabs, Bin, block_entry, is_low, update_arena_lru_morphing_slab, dl_delete,
  dl_delete_vslab,
}

-- `sb_table_s`
pub record SbTable : Type 0 where
  pub bid_b : ℕ
  pub is_freed : ℕ

-- the first row of the index table for a block, from row `row` on; off the table the assertion fails
unfoldable pub find_row : List SbTable → ℕ → ℕ → Option ℕ
find_row [] bid_b row = none
find_row (t ∷ ts) bid_b row =
    let rest = find_row ts bid_b (row + 1) in if t.bid_b == bid_b then some row else rest

unfoldable pub mark_freed : List SbTable → ℕ → List SbTable
mark_freed table row = set table row (
    let t = get_or table row (record { bid_b = 0; is_freed = 0 }) in
    record t { is_freed = (t.is_freed + 1) % 2 ^ 2 })

-- the blocks from `bid` on that the block at `ptr` of the old size overlaps lose it, and those that
-- overlap no other are free; for at most `fuel` of them
unfoldable pub release_overlapped : ℕ → ℕ → ℕ → VSlab → Marks → Option (VSlab × Marks)
release_overlapped zero ptr bid vslab marks = none
release_overlapped (suc fuel) ptr bid vslab marks =
    let entry = block_entry vslab bid in
    let d = marks.dmeta entry.dmeta in
    let num_b = (d.num_b + 2 ^ 15 - 1) % 2 ^ 15 in
    let counted : Marks = record marks {
      dmeta = λ a. if entry.dmeta == a then record d { num_b = num_b } else marks.dmeta a;
    } in
    let vslab' : VSlab = record vslab {
      bitmap = bitmap_unset_bits vslab.bitmap bid;
      bitmap_header = record {
        cur = vslab.bitmap_header.cur;
        nbits = (vslab.bitmap_header.nbits + 2 ^ 16 - 1) % 2 ^ 16;
      };
    } in
    let freed =
      dmeta_set_state (meta_unset counted entry.metas entry.index) entry.dmeta meta_free in
    let alone = num_b == 0 in
    let rest =
      release_overlapped fuel ptr (bid + 1) (if alone then vslab' else vslab)
        (if alone then freed else counted) in
    if ltb entry.ret (ptr + vslab.sc_b.bitsize) then rest else some (vslab, marks)

-- what a freed block changes: `released` tells that the slab goes back to its arena
pub record Freed : Type 0 where
  pub lru : LruSlabs
  pub bin : Bin
  pub cache : Cache
  pub vslab : VSlab
  pub marks : Marks
  pub table : List SbTable
  pub released : Bool

-- the branch of `slab_free_small` for a block of the old size
unfoldable pub free_old :
    LruSlabs → Bin → Cache → VSlab → Marks → List SbTable → ℕ → ℕ → Option Freed
unfolding find_row mark_freed release_overlapped dl_delete_vslab
free_old lru bin cache vslab marks table ptr index = do
  let bid_b = (ptr - (vslab.slab + vslab.sc_b.roffset)) / vslab.sc_b.bitsize
  row ← find_row table bid_b 0
  (vslab', marks') ←
      release_overlapped (vslab.sc_b.bitsize / vslab.sc.bitsize + 2) ptr index
        (record vslab { num_b = (vslab.num_b + 2 ^ 8 - 1) % 2 ^ 8 }) marks
  let low = is_low vslab'.bitmap_header.nbits vslab'.sc.nbits
  let table' = mark_freed (mark_freed table row) row
  let empty : Freed = record {
    lru = lru;
    bin = dl_delete_vslab bin vslab.self;
    cache = cache;
    vslab = vslab';
    marks = marks';
    table = table';
    released = true;
  }
  let unmixed : Freed = record empty {
    lru = record {
      timestamp = lru.timestamp;
      lru_len = lru.lru_len + 1;
      morphing_len = if low then (lru.morphing_len + 1) % u64_mod else lru.morphing_len;
      lru_vslabs = lru.lru_vslabs ++ vslab.self ∷ [];
    };
    bin = bin;
    vslab = record vslab' { timestamp = lru.timestamp; in_lru = true };
    released = false;
  }
  some (
      if vslab'.bitmap_header.nbits == 0
      then empty
      else if vslab'.num_b == 0
      then unmixed
      else record empty { bin = bin; released = false })

-- the branch for a block that goes back to the slab
unfoldable pub free_to_slab :
    LruSlabs → Bin → Cache → VSlab → Marks → List SbTable → ℕ → Option Freed
unfolding update_arena_lru_morphing_slab dl_delete_vslab
free_to_slab lru bin cache vslab marks table index = do
  let nbits = (vslab.bitmap_header.nbits + 2 ^ 16 - 1) % 2 ^ 16
  let vslab' : VSlab = record vslab {
    bitmap = bitmap_unset_bits vslab.bitmap index;
    bitmap_header = record { cur = vslab.bitmap_header.cur; nbits = nbits };
  }
  let updated = update_arena_lru_morphing_slab lru (nbits + 1) nbits vslab.sc.nbits
  lru' ← (if vslab.num_b == 0 then updated else some lru)
  let kept : Freed = record {
    lru = lru';
    bin = bin;
    cache = cache;
    vslab = vslab';
    marks = marks;
    table = table;
    released = false;
  }
  some (
      if nbits == 0
      then record kept {
        lru = record lru' {
          lru_len = (lru'.lru_len + u64_mod - 1) % u64_mod;
          morphing_len = (lru'.morphing_len + u64_mod - 1) % u64_mod;
          lru_vslabs = dl_delete lru'.lru_vslabs vslab.self;
        };
        bin = dl_delete_vslab bin vslab.self;
        released = true;
      }
      else kept)

-- `slab_free_small`; `cross` tells that the slab is of another arena than the freeing thread, and
-- `lru` and `bin` are those of the slab's arena
unfoldable pub slab_free_small :
    LruSlabs → Bin → Cache → VSlab → Marks → List SbTable → ℕ → Bool → Option Freed
unfolding free_old free_to_slab
slab_free_small lru bin cache vslab marks table ptr cross =
    let index = (ptr - vslab.sc.roffset - vslab.slab) / vslab.sc.bitsize in
    let entry : CacheEntry = record (block_entry vslab index) { ret = ptr } in
    let old = not (vslab.num_b == 0) && not ((marks.dmeta entry.dmeta).num_b == 0) in
    let marks' = dmeta_set_state (meta_unset marks entry.metas entry.index) entry.dmeta meta_free in
    let fits = ltb (get_or cache.ncached (index % nbanks) 0) num_max_cache in
    let of_old_size = free_old lru bin cache vslab marks table ptr index in
    let to_slab = free_to_slab lru bin cache vslab marks' table index in
    let to_cache : Option Freed = (do
      cache' ← cache_push cache (index % nbanks) entry
      some (record {
        lru = lru;
        bin = bin;
        cache = cache';
        vslab = vslab;
        marks = marks';
        table = table;
        released = false;
      })) in
    assert (leb index vslab.sc.nbits)
    >> (if old then of_old_size else if not cross && fits then to_cache else to_slab)
