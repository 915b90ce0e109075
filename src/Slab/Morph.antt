-- ===== src/Slab/Morph.antt =====
-- Parts of `slab_morphing` of src/slab.c, by which a slab with few blocks in use changes its class: giving
-- back its blocks that lie in a cache, listing those in use, and marking the new blocks they overlap.
use nvalloc.Prelude.{
  ℕ, zero, suc, ◌+◌, ◌-◌, ◌*◌, ◌/◌, ◌%◌, ◌^◌, Bool, true, false, ◌&&◌, not, Option, none, some,
  List, [], ◌∷◌, ◌++◌, map, if◌then◌else◌, ltb, leb, ◌==◌, ◌>>=◌, ◌>>◌, assert, get_or, set,
  first_one,
}
use nvalloc.Word.{Word, word_not, word_xor, word_and, negate}
use nvalloc.Bitmap.{Bitmap, bitmap_set_bits, bitmap_unset_bits}
use nvalloc.Machine.{nbanks, slab_size}
use nvalloc.Cache.{Cache, CacheEntry, Marks, meta_set, meta_free, meta_alloced, row}
use nvalloc.Slab.{VSlab, block_entry}
use nvalloc.Slab.Free.{SbTable}

abbrev pub no_entry : CacheEntry
no_entry = record { ret = 0; metas = 0; index = 0; dmeta = 0; is_sb = true }

-- the loop of `slab_unset_bm_tcache` over the entries of bank `cid`, of which `left` are left from `i`
-- on: those of the slab are flagged as given back, and are free in it
unfoldable pub give_back : ℕ → ℕ → ℕ → Cache → VSlab → Cache × VSlab
give_back zero i cid cache vslab = (cache, vslab)
give_back (suc left) i cid cache vslab =
    let entry = get_or cache.avail (row cid i) no_entry in
    let of_slab =
      leb vslab.slab entry.ret && ltb entry.ret (vslab.slab + slab_size) && not entry.is_sb in
    let id = (entry.ret - (vslab.slab + vslab.sc.roffset)) / vslab.sc.bitsize in
    let flagged : Cache = record cache {
      avail = set cache.avail (row cid i) (record entry { is_sb = true });
    } in
    let freed : VSlab = record vslab {
      bitmap = bitmap_unset_bits vslab.bitmap id;
      bitmap_header = record {
        cur = vslab.bitmap_header.cur;
        nbits = (vslab.bitmap_header.nbits + 2 ^ 16 - 1) % 2 ^ 16;
      };
    } in
    give_back left (i + 1) cid (if of_slab then flagged else cache)
      (if of_slab then freed else vslab)

-- the result, and the banks checked, the cache and the slab
unfoldable pub slab_unset_bm_tcache :
    Marks → ℕ → List Bool → Cache → VSlab → Bool × List Bool × Cache × VSlab
unfolding give_back
slab_unset_bm_tcache marks bid checked cache vslab =
    let cid = bid % nbanks in
    let (cache', vslab') = give_back (get_or cache.ncached cid 0) 0 cid cache vslab in
    let state = (marks.dmeta (block_entry vslab bid).dmeta).state in
    if not (get_or checked cid false) && state == meta_free
    then (true, set checked cid true, cache', vslab')
    else (false, checked, cache, vslab)

-- the blocks of word `i` that are set in `x`, the lowest first; for at most `fuel` of them
unfoldable pub word_blocks : ℕ → Word → ℕ → List ℕ
word_blocks zero x i = []
word_blocks (suc fuel) x i =
    let rest = word_blocks fuel (word_xor x (word_and x (negate x))) i in
    elim (first_one x) [ none ↦ [] | some k ↦ (i * 64 + k) ∷ rest ]

-- the blocks in use of a bitmap, from word `i` on; a word has at most 64
unfoldable pub blocks_in_use : Bitmap → ℕ → List ℕ
unfolding word_blocks
blocks_in_use [] i = []
blocks_in_use (w ∷ ws) i = word_blocks 64 (word_not w) i ++ blocks_in_use ws (i + 1)

-- the first step of `slab_morphing` in one word
unfoldable pub unset_blocks : Marks → List ℕ → List Bool → Cache → VSlab → List Bool × Cache × VSlab
unfolding slab_unset_bm_tcache
unset_blocks marks [] checked cache vslab = (checked, cache, vslab)
unset_blocks marks (bid ∷ bids) checked cache vslab =
    let (changed, checked', cache', vslab') = slab_unset_bm_tcache marks bid checked cache vslab in
    let rest = unset_blocks marks bids checked' cache' vslab' in
    if changed && vslab'.bitmap_header.nbits == 0 then (checked', cache', vslab') else rest

-- the same in the words from `i` on, of which `left` are left
unfoldable pub unset_words : Marks → ℕ → ℕ → List Bool → Cache → VSlab → List Bool × Cache × VSlab
unfolding unset_blocks word_blocks
unset_words marks zero i checked cache vslab = (checked, cache, vslab)
unset_words marks (suc left) i checked cache vslab =
    let x = word_not (get_or vslab.bitmap i []) in
    let (checked', cache', vslab') = unset_blocks marks (word_blocks 64 x i) checked cache vslab in
    unset_words marks left (i + 1) checked' cache' vslab'

abbrev pub sb_row : ℕ → SbTable
sb_row bid_b = record { bid_b = bid_b % 2 ^ 14; is_freed = 0 }

-- step 4.1: the rows of the index table; `bid_b` has 14 bits
unfoldable pub sb_rows : Bitmap → List SbTable
unfolding blocks_in_use
sb_rows bm_b = map sb_row (blocks_in_use bm_b 0)

-- the inner loop of step 4.2, for a block of the old size at `addr`, from the new block `bid` on; for
-- at most `fuel` of them. `nbits` counts the blocks in use
unfoldable pub overlap : ℕ → ℕ → ℕ → VSlab → Marks → Option (VSlab × Marks)
unfolding meta_set
overlap zero addr bid vslab marks = none
overlap (suc fuel) addr bid vslab marks =
    let entry = block_entry vslab bid in
    let d = marks.dmeta entry.dmeta in
    let fresh = d.num_b == 0 in
    let marked = meta_set marks entry.metas entry.index in
    let marks' : Marks = record (if fresh then marked else marks) {
      dmeta = λ a.
          if entry.dmeta == a
          then record {
            state = if fresh then meta_alloced else d.state;
            num_b = (d.num_b + 1) % 2 ^ 15;
          }
          else marks.dmeta a;
    } in
    let taken : VSlab = record vslab {
      bitmap = bitmap_set_bits vslab.bitmap bid;
      bitmap_header = record {
        cur = vslab.bitmap_header.cur;
        nbits = (vslab.bitmap_header.nbits + 1) % 2 ^ 16;
      };
    } in
    let rest = overlap fuel addr (bid + 1) (if fresh then taken else vslab) marks' in
    if ltb entry.ret (addr + vslab.sc_b.bitsize)
    then (assert (leb bid vslab.sc.nbits) >> rest)
    else some (vslab, marks)

-- step 4.2, over the blocks of the old size in use
unfoldable pub overlap_all : List ℕ → VSlab → Marks → Option (VSlab × Marks)
unfolding overlap
overlap_all [] vslab marks = some (vslab, marks)
overlap_all (bid_b ∷ bids) vslab marks = do
  assert (ltb bid_b vslab.sc_b.nbits)
  let addr = vslab.slab + vslab.sc_b.roffset + bid_b * vslab.sc_b.bitsize
  let bid = (addr - (vslab.slab + vslab.sc.roffset)) / vslab.sc.bitsize
  (vslab', marks') ← overlap (vslab.sc_b.bitsize / vslab.sc.bitsize + 2) addr bid vslab marks
  overlap_all bids vslab' marks'
