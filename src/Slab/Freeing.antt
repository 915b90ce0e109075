-- ===== src/Slab/Freeing.antt =====
-- `slab_free_small` for a block of the slab's own class.
use mathlib.Core.Path.{subst}
use nvalloc.Prelude.{
  ℕ, zero, suc, ◌+◌, ◌-◌, ◌*◌, ◌%◌, ◌^◌, ◌≤◌, ◌<◌, ◌≡◌, inl, inr, refl, sym, ap, ◌∙◌, Bool, true,
  false, not, ◌&&◌, some, List, [], ◌∷◌, arith, length, get_or, set, if◌then◌else◌, ltb, ◌==◌,
  lt→ltb, le→leb, Bool-cases, bit_count, zeros-set-true,
}
use nvalloc.Bitmap.{bitmap_unset_bits}
use nvalloc.Bitmap.View.{
  bits, length-bits, bits-bitmap_unset_bits, bitmap_unset_bits-AreWords, length-bitmap_unset_bits,
}
use nvalloc.Machine.{nbanks, u64_mod}
use nvalloc.Cache.{Cache, Marks, CacheEntry, num_max_cache, meta_unset, dmeta_set_state, meta_free}
use nvalloc.Cache.Inv.{IsCache}
use nvalloc.Cache.Take.{Pushed, cache_push-Pushed}
use nvalloc.Slab.{dl_delete, dl_delete_vslab, VSlab, LruSlabs, Bin, block_entry}
use nvalloc.Slab.Place.{block_entry-ret}
use nvalloc.Slab.Inv.{IsVSlab, freed-IsVSlab}
use nvalloc.Slab.Lru.{Updated, update_arena_lru_morphing_slab-Updated}
use nvalloc.Slab.Touch.{IsLru, counted_low}
use nvalloc.Slab.Free.{Freed, SbTable, free_to_slab, slab_free_small}

used_inside : (bs : List Bool) (k : ℕ) → get_or bs k true ≡ false → k < length bs
used_inside [] k h = ground arith
used_inside (b ∷ bs) zero h = omega arith
used_inside (b ∷ bs) (suc k) h = omega (arith, used_inside bs k h)

-- the marks after a block has been given back
abbrev pub unmarked : Marks → CacheEntry → Marks
unmarked marks entry =
    dmeta_set_state (meta_unset marks entry.metas entry.index) entry.dmeta meta_free

-- a block that is of the slab's own class
abbrev pub is_old : VSlab → Marks → ℕ → Bool
is_old v marks k = not (v.num_b == 0) && not ((marks.dmeta (block_entry v k).dmeta).num_b == 0)

module _ (lru : LruSlabs) (bin : Bin) (cache : Cache) (v : VSlab) (marks : Marks)
    (table : List SbTable) (k : ℕ) (is : IsVSlab v) (in_class : k ≤ v.sc.nbits)
    (own : is_old v marks k ≡ false) where
  -- what a call does that puts the block into the cache
  pub record ToCache (r : Freed) : Type 0 where
    pub result : slab_free_small lru bin cache v marks table (block_entry v k).ret false ≡ some r
    pub pushed : Pushed cache (k % nbanks) (block_entry v k) r.cache
    pub same_slab : r.vslab ≡ v
    pub same_lru : r.lru ≡ lru
    pub unmarks : r.marks ≡ unmarked marks (block_entry v k)
    pub kept : r.released ≡ false

  -- A block freed by a thread of the slab's own arena, while its bank in the thread's cache has room,
  -- goes on the stack of that bank with the entry that it had when it was taken from the slab; its
  -- mark is cleared, and the slab still counts it as used.
  pub slab_free_small-ToCache :
      IsCache cache → get_or cache.ncached (k % nbanks) 0 < num_max_cache → (r : Freed) × ToCache r
  unfolding slab_free_small
  slab_free_small-ToCache cached_is room =
      let (cache', p) =
        cache_push-Pushed cache (k % nbanks) (block_entry v k) cached_is (omega arith) room in
      (
        record {
          lru = lru;
          bin = bin;
          cache = cache';
          vslab = v;
          marks = unmarked marks (block_entry v k);
          table = table;
          released = false;
        },
        record {
          result =
              rw
                (
                  block_entry-ret v k is.size,
                  le→leb k v.sc.nbits in_class,
                  own,
                  lt→ltb _ num_max_cache room,
                  p.result,
                )
                refl;
          pushed = p;
          same_slab = refl;
          same_lru = refl;
          unmarks = refl;
          kept = refl;
        },
      )

  -- what a call does that gives the block back to its slab
  pub record ToSlab (cross : Bool) (r : Freed) : Type 0 where
    pub result : slab_free_small lru bin cache v marks table (block_entry v k).ret cross ≡ some r
    pub keeps : IsVSlab r.vslab
    pub free : bits r.vslab.bitmap ≡ set (bits v.bitmap) k true
    pub count : r.vslab.bitmap_header.nbits + 1 ≡ v.bitmap_header.nbits
    pub same_cache : r.cache ≡ cache
    pub unmarks : r.marks ≡ unmarked marks (block_entry v k)
    pub released : r.released ≡ (v.bitmap_header.nbits == 1)
    pub low :
        r.lru.morphing_len + counted_low v + bit_count r.released
        ≡ lru.morphing_len + counted_low r.vslab

  module _ (cross : Bool) (unmixed : (v.num_b == 0) ≡ true) (lru_is : IsLru lru v)
      (used : get_or (bits v.bitmap) k true ≡ false)
      (to_slab : (not cross && ltb (get_or cache.ncached (k % nbanks) 0) num_max_cache)
        ≡ false) where
    inside : k < 64 * length v.bitmap
    inside = omega (arith, used_inside (bits v.bitmap) k used, length-bits v.bitmap is.words)

    -- the slab with the block freed
    abbrev freed : VSlab
    freed = record v {
      bitmap = bitmap_unset_bits v.bitmap k;
      bitmap_header = record { cur = v.bitmap_header.cur; nbits = v.bitmap_header.nbits - 1 };
    }

    freed_is : IsVSlab freed
    freed_is =
        freed-IsVSlab v k (bitmap_unset_bits v.bitmap k) is used
          (bitmap_unset_bits-AreWords v.bitmap k is.words inside)
          (length-bitmap_unset_bits v.bitmap k is.words inside)
          (bits-bitmap_unset_bits v.bitmap k is.words inside)

    some_used : v.bitmap_header.nbits ≡ v.bitmap_header.nbits - 1 + 1
    some_used = omega (arith, is.count, zeros-set-true (bits v.bitmap) k used)

    one_less : (v.bitmap_header.nbits + 2 ^ 16 - 1) % 2 ^ 16 ≡ v.bitmap_header.nbits - 1
    one_less = omega (arith, some_used, is.header)

    updated :
        (lru' : LruSlabs) × Updated lru
          (v.bitmap_header.nbits - 1 + 1)
          (v.bitmap_header.nbits - 1)
          v.sc.nbits
          lru'
    updated =
        update_arena_lru_morphing_slab-Updated lru (v.bitmap_header.nbits - 1 + 1)
          (v.bitmap_header.nbits - 1) v.sc.nbits lru_is.fits (ground (arith, some_used, lru_is.low))
          (ground (arith, some_used, lru_is.low, lru_is.others unmixed))

    -- the slab is released with its last block
    abbrev outcome : LruSlabs → Freed
    outcome lru' =
        if v.bitmap_header.nbits - 1 == 0
        then record {
          lru = record lru' {
            lru_len = (lru'.lru_len + u64_mod - 1) % u64_mod;
            morphing_len = (lru'.morphing_len + u64_mod - 1) % u64_mod;
            lru_vslabs = dl_delete lru'.lru_vslabs v.self;
          };
          bin = dl_delete_vslab bin v.self;
          cache = cache;
          vslab = freed;
          marks = unmarked marks (block_entry v k);
          table = table;
          released = true;
        }
        else record {
          lru = lru';
          bin = bin;
          cache = cache;
          vslab = freed;
          marks = unmarked marks (block_entry v k);
          table = table;
          released = false;
        }

    runs :
        (lru' : LruSlabs)
        → Updated lru (v.bitmap_header.nbits - 1 + 1) (v.bitmap_header.nbits - 1) v.sc.nbits lru'
        → slab_free_small lru bin cache v marks table (block_entry v k).ret cross
          ≡ some (outcome lru')
    unfolding slab_free_small free_to_slab
    runs lru' u =
        rw
          (
            block_entry-ret v k is.size,
            le→leb k v.sc.nbits in_class,
            own,
            to_slab,
            one_less,
            unmixed,
            u.result,
          )
          refl

    outcome_vslab : (lru' : LruSlabs) → (outcome lru').vslab ≡ freed
    outcome_vslab lru' = elim (Bool-cases (v.bitmap_header.nbits - 1 == 0)) [
      | inl e ↦ rw e refl
      | inr e ↦ rw e refl
    ]

    outcome_low :
        (lru' : LruSlabs)
        → Updated lru (v.bitmap_header.nbits - 1 + 1) (v.bitmap_header.nbits - 1) v.sc.nbits lru'
        → (outcome lru').lru.morphing_len + counted_low v + bit_count (outcome lru').released
          ≡ lru.morphing_len + counted_low freed
    outcome_low lru' u = elim (Bool-cases (v.bitmap_header.nbits - 1 == 0)) [
      | inl e ↦
          rw (e, unmixed)
            (ground (arith, u.count, u.bounded, u.same_len, lru_is.fits, lru_is.low, some_used))
      | inr e ↦ rw (e, unmixed) (ground (arith, u.count, some_used))
    ]

    outcome_rest :
        (lru' : LruSlabs)
        → ((outcome lru').cache ≡ cache)
          × ((outcome lru').marks ≡ unmarked marks (block_entry v k))
          × ((outcome lru').released ≡ (v.bitmap_header.nbits == 1))
    outcome_rest lru' = elim (Bool-cases (v.bitmap_header.nbits - 1 == 0)) [
      | inl e ↦ rw e (refl, refl, ground (arith, some_used))
      | inr e ↦ rw e (refl, refl, ground (arith, some_used))
    ]

    -- Where the invariants of the slab and the counts hold, a block in use of a slab that is not mixed,
    -- freed by a thread of another arena or with a full bank, is free in the slab's bitmap again, and is
    -- no longer counted. The slab is released with its last
    -- block; the number of slabs in low use stays right.
    pub slab_free_small-ToSlab : (r : Freed) × ToSlab cross r
    slab_free_small-ToSlab =
        let (lru', u) = updated in
        let (same_cache, unmarks, released) = outcome_rest lru' in
        (
          outcome lru',
          record {
            result = runs lru' u;
            keeps = subst IsVSlab (sym (outcome_vslab lru')) freed_is;
            free =
                ap (λ (w : VSlab). bits w.bitmap) (outcome_vslab lru')
                ∙ bits-bitmap_unset_bits v.bitmap k is.words inside;
            count =
                ap (λ (w : VSlab). w.bitmap_header.nbits + 1) (outcome_vslab lru') ∙ sym some_used;
            same_cache = same_cache;
            unmarks = unmarks;
            released = released;
            low =
                outcome_low lru' u
                ∙ ap (λ w. lru.morphing_len + counted_low w) (sym (outcome_vslab lru'));
          },
        )
