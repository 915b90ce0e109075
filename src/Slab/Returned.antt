-- ===== src/Slab/Returned.antt =====
-- `slab_unset_bm_tcache`: the free blocks of a slab that lie in a bank of a cache are given back to it.
use nvalloc.Prelude.{
  ℕ, zero, suc, ◌+◌, ◌-◌, ◌*◌, ◌%◌, ◌^◌, ◌<◌, ◌≡◌, refl, sym, ap, ◌∙◌, Bool, true, false, not, ◌&&◌,
  inl, inr, List, ◌∷◌, arith, ltb, leb, ◌==◌, if◌then◌else◌, length, length-set, get_or, get_or-set,
  set, Bool-cases,
}
use nvalloc.Machine.{nbanks, slab_size}
use nvalloc.Bitmap.{bitmap_unset_bits}
use nvalloc.Bitmap.View.{
  bits, length-bits, bits-bitmap_unset_bits, bitmap_unset_bits-AreWords, length-bitmap_unset_bits,
}
use nvalloc.Cache.{Cache, CacheEntry, Marks, row, meta_free}
use nvalloc.Slab.{VSlab, block_entry}
use nvalloc.Slab.Morph.{no_entry, give_back, slab_unset_bm_tcache}
use nvalloc.Slab.Flagged.{
  lies, block_of, entry_at, returned, among, flagged, GivenBack, CanReturn, returned-set,
  returned-same, flagged-step, flagged-here, flagged-before, already, or_swap,
}

-- one entry, at `row cid i`
module _ (left i cid : ℕ) (cache : Cache) (v : VSlab) where
  abbrev n : ℕ
  n = row cid i

  abbrev e : CacheEntry
  e = entry_at cache n

  abbrev after : Cache
  after = record cache { avail = set cache.avail n (record e { is_sb = true }) }

  abbrev freed : VSlab
  freed = record v {
    bitmap = bitmap_unset_bits v.bitmap (block_of v e);
    bitmap_header = record {
      cur = v.bitmap_header.cur;
      nbits = (v.bitmap_header.nbits + 2 ^ 16 - 1) % 2 ^ 16;
    };
  }

  module _ (can : CanReturn (suc left) n cache v) where
    entry_after :
        (k : ℕ)
        → entry_at after k ≡ (if n == k then record e { is_sb = true } else entry_at cache k)
    entry_after k = get_or-set cache.avail n k _ no_entry (omega (arith, can.row))

    returned-after : returned left (n + 1) after freed ≡ returned left (n + 1) cache v
    returned-after =
        returned-same left (n + 1) after v _ _
        ∙ returned-set left (n + 1) n cache v (record e { is_sb = true }) (omega arith)
            (omega (arith, can.row))

    module _ (here : (lies v e && not e.is_sb) ≡ true) where
      lies_here : lies v e ≡ true
      lies_here = ground (arith, here)

      block_inside : block_of v e < 64 * length v.bitmap
      block_inside = can.inside n (omega arith) (omega arith) lies_here

      ids : returned (suc left) n cache v ≡ block_of v e ∷ returned left (n + 1) cache v
      ids = rw here refl

      one_less : freed.bitmap_header.nbits + 1 ≡ v.bitmap_header.nbits
      one_less = omega (arith, can.bounded, can.enough, ap length ids)

      can_after : CanReturn left (n + 1) after freed
      can_after = record {
        words = bitmap_unset_bits-AreWords v.bitmap (block_of v e) can.words block_inside;
        row = omega (arith, can.row, length-set cache.avail n (record e { is_sb = true }));
        inside = λ k ge lt lie.
            let other : (n == k) ≡ false = ground (arith, ge) in
            let same : entry_at after k ≡ entry_at cache k = entry_after k ∙ rw other refl in
            omega (
              arith,
              can.inside k (omega (arith, ge)) (omega (arith, lt)) (ap (lies v) (sym same) ∙ lie),
              length-bitmap_unset_bits v.bitmap (block_of v e) can.words block_inside,
              ap (block_of v) same,
            );
        enough = omega (arith, can.enough, ap length ids, ap length returned-after, one_less);
        bounded = omega (arith, can.bounded, one_less);
      }

      GivenBack-more :
          (cache' : Cache) (v' : VSlab)
          → GivenBack left (n + 1) after freed cache' v'
          → GivenBack (suc left) n cache v cache' v'
      GivenBack-more cache' v' g = record {
        entries = λ k. g.entries k ∙ elim (Bool-cases (n == k)) [
          | inl q ↦
              let same : n ≡ k = ground arith in
              let there : entry_at after n ≡ record e { is_sb = true } =
                entry_after n ∙ ground arith in
              ap (λ j. flagged left (n + 1) v j (entry_at after j)) (sym same)
              ∙ flagged-before left n v (entry_at after n)
              ∙ there
              ∙ sym (flagged-here left n v e ∙ rw lies_here refl)
              ∙ ap (λ j. flagged (suc left) n v j (entry_at cache j)) same
          | inr q ↦
              ap (flagged left (n + 1) v k) (entry_after k ∙ rw q refl)
              ∙ flagged-step left n k v (entry_at cache k) q
        ];
        counts = g.counts;
        same_bm = g.same_bm;
        same_now = g.same_now;
        blocks = λ b.
            let old =
              ap (λ l. get_or l b false)
                (bits-bitmap_unset_bits v.bitmap (block_of v e) can.words block_inside)
              ∙ get_or-set (bits v.bitmap) (block_of v e) b true false
                  (omega (arith, block_inside, length-bits v.bitmap can.words)) in
            g.blocks b
            ∙ rw (old, returned-after, ids)
                (or_swap (block_of v e == b) (among b (returned left (n + 1) cache v))
                  (get_or (bits v.bitmap) b false));
        words = g.words;
        in_use = omega (arith, g.in_use, one_less, ap length ids, ap length returned-after);
        same_slab = g.same_slab;
        same_class = g.same_class;
      }

    module _ (none : (lies v e && not e.is_sb) ≡ false) where
      ids_kept : returned (suc left) n cache v ≡ returned left (n + 1) cache v
      ids_kept = rw none refl

      can_next : CanReturn left (n + 1) cache v
      can_next = record {
        words = can.words;
        row = omega (arith, can.row);
        inside = λ k ge lt lie. can.inside k (omega (arith, ge)) (omega (arith, lt)) lie;
        enough = omega (arith, can.enough, ap length ids_kept);
        bounded = can.bounded;
      }

      kept_here : (if lies v e then record e { is_sb = true } else e) ≡ e
      kept_here = elim (Bool-cases (lies v e)) [
        | inl l ↦ rw l (already e (ground (arith, none, l)))
        | inr l ↦ rw l refl
      ]

      GivenBack-same :
          (cache' : Cache) (v' : VSlab)
          → GivenBack left (n + 1) cache v cache' v'
          → GivenBack (suc left) n cache v cache' v'
      GivenBack-same cache' v' g = record {
        entries = λ k. g.entries k ∙ elim (Bool-cases (n == k)) [
          | inl q ↦
              let same : n ≡ k = ground arith in
              ap (λ j. flagged left (n + 1) v j (entry_at cache j)) (sym same)
              ∙ flagged-before left n v e
              ∙ sym (flagged-here left n v e ∙ kept_here)
              ∙ ap (λ j. flagged (suc left) n v j (entry_at cache j)) same
          | inr q ↦ flagged-step left n k v (entry_at cache k) q
        ];
        counts = g.counts;
        same_bm = g.same_bm;
        same_now = g.same_now;
        blocks = λ b. g.blocks b ∙ rw ids_kept refl;
        words = g.words;
        in_use = omega (arith, g.in_use, ap length ids_kept);
        same_slab = g.same_slab;
        same_class = g.same_class;
      }

flagged-none : (n k : ℕ) (v : VSlab) (e : CacheEntry) → flagged zero n v k e ≡ e
flagged-none n k v e = let out : (leb n k && ltb k (n + zero)) ≡ false = ground arith in rw out refl

give_back-GivenBack :
    (left i cid : ℕ) (cache : Cache) (v : VSlab)
    → CanReturn left (row cid i) cache v
    → let out = give_back left i cid cache v in GivenBack left (row cid i) cache v out.0 out.1
unfolding give_back
give_back-GivenBack zero i cid cache v can = record {
  entries = λ k. sym (flagged-none (row cid i) k v (entry_at cache k));
  counts = refl;
  same_bm = refl;
  same_now = refl;
  blocks = λ b. refl;
  words = can.words;
  in_use = omega arith;
  same_slab = refl;
  same_class = refl;
}
give_back-GivenBack (suc left) i cid cache v can =
    let e : CacheEntry = entry_at cache (row cid i) in
    elim (Bool-cases (leb v.slab e.ret && ltb e.ret (v.slab + slab_size) && not e.is_sb)) [
      | inl here ↦
          let of_slab : (lies v e && not e.is_sb) ≡ true = ground (arith, here) in
          let next : row cid (i + 1) ≡ row cid i + 1 = omega arith in
          let g =
            give_back-GivenBack left (i + 1) cid (after left i cid cache v)
              (freed left i cid cache v) (rw next (can_after left i cid cache v can of_slab)) in
          rw (give_back, here) (GivenBack-more left i cid cache v can of_slab _ _ (rw (sym next) g))
      | inr none ↦
          let of_other : (lies v e && not e.is_sb) ≡ false = ground (arith, none) in
          let next : row cid (i + 1) ≡ row cid i + 1 = omega arith in
          let g =
            give_back-GivenBack left (i + 1) cid cache v
              (rw next (can_next left i cid cache v can of_other)) in
          rw (give_back, none)
            (GivenBack-same left i cid cache v can of_other _ _ (rw (sym next) g))
    ]

-- what `slab_unset_bm_tcache` does for a block of bank `cid`, of which `count` entries are in use
pub record IsReturned (count cid : ℕ) (checked : List Bool) (cache : Cache) (v : VSlab)
    (out : Bool × List Bool × Cache × VSlab) : Type 0 where
  pub changed : out.0 ≡ true
  pub checks : out.1 ≡ set checked cid true
  pub given : GivenBack count (row cid 0) cache v out.2 out.3

-- A block whose entry in the cache is free, in a bank that was not checked before: the result is true, the
-- bank is marked as checked, and of the entries of the bank exactly those in the slab are flagged as given
-- back, the other fields of every entry and all other entries of the cache being kept. In the bitmap of the
-- slab exactly the blocks of those of them that were not flagged before get free, all others stay, and the
-- count of the blocks in use goes down by the number of these entries. This needs that the entries of the
-- bank stand in the array, that those in the slab have a bit in its bitmap, and that the slab counts at
-- least as many blocks in use.
pub slab_unset_bm_tcache-IsReturned :
    (marks : Marks) (bid : ℕ) (checked : List Bool) (cache : Cache) (v : VSlab)
    → get_or checked (bid % nbanks) false ≡ false
    → (marks.dmeta (block_entry v bid).dmeta).state ≡ meta_free
    → CanReturn (get_or cache.ncached (bid % nbanks) 0) (row (bid % nbanks) 0) cache v
    → IsReturned
        (get_or cache.ncached (bid % nbanks) 0)
        (bid % nbanks)
        checked
        cache
        v
        (slab_unset_bm_tcache marks bid checked cache v)
unfolding slab_unset_bm_tcache
slab_unset_bm_tcache-IsReturned marks bid checked cache v unchecked is_free can =
    rw (slab_unset_bm_tcache, unchecked, is_free)
      (record {
        changed = refl;
        checks = refl;
        given =
            give_back-GivenBack (get_or cache.ncached (bid % nbanks) 0) 0 (bid % nbanks) cache v
              can;
      })
