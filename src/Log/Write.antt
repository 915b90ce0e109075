-- ===== src/Log/Write.antt =====
-- What writing an item does to the live items of a log.
use nvalloc.Prelude.{
  update, update_self, update_ap, ℕ, ◌+◌, ◌<◌, ◌≡◌, ◌≢◌, inl, inr, sym, ap, ◌∙◌, true, false, ◌&&◌,
  some, arith, length, get_or, set, get_or-set, length-set, if◌then◌else◌, ◌==◌, Bool-cases,
}
use nvalloc.Bitmap.View.{bits}
use nvalloc.Interleave.{count_to_index}
use nvalloc.Interleave.Log.{index_to_count-count_to_index, index_to_count}
use nvalloc.Log.{
  ChunkTree, VLog, VlChunk, LChunk, LogItem, log_item, n_items_per_lchunk, mark, write_item,
}
use nvalloc.Log.Layout.{Marked, set_bitmap-Marked, count_to_index-capacity}
use nvalloc.Log.Inv.{IsChunk, IsLog, live, item_at}
use nvalloc.Log.Retire.{Marked-bits}

-- Setting the mark of the next slot, when it is counted, keeps the invariant of a chunk.
IsChunk-on :
    (vl vl' : VlChunk) (i : ℕ)
    → IsChunk vl
    → vl.count < 100
    → i ≡ count_to_index vl.count
    → i < n_items_per_lchunk
    → Marked (record vl { count = vl.count + 1 }) i true vl'
    → IsChunk vl'
IsChunk-on vl vl' i is below at lt m = record {
  shape = m.shape;
  count_le = omega (arith, m.count);
  unused = λ k le small.
      let apart : i ≢ count_to_index k = λ e. omega (
        arith,
        ap index_to_count (sym at ∙ e),
        index_to_count-count_to_index vl.count,
        index_to_count-count_to_index k,
        m.count,
      ) in
      Marked-bits (record vl { count = vl.count + 1 }) vl' i (count_to_index k) true is.shape lt m
      ∙ ground (arith, is.unused k (omega (arith, m.count)) small);
}

module _ (tree : ChunkTree) where
  open tree use {search}

  -- what `write_item` does at the next slot of a chunk
  pub record Written (v : VLog tree) (c i : ℕ) (item : LogItem) (v' : VLog tree) : Type 0 where
    pub result : write_item tree v c i item ≡ some v'
    pub is : IsLog tree v'
    pub same_live :
        (a k : ℕ) → live tree v' a k ≡ (if (c == a) && (i == k) then true else live tree v a k)
    pub same_items :
        (a k : ℕ)
        → item_at tree v' a k ≡ (if (c == a) && (i == k) then item else item_at tree v a k)

  abbrev counted : VlChunk → VlChunk
  counted vl = record vl { count = vl.count + 1 }

  module _ (v : VLog tree) (c i : ℕ) (item : LogItem) (is : IsLog tree v)
      (inside : search v.vlchunks c ≡ true) (below : (v.volatile c).count < 100)
      (at : i ≡ count_to_index (v.volatile c).count) (lt : i < n_items_per_lchunk) (vl' : VlChunk)
      (m : Marked (counted (v.volatile c)) i true vl') where
    -- the log with the item stored and counted, before it is marked
    abbrev stored : VLog tree
    stored = record v {
      persistent =
          update v.persistent c
            (record (v.persistent c) { items = set (v.persistent c).items i item });
      volatile = update v.volatile c (counted (v.volatile c));
    }

    abbrev written : VLog tree
    written = record stored { volatile = update stored.volatile c vl' }

    stored_sized :
        (a : ℕ)
        → search v.vlchunks a ≡ true
        → length (stored.persistent a).items ≡ n_items_per_lchunk
    stored_sized a h =
        update_ap (λ (l : LChunk). length l.items) v.persistent c _ a
          (length-set (v.persistent c).items i item)
        ∙ is.sized a h

    written_bitmap :
        (a : ℕ) → (written.volatile a).bitmap ≡ (if c == a then vl' else v.volatile a).bitmap
    written_bitmap a = ground arith

    on_bit :
        (k : ℕ)
        → get_or (bits vl'.bitmap) k false
          ≡ (if i == k then true else get_or (bits (v.volatile c).bitmap) k false)
    on_bit k = Marked-bits (counted (v.volatile c)) vl' i k true (is.chunks c inside).shape lt m

    written-IsChunk : (a : ℕ) → search v.vlchunks a ≡ true → IsChunk (written.volatile a)
    written-IsChunk a h = elim (Bool-cases (c == a)) [
      | inl e ↦ rw e (IsChunk-on (v.volatile c) vl' i (is.chunks c inside) below at lt m)
      | inr e ↦ rw e (is.chunks a h)
    ]

    item_at-written :
        (a k : ℕ)
        → item_at tree written a k ≡ (if (c == a) && (i == k) then item else item_at tree v a k)
    item_at-written a k = elim (Bool-cases (c == a)) [
      | inl e ↦
          let same : c ≡ a = ground arith in
          rw e (
            get_or-set (v.persistent c).items i k item (log_item 0 0 0)
              (omega (arith, is.sized c inside))
            ∙ ap (λ n. if i == k then item else item_at tree v n k) same)
      | inr e ↦ rw e
    ]

    live-written :
        (a k : ℕ) → live tree written a k ≡ (if (c == a) && (i == k) then true else live tree v a k)
    live-written a k = elim (Bool-cases (c == a)) [
      | inl e ↦ let same : c ≡ a = ground arith in rw (← same) (ground (arith, on_bit k))
      | inr e ↦ rw e
    ]

    written-Written : Written v c i item written
    unfolding write_item mark
    written-Written = record {
      result = rw (update_self v.volatile c (counted (v.volatile c)), m.result);
      is = record {
        tail_in = is.tail_in;
        chunks = written-IsChunk;
        in_file = is.in_file;
        spare = is.spare;
        mapped = is.mapped;
        sized = stored_sized;
      };
      same_live = live-written;
      same_items = item_at-written;
    }

  -- The next slot of a chunk gets the item and its mark, and no other item is touched.
  pub write_item-Written :
      (v : VLog tree) (c i : ℕ) (item : LogItem)
      → IsLog tree v
      → search v.vlchunks c ≡ true
      → (v.volatile c).count < 100
      → i ≡ count_to_index (v.volatile c).count
      → (v' : VLog tree) × Written v c i item v'
  write_item-Written v c i item is inside below at =
      let lt : i < n_items_per_lchunk =
        ground
          (arith, count_to_index-capacity (v.volatile c).count (is.chunks c inside).count_le) in
      let (vl', m) =
        set_bitmap-Marked (counted (v.volatile c)) i true (is.chunks c inside).shape lt in
      (_, written-Written v c i item is inside below at lt vl' m)
