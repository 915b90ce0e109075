-- ===== src/Log/Add.antt =====
-- `add_log` up to its trigger of garbage collection, as a change of the set of live items.
use mathlib.Core.Bool.{false≢true}
use nvalloc.Prelude.{
  ℕ, ◌+◌, ◌*◌, ◌%◌, ◌^◌, ◌<◌, ◌≡◌, sym, ap, ap₂, ◌∙◌, Bool, true, false, ◌&&◌, some, arith, get_or,
  if◌then◌else◌, ◌==◌, Bool-cases, inl, inr,
}
use nvalloc.Bitmap.View.{bits}
use nvalloc.Interleave.{count_to_index}
use nvalloc.Log.{
  ChunkTree, VLog, LogItem, LChunk, log_item, free_log, n_items_per_lchunk, lchunk_size, item_addr,
  append_log, retire,
}
use nvalloc.Log.Inv.{IsLog, live, item_at, HasRoom}
use nvalloc.Log.Append.{NextFree, next_slot-NextFree}
use nvalloc.Log.Retire.{Retired, retire-Retired}
use nvalloc.Log.Write.{Written, write_item-Written}

module _ (tree : ChunkTree) where
  open tree use {search}

  -- the slot that `next_slot` found is not marked
  NextFree-unmarked :
      (v : VLog tree) (c i : ℕ) (v' : VLog tree) → NextFree tree v c i v' → live tree v c i ≡ false
  NextFree-unmarked v c i v' s =
      let inside : search v'.vlchunks c ≡ true =
        ap (search v'.vlchunks) (sym s.tail) ∙ s.is.tail_in in
      let chunk = s.is.chunks c inside in
      let clear : get_or (bits (v'.volatile c).bitmap) i false ≡ false =
        ap (λ k. get_or (bits (v'.volatile c).bitmap) k false) s.index
        ∙ chunk.unused (v'.volatile c).count (omega arith) chunk.count_le in
      sym (s.same_live c i) ∙ ground arith

  -- what a call of `add_log` does: item `i` of chunk `c` is new, and `gone` are the items retired
  pub record Added (v : VLog tree) (c i : ℕ) (item : LogItem) (gone : ℕ → ℕ → Bool) (v' : VLog tree)
      : Type 0 where
    pub is : IsLog tree v'
    pub new : live tree v c i ≡ false
    pub content : item_at tree v' c i ≡ item
    pub same_live :
        (a k : ℕ)
        → live tree v' a k
          ≡ (if (c == a) && (i == k) then true else if gone a k then false else live tree v a k)
    pub same_items : (a k : ℕ) → live tree v a k ≡ true → item_at tree v' a k ≡ item_at tree v a k

  -- the log that the item is written to when nothing is freed
  abbrev one_more : VLog tree → VLog tree
  one_more v = record v { num_of_items = v.num_of_items + 1 }

  one_more-IsLog : (v : VLog tree) → IsLog tree v → IsLog tree (one_more v)
  one_more-IsLog v is = record {
    tail_in = is.tail_in;
    chunks = is.chunks;
    in_file = is.in_file;
    spare = is.spare;
    mapped = is.mapped;
    sized = is.sized;
  }

  NextFree-inside :
      (v : VLog tree) (c i : ℕ) (v' : VLog tree)
      → NextFree tree v c i v'
      → search v'.vlchunks c ≡ true
  NextFree-inside v c i v' s = ap (search v'.vlchunks) (sym s.tail) ∙ s.is.tail_in

  live_inside : (v : VLog tree) (a k : ℕ) → live tree v a k ≡ true → search v.vlchunks a ≡ true
  live_inside v a k h = ground arith

  -- the slot is none of the items that were live
  NextFree-other :
      (v : VLog tree) (c i : ℕ) (v' : VLog tree)
      → NextFree tree v c i v'
      → (a k : ℕ) → live tree v a k ≡ true
      → ((c == a) && (i == k)) ≡ false
  NextFree-other v c i v' s a k h = elim (Bool-cases ((c == a) && (i == k))) [
    | inl e ↦
        let same : c ≡ a = ground arith in
        let same' : i ≡ k = ground arith in
        absurd (false≢true (sym (NextFree-unmarked v c i v' s) ∙ ap₂ (live tree v) same same' ∙ h))
    | inr e ↦ e
  ]

  module _ (v : VLog tree) (type ptr size_version_id : ℕ) (slab : Bool)
      (other : (type % 4 == free_log) ≡ false) (c i : ℕ) (u : VLog tree) (s : NextFree tree v c i u)
      (v' : VLog tree)
      (w : Written tree
        (one_more u)
        c
        i
        (log_item type ptr (if slab then size_version_id + 1 else size_version_id))
        v') where
    added_result : append_log tree v type ptr size_version_id slab ≡ some (item_addr c i, v')
    unfolding append_log
    added_result = rw (s.result, other, w.result)

    added :
        Added v c i
          (log_item type ptr (if slab then size_version_id + 1 else size_version_id))
          (λ a k. false)
          v'
    added = record {
      is = w.is;
      new = NextFree-unmarked v c i u s;
      content = w.same_items c i ∙ ground arith;
      same_live = λ a k.
          w.same_live a k ∙ ap (λ b. if (c == a) && (i == k) then true else b) (s.same_live a k);
      same_items = λ a k h.
          w.same_items a k
          ∙ rw (NextFree-other v c i u s a k h) (s.same_items a k (live_inside v a k h));
    }

  -- In a log with the invariant that can get a chunk, recording an allocation or a file returns the
  -- address of an item that was not live, stores the item there and makes it live; every other item
  -- stays as it was, live or not, and the invariant holds.
  pub append_log-adds :
      (v : VLog tree) (type ptr size_version_id : ℕ) (slab : Bool)
      → IsLog tree v
      → HasRoom tree v
      → (type % 4 == free_log) ≡ false
      → (c i : ℕ) × (v' : VLog tree) × (append_log tree v type ptr size_version_id slab
          ≡ some (item_addr c i, v'))
        × Added v c i
            (log_item type ptr (if slab then size_version_id + 1 else size_version_id))
            (λ a k. false)
            v'
  append_log-adds v type ptr size_version_id slab is room other =
      let (c, i, u, s) = next_slot-NextFree tree v is room in
      let (v', w) =
        write_item-Written tree (one_more u) c i
          (log_item type ptr (if slab then size_version_id + 1 else size_version_id))
          (one_more-IsLog u s.is) (NextFree-inside v c i u s) s.below s.index in
      (
        c,
        i,
        v',
        added_result v type ptr size_version_id slab other c i u s v' w,
        added v type ptr size_version_id slab other c i u s v' w,
      )

  module _ (v : VLog tree) (q j size_version_id : ℕ) (slab : Bool)
      (on : live tree v (q * lchunk_size) j ≡ true) (small : item_addr (q * lchunk_size) j < 2 ^ 48)
      (c i : ℕ) (u : VLog tree) (s : NextFree tree v c i u) (u' : VLog tree)
      (r : Retired tree u (q * lchunk_size) j u') (v' : VLog tree)
      (w : Written tree u' c i
        (log_item free_log (item_addr (q * lchunk_size) j) (u.volatile (q * lchunk_size)).id)
        v') where
    cut : item_addr (q * lchunk_size) j % 2 ^ 48 ≡ item_addr (q * lchunk_size) j
    cut = omega arith

    retired_result :
        retire tree u (item_addr (q * lchunk_size) j % 2 ^ 48)
        ≡ some ((u.volatile (q * lchunk_size)).id, u')
    retired_result = ap (retire tree u) cut ∙ r.result

    freed_result :
        append_log tree v free_log (item_addr (q * lchunk_size) j) size_version_id slab
        ≡ some (item_addr c i, v')
    unfolding append_log
    freed_result = rw (s.result, retired_result, w.result)

    freed :
        Added v c i
          (log_item free_log (item_addr (q * lchunk_size) j) (u.volatile (q * lchunk_size)).id)
          (λ a k. (q * lchunk_size == a) && (j == k))
          v'
    freed = record {
      is = w.is;
      new = NextFree-unmarked v c i u s;
      content = w.same_items c i ∙ ground arith;
      same_live = λ a k.
          w.same_live a k
          ∙ ap (λ b. if (c == a) && (i == k) then true else b)
              (r.same_live a k
                ∙ ap (λ b. if (q * lchunk_size == a) && (j == k) then false else b)
                    (s.same_live a k));
      same_items = λ a k h.
          w.same_items a k
          ∙ rw (NextFree-other v c i u s a k h) (
              ap (λ f. get_or (LChunk.items (f a)) k (log_item 0 0 0)) r.same_persistent
              ∙ s.same_items a k (live_inside v a k h));
    }

  -- In a log with the invariant that can get a chunk, recording that a live item is freed clears the
  -- mark of that item alone, and makes a new record live; the invariant holds. The item is known by
  -- its address, which fits the 48 bits of the field.
  pub append_log-frees :
      (v : VLog tree) (q j : ℕ) (size_version_id : ℕ) (slab : Bool)
      → IsLog tree v
      → HasRoom tree v
      → live tree v (q * lchunk_size) j ≡ true
      → j < n_items_per_lchunk
      → item_addr (q * lchunk_size) j < 2 ^ 48
      → (c i id : ℕ) × (v' : VLog tree) × (append_log tree v free_log
            (item_addr (q * lchunk_size) j)
            size_version_id
            slab
          ≡ some (item_addr c i, v'))
        × Added v c i
            (log_item free_log (item_addr (q * lchunk_size) j) id)
            (λ a k. (q * lchunk_size == a) && (j == k))
            v'
  append_log-frees v q j size_version_id slab is room on lt small =
      let (c, i, u, s) = next_slot-NextFree tree v is room in
      let old : search u.vlchunks (q * lchunk_size) ≡ true =
        live_inside u (q * lchunk_size) j (s.same_live (q * lchunk_size) j ∙ on) in
      let (u', r) = retire-Retired tree u q j s.is old lt in
      let (v', w) =
        write_item-Written tree u' c i
          (log_item free_log (item_addr (q * lchunk_size) j) (u.volatile (q * lchunk_size)).id) r.is
          (ap (λ t. search t c) r.same_tree ∙ NextFree-inside v c i u s)
          (rw (r.same_count c) s.below) (s.index ∙ ap count_to_index (sym (r.same_count c))) in
      (
        c,
        i,
        (u.volatile (q * lchunk_size)).id,
        v',
        freed_result v q j size_version_id slab on small c i u s u' r v' w,
        freed v q j size_version_id slab on small c i u s u' r v' w,
      )
