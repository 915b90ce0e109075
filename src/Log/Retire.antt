-- ===== src/Log/Retire.antt =====
-- What marking and retiring an item do to the live items of a log.
use nvalloc.Prelude.{
  update, update_self, update_ap, ℕ, ◌*◌, ◌<◌, ◌≡◌, inl, inr, refl, ap, ◌∙◌, Bool, true, false,
  ◌&&◌, some, arith, get_or, get_or-set, if◌then◌else◌, ◌==◌, Bool-cases,
}
use nvalloc.Bitmap.View.{bits, length-bits}
use nvalloc.Interleave.{count_to_index}
use nvalloc.Log.{ChunkTree, VLog, VlChunk, n_items_per_lchunk, lchunk_size, mark, retire, item_addr}
use nvalloc.Log.Layout.{IsBitmap, Marked, set_bitmap-Marked, ptr2lchunk-item_addr}
use nvalloc.Log.Inv.{IsChunk, IsLog, live}

-- the mark at each index of a chunk whose mark at `index` has been set to `on`
pub Marked-bits :
    (vl vl' : VlChunk) (index k : ℕ) (on : Bool)
    → IsBitmap vl.bitmap
    → index < n_items_per_lchunk
    → Marked vl index on vl'
    → get_or (bits vl'.bitmap) k false
      ≡ (if index == k then on else get_or (bits vl.bitmap) k false)
Marked-bits vl vl' index k on is lt m =
    ap (λ l. get_or l k false) m.bit
    ∙ get_or-set (bits vl.bitmap) index k on false
        (omega (arith, length-bits vl.bitmap is.words, is.two))

-- Clearing a mark keeps the invariant of a chunk.
IsChunk-off :
    (vl vl' : VlChunk) (index : ℕ)
    → index < n_items_per_lchunk
    → IsChunk vl
    → Marked vl index false vl'
    → IsChunk vl'
IsChunk-off vl vl' index lt is m = record {
  shape = m.shape;
  count_le = omega (arith, m.count, is.count_le);
  unused = λ k le small.
      Marked-bits vl vl' index (count_to_index k) false is.shape lt m
      ∙ ground (arith, is.unused k (omega (arith, m.count)) small);
}

module _ (tree : ChunkTree) where
  open tree use {search}

  -- The chunk at one address is replaced by one with the same mark everywhere but at an index.
  module _ (v : VLog tree) (c index : ℕ) (on : Bool) (vl' : VlChunk) (is : IsLog tree v)
      (inside : search v.vlchunks c ≡ true) (chunk : IsChunk vl')
      (bit : (k : ℕ)
        → get_or (bits vl'.bitmap) k false
          ≡ (if index == k then on else get_or (bits (v.volatile c).bitmap) k false)) where
    live-replaced :
        (a k : ℕ)
        → live tree (record v { volatile = update v.volatile c vl' }) a k
          ≡ (if (c == a) && (index == k) then on else live tree v a k)
    live-replaced a k = elim (Bool-cases (c == a)) [
      | inl e ↦ let same : c ≡ a = ground arith in rw (← same) (ground (arith, bit k))
      | inr e ↦ rw e
    ]

    replaced-IsLog : IsLog tree (record v { volatile = update v.volatile c vl' })
    replaced-IsLog = record {
      tail_in = is.tail_in;
      chunks =
          λ a h. elim (Bool-cases (c == a)) [ inl e ↦ rw e chunk | inr e ↦ rw e (is.chunks a h) ];
      in_file = is.in_file;
      spare = is.spare;
      mapped = is.mapped;
      sized = is.sized;
    }

  -- what `retire` does to the log
  pub record Retired (v : VLog tree) (c j : ℕ) (v' : VLog tree) : Type 0 where
    pub result : retire tree v (item_addr c j) ≡ some ((v.volatile c).id, v')
    pub is : IsLog tree v'
    pub same_live :
        (a k : ℕ) → live tree v' a k ≡ (if (c == a) && (j == k) then false else live tree v a k)
    pub same_tree : v'.vlchunks ≡ v.vlchunks
    pub same_persistent : v'.persistent ≡ v.persistent
    pub same_count : (a : ℕ) → (v'.volatile a).count ≡ (v.volatile a).count
    pub same_tail : v'.tail ≡ v.tail

  module _ (v : VLog tree) (q j : ℕ) (is : IsLog tree v)
      (inside : search v.vlchunks (q * lchunk_size) ≡ true) (lt : j < n_items_per_lchunk)
      (vl' : VlChunk) (m : Marked (v.volatile (q * lchunk_size)) j false vl') where
    off_bit :
        (k : ℕ)
        → get_or (bits vl'.bitmap) k false
          ≡ (if j == k then false else get_or (bits (v.volatile (q * lchunk_size)).bitmap) k false)
    off_bit k =
        Marked-bits (v.volatile (q * lchunk_size)) vl' j k false (is.chunks _ inside).shape lt m

    off-IsChunk : IsChunk vl'
    off-IsChunk = IsChunk-off (v.volatile (q * lchunk_size)) vl' j lt (is.chunks _ inside) m

    retired :
        Retired v
          (q * lchunk_size)
          j
          (record v { volatile = update v.volatile (q * lchunk_size) vl' })
    unfolding retire mark
    retired = record {
      result =
          rw ((ptr2lchunk-item_addr q j lt).0, (ptr2lchunk-item_addr q j lt).1, inside, m.result)
            (ap (λ n. some (n, record v { volatile = update v.volatile (q * lchunk_size) vl' }))
              (ap VlChunk.id (update_self v.volatile (q * lchunk_size) vl') ∙ m.id));
      is = replaced-IsLog v (q * lchunk_size) j false vl' is inside off-IsChunk off_bit;
      same_live = live-replaced v (q * lchunk_size) j false vl' is inside off-IsChunk off_bit;
      same_tree = refl;
      same_persistent = refl;
      same_count = λ a. update_ap VlChunk.count v.volatile (q * lchunk_size) vl' a m.count;
      same_tail = refl;
    }

  -- A free record's item is found by its address, and its mark is cleared.
  pub retire-Retired :
      (v : VLog tree) (q j : ℕ)
      → IsLog tree v
      → search v.vlchunks (q * lchunk_size) ≡ true
      → j < n_items_per_lchunk
      → (v' : VLog tree) × Retired v (q * lchunk_size) j v'
  retire-Retired v q j is inside lt =
      let (vl', m) =
        set_bitmap-Marked (v.volatile (q * lchunk_size)) j false (is.chunks _ inside).shape lt in
      (_, retired v q j is inside lt vl' m)
