-- ===== src/Log/Append.antt =====
-- The slot that the next item of a log gets.
use mathlib.Core.Bool.{false≢true}
use nvalloc.Prelude.{
  update, ℕ, ◌<◌, ◌≡◌, ◌⊎◌, inl, inr, refl, sym, ap, ◌∙◌, Bool, true, false, ◌&&◌, some, arith,
  length, get_or, if◌then◌else◌, ◌==◌, leb, Bool-cases,
}
use nvalloc.Bitmap.Search.{get_or-zeros}
use nvalloc.Bitmap.View.{bits}
use nvalloc.Interleave.{count_to_index}
use nvalloc.Log.{
  ChunkTree, VLog, log_item, n_items_per_lchunk, fresh_vlchunk, fresh_lchunk, next_slot,
}
use nvalloc.Log.Layout.{count_to_index-capacity}
use nvalloc.Log.Inv.{
  IsChunk-same, fresh_vlchunk-IsChunk, IsLog, live, item_at, Allocated, HasRoom,
  vlchunk_alloc-Allocated,
}

and_false : (b : Bool) → (b && false) ≡ false
and_false true = refl
and_false false = refl

module _ (tree : ChunkTree) where
  open tree use {Tree, insert, search, search-insert}

  -- What `next_slot` returns: an index of the tail chunk whose mark is clear, in a log with the same
  -- live items.
  pub record NextFree (v : VLog tree) (c i : ℕ) (v' : VLog tree) : Type 0 where
    pub result : next_slot tree v ≡ some (c, i, v')
    pub is : IsLog tree v'
    pub tail : v'.tail ≡ c
    pub index : i ≡ count_to_index (v'.volatile c).count
    pub below : (v'.volatile c).count < 100
    pub same_live : (a k : ℕ) → live tree v' a k ≡ live tree v a k
    pub same_items :
        (a k : ℕ) → search v.vlchunks a ≡ true → item_at tree v' a k ≡ item_at tree v a k

  in_tail :
      (v : VLog tree)
      → IsLog tree v
      → leb n_items_per_lchunk (count_to_index (v.volatile v.tail).count) ≡ false
      → NextFree v v.tail (count_to_index (v.volatile v.tail).count) v
  unfolding next_slot
  in_tail v is fits = record {
    result = rw fits;
    is = is;
    tail = refl;
    index = refl;
    below = ground (
      arith,
      count_to_index-capacity (v.volatile v.tail).count (is.chunks v.tail is.tail_in).count_le,
    );
    same_live = λ a k. refl;
    same_items = λ a k h. refl;
  }

  -- the log after a new chunk has been put behind the tail
  abbrev extended : VLog tree → ℕ → VLog tree
  extended v c = record v {
    volatile = update v.volatile c (record (v.volatile c) { pre_lchunk = v.tail });
    persistent = update v.persistent v.tail (record (v.persistent v.tail) { next = c });
    vlchunks = insert c v.vlchunks;
    tail = c;
  }

  module _ (v : VLog tree) (c : ℕ) (v' : VLog tree) (is : IsLog tree v)
      (al : Allocated tree v c v') where
    vol :
        (a : ℕ)
        → v'.volatile a ≡ (if c == a then fresh_vlchunk v.global_lchunk_id else v.volatile a)
    vol a = ap (λ f. f a) al.volatile

    per :
        (a : ℕ)
        → v'.persistent a ≡ (if c == a then fresh_lchunk v.global_lchunk_id else v.persistent a)
    per a = ap (λ f. f a) al.persistent

    found :
        (a : ℕ) → search (insert c v'.vlchunks) a ≡ (if c == a then true else search v.vlchunks a)
    found a = rw al.same_tree (search-insert v.vlchunks c a)

    ext_volatile :
        (a : ℕ)
        → (((extended v' c).volatile a).count ≡ (if c == a then 0 else (v.volatile a).count))
          × (((extended v' c).volatile a).bitmap
              ≡ (if c == a then (fresh_vlchunk 0).bitmap else (v.volatile a).bitmap))
    ext_volatile a = (ground (arith, vol a, vol c), ground (arith, vol a, vol c))

    ext_items :
        (a : ℕ)
        → ((extended v' c).persistent a).items
          ≡ (if c == a then (fresh_lchunk 0).items else (v.persistent a).items)
    ext_items a = ground (arith, per a)

    -- a chunk of the extended log is the new one or an old one
    new_or_old :
        (a : ℕ)
        → search (insert c v'.vlchunks) a ≡ true
        → ((c == a) ≡ true) ⊎ (((c == a) ≡ false) × (search v.vlchunks a ≡ true))
    new_or_old a h = elim (Bool-cases (c == a)) [
      | inl e ↦ inl e
      | inr e ↦ inr (e, ground (arith, found a))
    ]

    old_ne_new : (a : ℕ) → search v.vlchunks a ≡ true → (c == a) ≡ false
    old_ne_new a h = elim (Bool-cases (c == a)) [
      | inl e ↦
          let same : c ≡ a = ground arith in
          absurd (false≢true (sym al.outside ∙ ap (search v.vlchunks) same ∙ h))
      | inr e ↦ e
    ]

    extended-IsLog : IsLog tree (extended v' c)
    extended-IsLog = record {
      tail_in = ground (arith, found c);
      chunks = λ a h. elim (new_or_old a h) [
        | inl e ↦
            IsChunk-same (fresh_vlchunk 0) _ ((ext_volatile a).0 ∙ rw e) ((ext_volatile a).1 ∙ rw e)
              (fresh_vlchunk-IsChunk 0)
        | inr (e, old) ↦
            IsChunk-same (v.volatile a) _ ((ext_volatile a).0 ∙ rw e) ((ext_volatile a).1 ∙ rw e)
              (is.chunks a old)
      ];
      in_file = λ a h. elim (new_or_old a h) [
        | inl e ↦ ground (arith, al.in_file)
        | inr (e, old) ↦ omega (arith, is.in_file a old, al.same_file, al.grows)
      ];
      spare = rw al.same_tree al.spare;
      mapped = rw al.same_file is.mapped;
      sized = λ a h. elim (new_or_old a h) [
        | inl e ↦
            let same : ((extended v' c).persistent a).items ≡ (fresh_lchunk 0).items =
              ext_items a ∙ rw e in
            ap length same
        | inr (e, old) ↦
            let same : ((extended v' c).persistent a).items ≡ (v.persistent a).items =
              ext_items a ∙ rw e in
            ap length same ∙ is.sized a old
      ];
    }

    live-extended : (a k : ℕ) → live tree (extended v' c) a k ≡ live tree v a k
    live-extended a k = elim (Bool-cases (c == a)) [
      | inl e ↦
          let same : c ≡ a = ground arith in
          let out : search v.vlchunks a ≡ false = ap (search v.vlchunks) (sym same) ∙ al.outside in
          let same_bits : ((extended v' c).volatile a).bitmap ≡ (fresh_vlchunk 0).bitmap =
            (ext_volatile a).1 ∙ rw e in
          ap (λ b. search (insert c v'.vlchunks) a && b)
            (ap (λ b. get_or (bits b) k false) same_bits ∙ get_or-zeros 128 k)
          ∙ and_false (search (insert c v'.vlchunks) a)
          ∙ rw out
      | inr e ↦
          let same : ((extended v' c).volatile a).bitmap ≡ (v.volatile a).bitmap =
            (ext_volatile a).1 ∙ rw e in
          ap (λ b. search (insert c v'.vlchunks) a && get_or (bits b) k false) same
          ∙ rw (found a, e)
    ]

    item_at-extended :
        (a k : ℕ)
        → search v.vlchunks a ≡ true
        → item_at tree (extended v' c) a k ≡ item_at tree v a k
    item_at-extended a k h =
        ap (λ l. get_or l k (log_item 0 0 0)) (ext_items a ∙ rw (old_ne_new a h))

    behind_tail :
        leb n_items_per_lchunk (count_to_index (v.volatile v.tail).count) ≡ true
        → NextFree v c (count_to_index ((extended v' c).volatile c).count) (extended v' c)
    unfolding next_slot
    behind_tail full = record {
      result = rw (full, al.result);
      is = extended-IsLog;
      tail = refl;
      index = refl;
      below = ground (arith, (ext_volatile c).0);
      same_live = live-extended;
      same_items = item_at-extended;
    }

  -- While the file has room `next_slot` finds a slot that is in no use, and no live item is lost or
  -- changed.
  pub next_slot-NextFree :
      (v : VLog tree)
      → IsLog tree v
      → HasRoom tree v
      → (c i : ℕ) × (v' : VLog tree) × NextFree v c i v'
  next_slot-NextFree v is room =
      elim (Bool-cases (leb n_items_per_lchunk (count_to_index (v.volatile v.tail).count))) [
        | inl full ↦
            let (c, v', al) = vlchunk_alloc-Allocated tree v is room in
            (c, _, extended v' c, behind_tail v c v' is al full)
        | inr fits ↦ (v.tail, _, v, in_tail v is fits)
      ]
