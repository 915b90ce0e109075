-- ===== src/Log/Inv.antt =====
-- The invariant of a log, and that taking a new chunk keeps it.
use mathlib.Core.Path.{subst}
use native.Mathlib.Nat.{le_refl}
use nvalloc.Prelude.{
  update, ℕ, ◌+◌, ◌≤◌, ◌<◌, ◌≡◌, ◌≢◌, ◌⊎◌, inl, inr, refl, sym, ap, ◌∙◌, Bool, true, false, ◌&&◌,
  some, List, [], ◌∷◌, arith, length, get_or, ◌==◌, leb, Bool-cases,
}
use nvalloc.Bitmap.Search.{get_or-zeros}
use nvalloc.Bitmap.View.{bits}
use nvalloc.Interleave.{count_to_index}
use nvalloc.Log.{
  ChunkTree, VLog, VlChunk, LogItem, log_item, null, lchunk_size, log_file_size, n_items_per_lchunk,
  fresh_vlchunk, fresh_lchunk, vlchunk_alloc, vlchunk_reset, chunk_from,
}
use nvalloc.Log.Layout.{IsBitmap}

-- A chunk has two words of marks and at most 100 items, and no slot that is still to be written is
-- marked.
pub record IsChunk (vl : VlChunk) : Type 0 where
  pub shape : IsBitmap vl.bitmap
  pub count_le : vl.count ≤ 100
  pub unused :
      (k : ℕ) → vl.count ≤ k → k ≤ 100 → get_or (bits vl.bitmap) (count_to_index k) false ≡ false

-- It depends on the count and the marks alone.
pub IsChunk-same :
    (vl vl' : VlChunk) → vl'.count ≡ vl.count → vl'.bitmap ≡ vl.bitmap → IsChunk vl → IsChunk vl'
IsChunk-same vl vl' e q is = record {
  shape = subst IsBitmap (sym q) is.shape;
  count_le = rw e is.count_le;
  unused = λ k le lt. rw q (is.unused k (rw (← e) le) lt);
}

pub fresh_vlchunk-IsChunk : (id : ℕ) → IsChunk (fresh_vlchunk id)
fresh_vlchunk-IsChunk id = record {
  shape = record { words = (refl, (refl, tt)); two = refl };
  count_le = omega arith;
  unused = λ k p q. get_or-zeros 128 (count_to_index k);
}

module _ (tree : ChunkTree) where
  open tree use {Tree, insert, search, search-insert}

  abbrev pub Avoids : ℕ → List ℕ → Type 0
  Avoids c [] = Unit
  Avoids c (x ∷ xs) = ((c == x) ≡ false) × Avoids c xs

  -- the chunks of a free list: distinct, in the file, and not in the log
  abbrev pub AreSpare : Tree → ℕ → List ℕ → Type 0
  AreSpare t limit [] = Unit
  AreSpare t limit (c ∷ cs) =
      (search t c ≡ false) × (c < limit) × (null < c) × Avoids c cs × AreSpare t limit cs

  pub record IsLog (v : VLog tree) : Type 0 where
    pub tail_in : search v.vlchunks v.tail ≡ true
    pub chunks : (c : ℕ) → search v.vlchunks c ≡ true → IsChunk (v.volatile c)
    pub in_file : (c : ℕ) → search v.vlchunks c ≡ true → c < v.log_file_addr + v.log_file_used
    pub spare : AreSpare v.vlchunks (v.log_file_addr + v.log_file_used) v.global_free_list
    pub mapped : null < v.log_file_addr
    pub sized :
        (c : ℕ) → search v.vlchunks c ≡ true → length (v.persistent c).items ≡ n_items_per_lchunk

  -- whether the item at an index of a chunk is live, and the item
  abbrev pub live : VLog tree → ℕ → ℕ → Bool
  live v c k = search v.vlchunks c && get_or (bits (v.volatile c).bitmap) k false

  abbrev pub item_at : VLog tree → ℕ → ℕ → LogItem
  item_at v c k = get_or (v.persistent c).items k (log_item 0 0 0)

  AreSpare-insert :
      (t : Tree) (c limit limit' : ℕ) (xs : List ℕ)
      → limit ≤ limit'
      → Avoids c xs
      → AreSpare t limit xs
      → AreSpare (insert c t) limit' xs
  AreSpare-insert t c limit limit' [] le a h = tt
  AreSpare-insert t c limit limit' (x ∷ xs) le (ne, a) (out, lt, pos, av, rest) = (
    search-insert t c x ∙ rw (ne, out),
    omega arith,
    pos,
    av,
    AreSpare-insert t c limit limit' xs le a rest,
  )

  AreSpare-Avoids :
      (t : Tree) (c limit : ℕ) (xs : List ℕ) → limit ≤ c → AreSpare t limit xs → Avoids c xs
  AreSpare-Avoids t c limit [] le h = tt
  AreSpare-Avoids t c limit (x ∷ xs) le (out, lt, pos, av, rest) =
      (ground arith, AreSpare-Avoids t c limit xs le rest)

  -- what `vlchunk_alloc` returns: a chunk that was not in the log, and is zeroed now
  pub record Allocated (v : VLog tree) (c : ℕ) (v' : VLog tree) : Type 0 where
    pub result : vlchunk_alloc tree v ≡ some (c, v')
    pub outside : search v.vlchunks c ≡ false
    pub pos : null < c
    pub same_tree : v'.vlchunks ≡ v.vlchunks
    pub same_tail : v'.tail ≡ v.tail
    pub volatile : v'.volatile ≡ update v.volatile c (fresh_vlchunk v.global_lchunk_id)
    pub persistent : v'.persistent ≡ update v.persistent c (fresh_lchunk v.global_lchunk_id)
    pub same_file : v'.log_file_addr ≡ v.log_file_addr
    pub in_file : c < v'.log_file_addr + v'.log_file_used
    pub grows : v.log_file_used ≤ v'.log_file_used
    pub spare :
        AreSpare (insert c v.vlchunks) (v'.log_file_addr + v'.log_file_used) v'.global_free_list
    pub same_items : v'.num_of_items ≡ v.num_of_items
    pub more_chunks : v'.num_of_chunks ≡ v.num_of_chunks + 1

  -- there is a chunk to take
  abbrev pub HasRoom : VLog tree → Type 0
  HasRoom v = (v.global_free_list ≢ []) ⊎ (v.log_file_used + lchunk_size < log_file_size)

  alloc :
      (v : VLog tree) (l : List ℕ)
      → v.global_free_list ≡ l
      → IsLog v
      → HasRoom v
      → (c : ℕ) × (v' : VLog tree) × Allocated v c v'
  unfolding vlchunk_alloc
  alloc v [] e is room =
      let not_full : leb log_file_size (v.log_file_used + lchunk_size) ≡ false = elim room [
        | inl ne ↦ absurd (ne e)
        | inr lt ↦ ground arith
      ] in
      (
        v.log_file_addr + v.log_file_used,
        vlchunk_reset tree (record v { log_file_used = v.log_file_used + lchunk_size })
            (v.log_file_addr + v.log_file_used),
        record {
          result = ap (λ l. chunk_from tree l v) e ∙ rw not_full;
          outside = elim (Bool-cases (search v.vlchunks (v.log_file_addr + v.log_file_used))) [
            | inl t ↦ absurd (omega (arith, is.in_file _ t))
            | inr f ↦ f
          ];
          pos = omega (arith, is.mapped);
          same_tree = refl;
          same_tail = refl;
          volatile = refl;
          persistent = refl;
          same_file = refl;
          in_file = omega arith;
          grows = omega arith;
          spare =
              AreSpare-insert v.vlchunks _ _ _ v.global_free_list (omega arith)
                (AreSpare-Avoids v.vlchunks _ _ v.global_free_list (le_refl _) is.spare) is.spare;
          same_items = refl;
          more_chunks = refl;
        },
      )
  alloc v (c ∷ rest) e is room =
      let (out, lt, pos, av, rest') =
        subst (λ l. AreSpare v.vlchunks (v.log_file_addr + v.log_file_used) l) e is.spare in
      (
        c,
        vlchunk_reset tree (record v { global_free_list = rest }) c,
        record {
          result = ap (λ l. chunk_from tree l v) e;
          outside = out;
          pos = pos;
          same_tree = refl;
          same_tail = refl;
          volatile = refl;
          persistent = refl;
          same_file = refl;
          in_file = lt;
          grows = omega arith;
          spare = AreSpare-insert v.vlchunks c _ _ rest (le_refl _) av rest';
          same_items = refl;
          more_chunks = refl;
        },
      )

  -- A log with room gets a chunk.
  pub vlchunk_alloc-Allocated :
      (v : VLog tree) → IsLog v → HasRoom v → (c : ℕ) × (v' : VLog tree) × Allocated v c v'
  vlchunk_alloc-Allocated v is room = alloc v v.global_free_list refl is room
