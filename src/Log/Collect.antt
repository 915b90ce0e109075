-- ===== src/Log/Collect.antt =====
-- src/log.c: creating a log, and the slow garbage collection, which copies the live items of a log
-- to a new one; and `add_log`, which triggers both collections.
use nvalloc.Prelude.{
  update, ℕ, zero, suc, ◌+◌, ◌-◌, ◌*◌, ◌/◌, ◌%◌, Bool, Option, none, some, List, [], ◌∷◌, ◌++◌,
  if◌then◌else◌, leb, ◌==◌, ◌>>=◌, ◌>>◌, assert, get_or,
}
use nvalloc.Machine.{u64_mod}
use nvalloc.Bitmap.View.{bits}
use nvalloc.Log.{
  ChunkTree, VLog, LogItem, null, lchunk_size, n_items_per_lchunk, normal_log, free_log, file_log,
  item_addr, vlchunk_alloc, next_slot, write_item, append_log, fast_gc,
}

-- the log pointers that the rest of the allocator keeps: of the extent and of the slab's extent
-- that the radix tree holds for an address, and of the file mapped at an address
pub record Owners : Type 0 where
  pub extent_log : ℕ → ℕ
  pub vslab_log : ℕ → ℕ
  pub mapped_log : ℕ → ℕ

module _ (tree : ChunkTree) where
  open tree use {Tree, new, insert, remove, search, elements}

  -- the root chunk and the first chunk of a new log
  unfoldable pub first_chunks : VLog tree → Option (VLog tree)
  first_chunks vlog = do
    (root, v) ← vlchunk_alloc tree vlog
    (first, v') ← vlchunk_alloc tree v
    some (record v' {
      volatile = update v'.volatile first (record (v'.volatile first) { pre_lchunk = root });
      persistent = update v'.persistent root (record (v'.persistent root) { next = first });
      vlchunks = insert first new;
      tail = first;
      roots = update v'.roots v'.log root;
    })

  -- `log_create` in a fresh file at `addr`, whose memory `persistent` and `volatile` are unknown
  unfoldable pub log_create : VLog tree → ℕ → Option (VLog tree)
  unfolding first_chunks
  log_create memory addr = first_chunks (record memory {
    gc_timer = 0;
    log_file_addr = addr;
    log_file_used = lchunk_size;
    alt = 0;
    log = 0;
    global_lchunk_id = 1;
    global_free_list = [];
    num_of_chunks = 0;
    num_of_items = 0;
  })

  -- `log_create_for_GC`; `gc_timer` is left as `malloc` returned it, here `junk`
  unfoldable pub log_create_for_gc : ℕ → VLog tree → Option (VLog tree)
  unfolding first_chunks
  log_create_for_gc junk old = first_chunks (record old {
    gc_timer = junk;
    log = 1 - old.alt;
    global_lchunk_id = 0;
    num_of_chunks = 0;
    num_of_items = 0;
  })

  -- `log_destroy`: the old chunks, and its root last, go to the free list that both logs share
  unfoldable pub log_destroy : VLog tree → VLog tree → VLog tree
  log_destroy old v = record v {
    global_free_list = v.global_free_list ++ (elements old.vlchunks ++ old.roots old.log ∷ []);
  }

  unfoldable pub add_log_for_gc : VLog tree → LogItem → Option (ℕ × VLog tree)
  add_log_for_gc vlog item = do
    (lchunk, index, v) ← next_slot tree vlog
    v' ← write_item tree v lchunk index item
    some (item_addr lchunk index, record v' { num_of_items = v'.num_of_items + 1 })

  -- the body of the loop of `slow_GC` at a marked item: its owner is told the item's new address
  unfoldable pub copy_item : ℕ → ℕ → Owners → VLog tree → Option (Owners × VLog tree)
  unfolding add_log_for_gc
  copy_item lchunk index owners v =
      let item =
        get_or (v.persistent lchunk).items index
          (record { type = 0; ptr = 0; size_version_id = 0 }) in
      let here = item_addr lchunk index in
      let vslab : Option (Owners × VLog tree) = (do
        assert (owners.vslab_log item.ptr == here)
        (addr, v') ← add_log_for_gc v item
        some (record owners { vslab_log = update owners.vslab_log item.ptr addr }, v')) in
      let extent : Option (Owners × VLog tree) = (do
        assert (owners.extent_log item.ptr == here)
        (addr, v') ← add_log_for_gc v item
        some (record owners { extent_log = update owners.extent_log item.ptr addr }, v')) in
      let file : Option (Owners × VLog tree) = (do
        assert (owners.mapped_log item.ptr == here)
        (addr, v') ← add_log_for_gc v item
        some (record owners { mapped_log = update owners.mapped_log item.ptr addr }, v')) in
      if item.type == normal_log
      then if item.size_version_id % 2 == 1 then vslab else extent
      else if item.type == file_log
      then file
      else some (owners, v)

  -- the two inner loops, over the bits of a chunk from `index` on
  unfoldable pub copy_items : List Bool → ℕ → ℕ → Owners → VLog tree → Option (Owners × VLog tree)
  unfolding copy_item
  copy_items [] index lchunk owners v = some (owners, v)
  copy_items (b ∷ bs) index lchunk owners v =
      (if b then copy_item lchunk index owners v else some (owners, v)) >>= λ (owners', v').
      copy_items bs (index + 1) lchunk owners' v'

  -- the loop over the chain of the old log
  unfoldable pub copy_chunks : ℕ → Tree → ℕ → Owners → VLog tree → Option (Owners × VLog tree)
  unfolding copy_items
  copy_chunks zero old cursor owners v = none
  copy_chunks (suc fuel) old cursor owners v =
      let rest : Option (Owners × VLog tree) = (do
        assert (search old cursor)
        (owners', v') ← copy_items (bits (v.volatile cursor).bitmap) 0 cursor owners v
        copy_chunks fuel old (v'.persistent cursor).next owners' v') in
      if cursor == null then some (owners, v) else rest

  unfoldable pub slow_gc : ℕ → ℕ → Owners → VLog tree → Option (Owners × VLog tree)
  unfolding log_create_for_gc copy_chunks log_destroy
  slow_gc fuel junk owners old = do
    v ← log_create_for_gc junk old
    (owners', v') ← copy_chunks fuel old.vlchunks (v.persistent (old.roots old.log)).next owners v
    some (owners', log_destroy old (record v' { alt = 1 - v'.alt }))

  -- the trigger at the end of `add_log`
  unfoldable pub collect : ℕ → ℕ → Owners → VLog tree → Option (Owners × VLog tree)
  unfolding slow_gc
  collect fuel junk owners v =
      let timer = v.gc_timer + 1 in
      let v' : VLog tree = record v { gc_timer = 0 } in
      let ratio = v.num_of_chunks * n_items_per_lchunk % u64_mod / v.num_of_items in
      let slow = slow_gc fuel junk owners v' in
      let due : Option (Owners × VLog tree) =
        if leb 10 ratio
        then slow
        else if leb 2 ratio
        then some (owners, fast_gc tree v')
        else some (owners, v') in
      if timer == 10000
      then (assert (leb 1 v.num_of_items) >> due)
      else some (owners, record v { gc_timer = timer })

  unfoldable pub add_log :
      ℕ → ℕ → Owners → VLog tree → ℕ → ℕ → ℕ → Bool → Option (ℕ × Owners × VLog tree)
  unfolding collect
  add_log fuel junk owners vlog type ptr size_version_id slab = do
    (addr, v) ← append_log tree vlog type ptr size_version_id slab
    (owners', v') ← (if type % 4 == free_log then collect fuel junk owners v else some (owners, v))
    some (addr, owners', v')
