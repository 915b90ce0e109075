-- ===== src/Log.antt =====
-- include/nvalloc/internal/log.h and src/log.c: the bookkeeping log of an arena. A log is a chain of
-- chunks of 1024 bytes in a file of persistent memory, each with a volatile `vlchunk_t` that marks
-- which of its items are live. An object of the heap is known here by its address; the `vlchunk_t`
-- of a chunk is known by the address of that chunk, since no chunk in use has two.
pub mod Layout
pub mod Inv
pub mod Append
pub mod Retire
pub mod Write
pub mod Add
pub mod Collect
pub mod Timer
use nvalloc.Prelude.{
  update, ℕ, zero, suc, ◌+◌, ◌-◌, ◌*◌, ◌/◌, ◌%◌, ◌^◌, ◌≡◌, Bool, true, false, not, Option, none,
  some, List, [], ◌∷◌, ◌++◌, if◌then◌else◌, ltb, leb, ◌==◌, ◌>>=◌, ◌>>◌, assert, get_or, set,
  replicate,
}
use nvalloc.Word.{Word, width, all_zeros, shift_one, word_or, word_and, word_not, ffsl}
use nvalloc.Bitmap.{Bitmap}
use nvalloc.Interleave.{count_to_index}
use nvalloc.Machine.{u64_mod}

abbrev pub null : ℕ
null = 0

abbrev pub log_file_size : ℕ
log_file_size = 10737418240

abbrev pub lchunk_size : ℕ
lchunk_size = 1024

-- `ITEM_SIZE`, and `sizeof(lchunk_t)`: a pointer and a `uint64_t`
abbrev pub item_size : ℕ
item_size = 8

abbrev pub lchunk_header : ℕ
lchunk_header = 16

abbrev pub n_items_per_lchunk : ℕ
n_items_per_lchunk = (lchunk_size - lchunk_header) / item_size

abbrev pub bitmap_array_size : ℕ
bitmap_array_size = (n_items_per_lchunk - 1) / 64 + 1

abbrev pub normal_log : ℕ
normal_log = 0

abbrev pub free_log : ℕ
free_log = 1

abbrev pub file_log : ℕ
file_log = 2

-- `log_item_s`; the bit fields are cut off by `log_item`
pub record LogItem : Type 0 where
  pub type : ℕ
  pub ptr : ℕ
  pub size_version_id : ℕ

-- the assignments to the fields of an item, of 2, 48 and 14 bits
abbrev pub log_item : ℕ → ℕ → ℕ → LogItem
log_item type ptr size_version_id = record {
  type = type % 2 ^ 2;
  ptr = ptr % 2 ^ 48;
  size_version_id = size_version_id % 2 ^ 14;
}

-- `lchunk_s`
pub record LChunk : Type 0 where
  pub next : ℕ
  pub id : ℕ
  pub items : List LogItem

-- `vlchunk_s`, but for the links of the tree and for its own chunk's address
pub record VlChunk : Type 0 where
  pub count : ℕ
  pub bitmap : Bitmap
  pub id : ℕ
  pub pre_lchunk : ℕ

-- `ptr2lchunk` and `ptr2lindex`
unfoldable pub ptr2lchunk : ℕ → ℕ
ptr2lchunk ptr = ptr - ptr % lchunk_size

unfoldable pub ptr2lindex : ℕ → ℕ → ℕ
ptr2lindex ptr lchunk = (ptr - lchunk - lchunk_header) / item_size

-- `&lchunk->items[index]`
abbrev pub item_addr : ℕ → ℕ → ℕ
item_addr lchunk index = lchunk + lchunk_header + item_size * index

unfoldable pub set_bitmap : VlChunk → ℕ → Bool → Option VlChunk
set_bitmap vlchunk index on = do
  assert (ltb index n_items_per_lchunk)
  let a = index / 64
  let b = index % 64
  let w = get_or vlchunk.bitmap a []
  some (record vlchunk {
    bitmap =
        set vlchunk.bitmap a
          (if on then word_or w (shift_one b) else word_and w (word_not (shift_one b)));
  })

unfoldable pub bitmap_empty : Bitmap → Bool
bitmap_empty [] = true
bitmap_empty (w ∷ ws) = if ffsl w == 0 then bitmap_empty ws else false

-- The red-black tree of include/nvalloc/internal/rb.h, generated for chunks: a set of chunks in
-- the order of their addresses.
pub record ChunkTree : Type 1 where
  pub Tree : Type 0
  pub new : Tree
  pub insert : ℕ → Tree → Tree
  pub remove : ℕ → Tree → Tree
  pub search : Tree → ℕ → Bool
  pub elements : Tree → List ℕ
  pub search-new : (a : ℕ) → search new a ≡ false
  pub search-insert :
      (t : Tree) (k a : ℕ) → search (insert k t) a ≡ (if k == a then true else search t a)
  pub search-remove :
      (t : Tree) (k a : ℕ) → search (remove k t) a ≡ (if k == a then false else search t a)

-- the zeroed volatile and persistent parts of a chunk, but for the identifier
abbrev pub fresh_vlchunk : ℕ → VlChunk
fresh_vlchunk id = record {
  count = 0;
  bitmap = all_zeros width ∷ all_zeros width ∷ [];
  id = id;
  pre_lchunk = null;
}

abbrev pub fresh_lchunk : ℕ → LChunk
fresh_lchunk id = record {
  next = null;
  id = id;
  items = replicate n_items_per_lchunk (log_item 0 0 0);
}

module _ (tree : ChunkTree) where
  open tree use {Tree, new, insert, remove, search, elements}

  -- `vlog_s`, with the chunks that its pointers lead to, and with the head of the log file: `alt`
  -- and the root chunks of the two `log_t`, of which `log` names the one in use
  pub record VLog : Type 0 where
    pub gc_timer : ℕ
    pub vlchunks : Tree
    pub tail : ℕ
    pub global_lchunk_id : ℕ
    pub global_free_list : List ℕ
    pub log_file_addr : ℕ
    pub log_file_used : ℕ
    pub num_of_chunks : ℕ
    pub num_of_items : ℕ
    pub alt : ℕ
    pub roots : ℕ → ℕ
    pub log : ℕ
    pub volatile : ℕ → VlChunk
    pub persistent : ℕ → LChunk

  -- the part of `vlchunk_alloc` after a chunk has been chosen
  unfoldable pub vlchunk_reset : VLog → ℕ → VLog
  vlchunk_reset vlog lchunk = record vlog {
    volatile = update vlog.volatile lchunk (fresh_vlchunk vlog.global_lchunk_id);
    persistent = update vlog.persistent lchunk (fresh_lchunk vlog.global_lchunk_id);
    global_lchunk_id = vlog.global_lchunk_id + 1;
    num_of_chunks = vlog.num_of_chunks + 1;
  }

  -- a chunk from the free list, of which the first argument is the value, or else from the file
  unfoldable pub chunk_from : List ℕ → VLog → Option (ℕ × VLog)
  unfolding vlchunk_reset
  chunk_from [] vlog =
      let used = vlog.log_file_used + lchunk_size in
      let lchunk = vlog.log_file_addr + vlog.log_file_used in
      if leb log_file_size used
      then none
      else some (lchunk, vlchunk_reset (record vlog { log_file_used = used }) lchunk)
  chunk_from (lchunk ∷ rest) vlog =
      some (lchunk, vlchunk_reset (record vlog { global_free_list = rest }) lchunk)

  -- `none` when the file is full, where the program exits
  unfoldable pub vlchunk_alloc : VLog → Option (ℕ × VLog)
  unfolding chunk_from
  vlchunk_alloc vlog = chunk_from vlog.global_free_list vlog

  -- the chunk and index at which the next item goes; a full tail gets a new chunk behind it
  unfoldable pub next_slot : VLog → Option (ℕ × ℕ × VLog)
  unfolding vlchunk_alloc
  next_slot vlog =
      let index = count_to_index (vlog.volatile vlog.tail).count in
      if leb n_items_per_lchunk index
      then (do
        (lchunk, v) ← vlchunk_alloc vlog
        let v' : VLog = record v {
          volatile = update v.volatile lchunk (record (v.volatile lchunk) { pre_lchunk = v.tail });
          persistent = update v.persistent v.tail (record (v.persistent v.tail) { next = lchunk });
          vlchunks = insert lchunk v.vlchunks;
          tail = lchunk;
        }
        some (lchunk, count_to_index (v'.volatile lchunk).count, v'))
      else some (vlog.tail, index, vlog)

  -- `set_bitmap` on the chunk at an address
  unfoldable pub mark : VLog → ℕ → ℕ → Bool → Option VLog
  mark vlog lchunk index on = do
    vl ← set_bitmap (vlog.volatile lchunk) index on
    some (record vlog { volatile = update vlog.volatile lchunk vl })

  -- what `add_log` does to the chunk of the item that a free record names
  unfoldable pub retire : VLog → ℕ → Option (ℕ × VLog)
  retire vlog ptr = do
    let lchunk = ptr2lchunk ptr
    assert (search vlog.vlchunks lchunk)
    v ← mark vlog lchunk (ptr2lindex ptr lchunk) false
    some ((v.volatile lchunk).id, v)

  -- the item is written, counted and marked
  unfoldable pub write_item : VLog → ℕ → ℕ → LogItem → Option VLog
  write_item vlog lchunk index item =
      let chunk = vlog.persistent lchunk in
      let vl = vlog.volatile lchunk in
      mark
        (record vlog {
          persistent =
              update vlog.persistent lchunk (record chunk { items = set chunk.items index item });
          volatile = update vlog.volatile lchunk (record vl { count = vl.count + 1 });
        })
        lchunk index true

  -- `add_log` up to its trigger of garbage collection: the address of the item, and the log
  unfoldable pub append_log : VLog → ℕ → ℕ → ℕ → Bool → Option (ℕ × VLog)
  append_log vlog type ptr size_version_id slab = do
    (lchunk, index, v) ← next_slot vlog
    let item = log_item type ptr (if slab then size_version_id + 1 else size_version_id)
    let freed : Option VLog = (do
      (id, v') ← retire v item.ptr
      write_item v' lchunk index (record item { size_version_id = id % 2 ^ 14 }))
    let added = write_item (record v { num_of_items = v.num_of_items + 1 }) lchunk index item
    v'' ← (if item.type == free_log then freed else added)
    some (item_addr lchunk index, v'')

  -- the first loop of `fast_GC`, over the chunks in the order of the tree: the empty ones are
  -- unlinked from the chain and collected
  unfoldable pub unlink_empty : List ℕ → VLog → List ℕ × VLog
  unfolding bitmap_empty
  unlink_empty [] vlog = ([], vlog)
  unlink_empty (c ∷ cs) vlog =
      let vl = vlog.volatile c in
      let lc = vlog.persistent c in
      let persistent = update vlog.persistent c (record lc { id = 0 }) in
      let pre = persistent vl.pre_lchunk in
      let unlinked =
        if vl.pre_lchunk == null
        then persistent
        else update persistent vl.pre_lchunk (record pre { next = (persistent c).next }) in
      let empty = bitmap_empty vl.bitmap in
      let next =
        if empty
        then record vlog {
          volatile = update vlog.volatile c (record vl { id = 0 });
          persistent = unlinked;
        }
        else vlog in
      let (freed, v) = unlink_empty cs next in (if empty then c ∷ freed else freed, v)

  -- its second loop, over the collected chunks; the counters are `uint64_t`
  unfoldable pub release_chunks : List ℕ → VLog → VLog
  release_chunks [] vlog = vlog
  release_chunks (c ∷ cs) vlog = release_chunks cs (record vlog {
    num_of_chunks = (vlog.num_of_chunks + u64_mod - 1) % u64_mod;
    num_of_items = (vlog.num_of_items + u64_mod - n_items_per_lchunk) % u64_mod;
    vlchunks = remove c vlog.vlchunks;
    global_free_list = vlog.global_free_list ++ c ∷ [];
  })

  unfoldable pub fast_gc : VLog → VLog
  unfolding unlink_empty release_chunks
  fast_gc vlog =
      let (freed, v) = unlink_empty (elements vlog.vlchunks) vlog in release_chunks freed v
