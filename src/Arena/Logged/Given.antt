-- ===== src/Arena/Logged/Given.antt =====
-- `arena_slab_dalloc`: the extent of a slab and its record in the log are given up together.
use mathlib.Core.Path.{fun_ext}
use nvalloc.Prelude.{
  ap, arith, Bool, Bool-cases, inl, inr, false, ◌+◌, ℕ, suc, ◌*◌, ◌<◌, ◌≡◌, refl, ◌∙◌, true, ◌&&◌,
  some, ◌==◌, ◌^◌,
}
use nvalloc.Log.{
  VLog, LogItem, ChunkTree, free_log, log_item, item_addr, lchunk_size, n_items_per_lchunk, null,
}
use nvalloc.Log.Inv.{IsLog, HasRoom, live}
use nvalloc.Log.Add.{Added, append_log-frees}
use nvalloc.Log.Timer.{add_log-freed}
use nvalloc.Containers.{ExtentHeap, ExtentList, ExtentTree}
use nvalloc.Extents.{Extent, Store, ExtentState, same_state}
use nvalloc.Recycle.{World}
use nvalloc.Recycle.Loose.{IsSlab}
use nvalloc.Recycle.Given.{Given, extents_dalloc-Given}
use nvalloc.Arena.Logged.{
  LoggedArena, Tick, Collection, arena_extents_dirty_dalloc, arena_decay_ticks, arena_add_log,
  owner_at, owners_of, with_item, arena_slab_dalloc,
}

-- the dirty extents of an arena
abbrev pub dirty_of :
    {heap : ExtentHeap} {list : ExtentList} {tree : ExtentTree} {chunks : ChunkTree}
    → LoggedArena heap list tree chunks
    → World heap list tree
dirty_of l = record { space = l.arena.space; extents = l.arena.extents_dirty }

-- The timer of the collections is no part of what the log records.
with_timer-Added :
    {chunks : ChunkTree} {v : VLog chunks} {c i : ℕ} {item : LogItem} {gone : ℕ → ℕ → Bool}
    {v' : VLog chunks}
    → (timer : ℕ) → Added chunks v c i item gone v'
    → Added chunks v c i item gone (record v' { gc_timer = timer })
with_timer-Added timer a = record {
  is = record {
    tail_in = a.is.tail_in;
    chunks = a.is.chunks;
    in_file = a.is.in_file;
    spare = a.is.spare;
    mapped = a.is.mapped;
    sized = a.is.sized;
  };
  new = a.new;
  content = a.content;
  same_live = a.same_live;
  same_items = a.same_items;
}

module _ {heap : ExtentHeap} {list : ExtentList} {tree : ExtentTree} {chunks : ChunkTree}
    (logged : LoggedArena heap list tree chunks) where
  abbrev store : Store
  store = logged.arena.space.store

  -- Without a collection every extent keeps its pointer.
  with_item-same :
      (e : ℕ)
      → with_item heap list tree chunks logged (owners_of heap list tree chunks logged) e ≡ store e
  with_item-same e =
      let leaf = tree.read logged.arena.space.rtree (store e).e_addr in
      elim (Bool-cases (owner_at heap list tree chunks logged (store e).e_addr == e)) [
        | inr other ↦ rw other refl
        | inl q ↦
            let same : owner_at heap list tree chunks logged (store e).e_addr ≡ e = ground arith in
            elim (Bool-cases leaf.slab) [
              | inl slab ↦
                  let to : logged.eslab leaf.extent ≡ e = rw slab at same in
                  rw (q, slab) (ap (with_log (store e)) (ap (λ o. (store o).log) to))
              | inr plain ↦
                  let to : leaf.extent ≡ e = rw plain at same in
                  rw (q, plain) (ap (with_log (store e)) (ap (λ o. (store o).log) to))
            ]
      ]
    where
      with_log : Extent → ℕ → Extent
      with_log e item = record e { log = item }

module _ {heap : ExtentHeap} {list : ExtentList} {tree : ExtentTree} {chunks : ChunkTree}
    (logged : LoggedArena heap list tree chunks) (slab q j : ℕ) where
  -- the slab is recorded by item `j` of chunk `q` of the log, which is live
  pub record IsRecorded : Type 0 where
    pub log : IsLog chunks logged.log
    pub room : HasRoom chunks logged.log
    pub item : (logged.arena.space.store slab).log ≡ item_addr (q * lchunk_size) j
    pub on : live chunks logged.log (q * lchunk_size) j ≡ true
    pub inside : j < n_items_per_lchunk
    pub small : item_addr (q * lchunk_size) j < 2 ^ 48
    pub early : logged.log.gc_timer + 1 < 10000

  -- Where the invariants of the dirty extents, which are merged late, and of the log, which can get a
  -- chunk, hold, the ticker does not fire and no collection is due, a slab in use of no more pages than the
  -- largest class has, whose pages all lead somewhere, whose neighbours cannot be merged with it and which
  -- a live item records, is given back: its extent becomes the last of the dirty ones, which keep their
  -- invariant and count its pages, its item alone is not live any more, a record that frees it is, every
  -- other item stays as it was, the invariant of the log holds and the timer of the collections goes on by
  -- one. The inner pages of the slab lead nowhere then, but its two ends still say that they are a slab's,
  -- so that the search for a neighbour not in use finds nothing there.
  pub arena_slab_dalloc-Given :
      (fuel : ℕ) (tick : Tick) (gc : Collection)
      → IsSlab (dirty_of logged) logged.arena.self slab
      → IsRecorded
      → tick.fires ≡ false
      → (i c k id : ℕ) × (l : LoggedArena heap list tree chunks) × (arena_slab_dalloc heap list tree
            chunks
            (suc fuel)
            tick
            gc
            logged
            slab
          ≡ some l)
        × Given (dirty_of logged) logged.arena.self slab i (dirty_of l)
        × Added chunks logged.log c k
            (log_item free_log (item_addr (q * lchunk_size) j) id)
            (λ a b. (q * lchunk_size == a) && (j == b))
            l.log
        × (l.log.gc_timer ≡ logged.log.gc_timer + 1)
  unfolding arena_slab_dalloc arena_extents_dirty_dalloc arena_decay_ticks arena_add_log
  arena_slab_dalloc-Given fuel tick gc is rec quiet =
      let (i, w, given_result, given) =
        extents_dalloc-Given (dirty_of logged) logged.arena.self slab is fuel in
      let (c, k, id, log, log_result, added) =
        append_log-frees chunks logged.log q j null true rec.log rec.room rec.on rec.inside
          rec.small in
      let active : same_state (logged.arena.space.store slab).state ExtentState.active ≡ true =
        rw is.active refl in
      let item : (w.space.store slab).log ≡ item_addr (q * lchunk_size) j = given.log ∙ rec.item in
      let l : LoggedArena heap list tree chunks = record logged {
        arena = record logged.arena { space = w.space; extents_dirty = w.extents };
      } in
      let owners = owners_of heap list tree chunks l in
      let add_result =
        add_log-freed chunks gc.fuel gc.junk owners logged.log (item_addr (q * lchunk_size) j) null
          true (item_addr c k) log log_result rec.early in
      let same = fun_ext (with_item-same l) in
      (
        i,
        c,
        k,
        id,
        record l { log = record log { gc_timer = logged.log.gc_timer + 1 } },
        rw (active, given_result, quiet, item, add_result, same) refl,
        given,
        with_timer-Added (logged.log.gc_timer + 1) added,
        refl,
      )
