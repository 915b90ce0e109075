-- ===== src/Arena.antt =====
-- src/arena.c: the memory of an arena. New memory comes in chunks that are files mapped to memory,
-- and is handed out from the front; what is left of a chunk is kept as an extent. What the code logs
-- (Arena/Logged, Large), and the decay that its ticker starts (Arena/Decay, Arena/Purge), are steps of their
-- own.
pub mod Decay
pub mod Memory
pub mod Backlog
pub mod Limit
pub mod Purge
pub mod Start
pub mod Logged
use nvalloc.Prelude.{
  ℕ, ◌+◌, ◌-◌, ◌*◌, ◌/◌, ◌%◌, Bool, true, false, not, ◌&&◌, Option, none, some, if◌then◌else◌, ltb,
  ◌==◌, ◌>>=◌, ◌>>◌, assert, update,
}
use nvalloc.Machine.{page_size, chunk_size, u64_mod}
use nvalloc.SizeClass.Table.{get_psizeclass, npages_by_idx}
use nvalloc.Log.{null}
use nvalloc.Containers.{ExtentHeap, ExtentList, ExtentTree}
use nvalloc.Extents.{ExtentState, Extents, Store, extent_deactivate_locked}
use nvalloc.Space.{Space, extent_init, extent_register}
use nvalloc.Recycle.{World, extent_recycle, extent_alloc_with_old_addr}

module _ (heap : ExtentHeap) (list : ExtentList) (tree : ExtentTree) where
  -- the fields of `arena_s` that memory is taken from, with its address and the memory of extents
  pub record Arena : Type 0 where
    pub self : ℕ
    pub memory_new : ℕ
    pub npage_new : ℕ
    pub extents_dirty : Extents heap list
    pub extents_muzzy : Extents heap list
    pub space : Space tree

  abbrev pub no_new_memory : Arena → Arena
  no_new_memory arena = record arena { memory_new = null; npage_new = 0 }

  -- What is left of a chunk becomes an extent if it has the pages of a class; otherwise it is given
  -- up. `memory` is what `extent_alloc` returns.
  unfoldable pub arena_evict_new_memory_locked : Arena → Option ℕ → Option Arena
  arena_evict_new_memory_locked arena memory = do
    assert (not (arena.memory_new == null))
    let keep : Option Arena = (do
      szind ← get_psizeclass arena.npage_new
      let evict : Option Arena = (do
        (made, s) ←
            extent_alloc_with_old_addr heap list tree arena.space memory arena.self arena.memory_new
              arena.npage_new false szind
        extent ← made
        (store, dirty) ←
            extent_deactivate_locked heap list s.store arena.extents_dirty extent arena.self
        some (
            no_new_memory
              (record arena { extents_dirty = dirty; space = record s { store = store } })))
      if npages_by_idx szind == arena.npage_new then evict else some (no_new_memory arena))
    if arena.npage_new == 0 then some (no_new_memory arena) else keep

  -- `mapped` is the chunk that `arena_file_map_locked` returns
  unfoldable pub arena_get_new_memory_locked : Arena → ℕ → Option (Bool × Arena)
  arena_get_new_memory_locked arena mapped = do
    assert (arena.memory_new == null && arena.npage_new == 0)
    let got = record arena { memory_new = mapped; npage_new = chunk_size / page_size }
    some (if mapped == null then (true, arena) else (false, got))

  unfoldable pub arena_activate_new_memory : Arena → Option ℕ → ℕ → ℕ → Option (ℕ × Arena)
  arena_activate_new_memory arena memory mapped npages = do
    assert (not (npages == 0))
    let renew : Option (Bool × Arena) = (do
      a ← arena_evict_new_memory_locked arena memory
      arena_get_new_memory_locked a mapped)
    (failed, a) ← (if ltb arena.npage_new npages then renew else some (false, arena))
    let take : Option (ℕ × Arena) = (do
      assert (not (a.memory_new == null))
      some (
        a.memory_new,
        record a {
          memory_new = a.memory_new + npages * page_size;
          npage_new = (a.npage_new + u64_mod - npages) % u64_mod;
        },
      ))
    if failed then some (null, a) else take

  -- `memory` and `memory_left` are what `extent_alloc` returns for the extent and for what is left
  unfoldable pub extent_alloc_wrapper :
      Arena → Option ℕ → Option ℕ → ℕ → ℕ → ℕ → Bool → ℕ → Option (Option ℕ × Arena)
  extent_alloc_wrapper arena none memory_left mapped vslab npages slab szind = some (none, arena)
  extent_alloc_wrapper arena (some extent) memory_left mapped vslab npages slab szind = do
    (addr, a) ← arena_activate_new_memory arena memory_left mapped npages
    let made =
        extent_init (a.space.store extent) a.self addr (npages * page_size) slab szind
          ExtentState.active
    let registered : Option (Option ℕ × Arena) = (do
      (failed, s) ←
          extent_register tree (record a.space { store = update a.space.store extent made }) extent
            vslab
      some (if failed then none else some extent, record a { space = s }))
    if addr == null then some (none, a) else registered

  -- the dirty extents first, then the muzzy ones, then new memory
  unfoldable pub arena_extent_alloc_large :
      Arena → Option ℕ → Option ℕ → ℕ → ℕ → Option (Option ℕ × Arena)
  arena_extent_alloc_large arena memory memory_left mapped npages = do
    szind ← get_psizeclass npages
    assert (npages == npages_by_idx szind)
    (dirty, w) ←
        extent_recycle heap list tree
          (record { space = arena.space; extents = arena.extents_dirty }) memory arena.self null
          npages false szind
    let a = record arena { space = w.space; extents_dirty = w.extents }
    let from_muzzy : Option (Option ℕ × Arena) = (do
      (muzzy, w') ←
          extent_recycle heap list tree (record { space = a.space; extents = a.extents_muzzy })
            memory a.self null npages false szind
      let a' = record a { space = w'.space; extents_muzzy = w'.extents }
      elim muzzy [
        | some e ↦ some (some e, a')
        | none ↦ extent_alloc_wrapper a' memory memory_left mapped null npages false szind
      ])
    elim dirty [ some e ↦ some (some e, a) | none ↦ from_muzzy ]
