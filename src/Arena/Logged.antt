-- ===== src/Arena/Logged.antt =====
-- src/arena.c: extents for slabs, and what the log of the arena records of them. A slab that is given back
-- ticks the ticker of the arena, which can start the decay (Arena/Purge), and its record in the log can start
-- a collection (Log/Collect); whether the ticker fires is an argument. The record of a new slab is appended
-- (`append_log`), since it starts no collection.
pub mod Given
pub mod Fresh
pub mod Back
pub mod Kept
use nvalloc.Prelude.{
  ℕ, ◌/◌, ◌%◌, Bool, true, false, not, Option, none, some, List, if◌then◌else◌, ◌==◌, ◌>>=◌, ◌>>◌,
  assert, update,
}
use nvalloc.Machine.{page_size}
use nvalloc.SizeClass.Table.{slab_scind, get_psizeclass, npages_by_idx}
use nvalloc.Log.{ChunkTree, VLog, append_log, normal_log, free_log, null}
use nvalloc.Containers.{ExtentHeap, ExtentList, ExtentTree}
use nvalloc.Extents.{Extent, ExtentState, same_state}
use nvalloc.Recycle.{World, extents_alloc}
use nvalloc.Recycle.Coalesce.{extents_dalloc}
use nvalloc.Arena.{Arena, extent_alloc_wrapper}
use nvalloc.Arena.Decay.{ArenaDecay}
use nvalloc.Arena.Purge.{Means, Surroundings, arena_decay}
use nvalloc.Log.Collect.{Owners, add_log}

-- what a tick of an arena's ticker comes to: whether it fires, and what the decay that it starts reads
pub record Tick : Type 0 where
  pub fires : Bool
  pub h_steps : List ℕ
  pub means : Means
  pub now : Surroundings
  pub then_ : Surroundings

-- the fuel of a collection, and what `malloc` leaves in the timer of a new log
pub record Collection : Type 0 where
  pub fuel : ℕ
  pub junk : ℕ

module _ (heap : ExtentHeap) (list : ExtentList) (tree : ExtentTree) (chunks : ChunkTree) where
  -- an arena with its decays and its log; `eslab` of a slab is its extent, and `file_log` the item of the
  -- file that is mapped at an address
  pub record LoggedArena : Type 0 where
    pub arena : Arena heap list tree
    pub log : VLog chunks
    pub decay_dirty : ArenaDecay
    pub decay_muzzy : ArenaDecay
    pub eslab : ℕ → ℕ
    pub file_log : ℕ → ℕ

  -- the pointers to items that `slow_GC` finds by the addresses in them
  abbrev pub owners_of : LoggedArena → Owners
  owners_of logged =
      let space = logged.arena.space in
      record {
        extent_log = λ p. (space.store (tree.read space.rtree p).extent).log;
        vslab_log = λ p. (space.store (logged.eslab (tree.read space.rtree p).extent)).log;
        mapped_log = logged.file_log;
      }

  -- the extent that the pages of an address belong to, by what the tree says of it
  abbrev pub owner_at : LoggedArena → ℕ → ℕ
  owner_at logged addr =
      let leaf = tree.read logged.arena.space.rtree addr in
      if leaf.slab then logged.eslab leaf.extent else leaf.extent

  -- an extent with the pointer that a collection wrote, if the tree leads to it
  abbrev pub with_item : LoggedArena → Owners → ℕ → Extent
  with_item logged owners e =
      let v = logged.arena.space.store e in
      let slab = (tree.read logged.arena.space.rtree v.e_addr).slab in
      if owner_at logged v.e_addr == e
      then record v { log = if slab then owners.vslab_log v.e_addr else owners.extent_log v.e_addr }
      else v

  abbrev pub with_owners : LoggedArena → Owners → LoggedArena
  with_owners logged owners = record logged {
    arena = record logged.arena {
      space = record logged.arena.space { store = with_item logged owners };
    };
    file_log = owners.mapped_log;
  }

  -- `add_log` with the log of the arena
  unfoldable pub arena_add_log :
      Collection → LoggedArena → ℕ → ℕ → ℕ → Bool → Option (ℕ × LoggedArena)
  arena_add_log gc logged type ptr size_version_id slab = do
    (item, owners, log) ←
        add_log chunks gc.fuel gc.junk (owners_of logged) logged.log type ptr size_version_id slab
    some (item, record (with_owners logged owners) { log = log })

  unfoldable pub arena_decay_ticks : Tick → LoggedArena → Option LoggedArena
  arena_decay_ticks tick logged =
      let decayed : Option LoggedArena = (do
        (dirty, muzzy, a) ←
            arena_decay heap list tree tick.h_steps tick.means tick.now tick.then_ logged.arena
              logged.decay_dirty logged.decay_muzzy
        some (record logged { arena = a; decay_dirty = dirty; decay_muzzy = muzzy })) in
      if tick.fires then decayed else some logged

  unfoldable pub arena_extents_dirty_dalloc : ℕ → Tick → LoggedArena → ℕ → Option LoggedArena
  unfolding arena_decay_ticks
  arena_extents_dirty_dalloc fuel tick logged extent = do
    let a = logged.arena
    w ←
        extents_dalloc heap list tree fuel (record { space = a.space; extents = a.extents_dirty })
          a.self extent
    arena_decay_ticks tick
        (record logged { arena = record a { space = w.space; extents_dirty = w.extents } })

  -- `arena_slab_alloc_hard` with the arguments of `extent_alloc_wrapper`
  abbrev pub arena_slab_alloc_hard :
      Arena heap list tree
      → Option ℕ
      → Option ℕ
      → ℕ
      → ℕ
      → ℕ
      → ℕ
      → Option (Option ℕ × Arena heap list tree)
  arena_slab_alloc_hard arena memory memory_left mapped size szind vslab =
      extent_alloc_wrapper heap list tree arena memory memory_left mapped vslab (size / page_size)
        true szind

  -- the dirty extents first, then the muzzy ones, then new memory
  unfoldable pub slab_extent :
      Arena heap list tree
      → Option ℕ
      → Option ℕ
      → ℕ
      → ℕ
      → ℕ
      → Option (Option ℕ × Arena heap list tree)
  slab_extent arena memory memory_left mapped size vslab = do
    (dirty, w) ←
        extents_alloc heap list tree (record { space = arena.space; extents = arena.extents_dirty })
          memory arena.self vslab (size / page_size) true slab_scind
    let a : Arena heap list tree = record arena { space = w.space; extents_dirty = w.extents }
    let from_muzzy : Option (Option ℕ × Arena heap list tree) = (do
      (muzzy, w') ←
          extents_alloc heap list tree (record { space = a.space; extents = a.extents_muzzy })
            memory a.self vslab (size / page_size) true slab_scind
      let a' : Arena heap list tree = record a { space = w'.space; extents_muzzy = w'.extents }
      elim muzzy [
        | some e ↦ some (some e, a')
        | none ↦ arena_slab_alloc_hard a' memory memory_left mapped size slab_scind vslab
      ])
    elim dirty [ some e ↦ some (some e, a) | none ↦ from_muzzy ]

  -- the extent, or none where no `extent_t` can be made for it
  unfoldable pub arena_slab_alloc :
      LoggedArena → Option ℕ → Option ℕ → ℕ → ℕ → ℕ → Option (Option ℕ × LoggedArena)
  unfolding slab_extent
  arena_slab_alloc logged memory memory_left mapped size vslab = do
    assert (size % page_size == 0)
    szind ← get_psizeclass (size / page_size)
    assert (npages_by_idx szind == size / page_size)
    (slab, a) ← slab_extent logged.arena memory memory_left mapped size vslab
    elim slab [
      | none ↦ some (none, record logged { arena = a })
      | some slab ↦ (do
        let e = a.space.store slab
        assert e.slab
        assert (e.szind == slab_scind)
        assert (e.size == size)
        assert (not (e.e_addr == null))
        (item, log) ← append_log chunks logged.log normal_log e.e_addr e.size true
        some (
          some slab,
          record logged {
            arena = record a {
              space = record a.space {
                store = update a.space.store slab (record e { log = item });
              };
            };
            log = log;
          },
        ))
    ]

  unfoldable pub arena_slab_dalloc : ℕ → Tick → Collection → LoggedArena → ℕ → Option LoggedArena
  unfolding arena_extents_dirty_dalloc arena_add_log
  arena_slab_dalloc fuel tick gc logged slab = do
    assert (same_state (logged.arena.space.store slab).state ExtentState.active)
    l ← arena_extents_dirty_dalloc fuel tick logged slab
    (item, l') ← arena_add_log gc l free_log (l.arena.space.store slab).log null true
    some l'
