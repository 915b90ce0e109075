-- ===== src/Recycle.antt =====
-- src/extent.c: how an arena takes extents from an `extents_t`, cut to the pages asked for, and gives
-- them back, merged with their neighbours, and which it evicts. Code that runs under the mutex of
-- the `extents_t` is one step here.
pub mod Cut
pub mod Alloc
pub mod Chunks
pub mod Join
pub mod Coalesce
pub mod Evict
pub mod Oldest
pub mod Loose
pub mod Given
use nvalloc.Prelude.{
  ℕ, zero, suc, ◌+◌, ◌-◌, ◌*◌, ◌/◌, ◌%◌, Bool, true, false, not, ◌&&◌, ◌||◌, Option, none, some,
  if◌then◌else◌, ltb, leb, ◌==◌, ◌>>=◌, ◌>>◌, assert, update,
}
use nvalloc.Machine.{page_size, chunk_size, round_up}
use nvalloc.SizeClass.Table.{max_psz_idx, slab_scind}
use nvalloc.Log.{null}
use nvalloc.Containers.{ExtentHeap, ExtentList, ExtentTree, LeafElm}
use nvalloc.Extents.{
  Extent, ExtentState, Extents, Store, same_state, extent_state_set, extents_insert_locked,
  extents_remove_locked, extent_activate_locked, extent_deactivate_locked, extent_recycle_extract,
}
use nvalloc.Space.{
  Space, extent_split_impl, extent_merge_impl, extent_interior_register, extent_interior_deregister,
  extent_register, extent_init, extent_past_get, extent_before_get,
}

-- the loop of `n_muzzy_extent_can_evict`: `tempaddr` before the addition, what was counted and where
-- it starts
unfoldable pub count_chunks : ℕ → ℕ → ℕ → ℕ → ℕ → Option (ℕ × ℕ)
count_chunks zero tempaddr maxaddr ret start = none
count_chunks (suc fuel) tempaddr maxaddr ret start =
    let next = tempaddr + chunk_size in
    let rest = count_chunks fuel next maxaddr (ret + 1) (if ret == 0 then next else start) in
    if leb next maxaddr then rest else some (ret, start)

-- how many chunks, and the address stored in `*start`, where that is written
unfoldable pub n_muzzy_extent_can_evict : Extent → ℕ → Option (ℕ × ℕ)
n_muzzy_extent_can_evict extent start =
    let minaddr = extent.e_addr in
    let maxaddr = extent.e_addr + extent.size in
    assert (same_state extent.state ExtentState.muzzy)
    >> (if ltb extent.size chunk_size
        then some (0, start)
        else count_chunks (extent.size / chunk_size + 1) (round_up minaddr chunk_size) maxaddr 0
            start)

module _ (heap : ExtentHeap) (list : ExtentList) (tree : ExtentTree) where
  -- the memory and one `extents_t` of an arena
  pub record World : Type 0 where
    pub space : Space tree
    pub extents : Extents heap list

  abbrev pub extent_at : World → ℕ → Extent
  extent_at world extent = world.space.store extent

  abbrev pub write_extent : World → ℕ → Extent → World
  write_extent world extent e = record world {
    space = record world.space { store = update world.space.store extent e };
  }

  abbrev pub with_store : World → Store × Extents heap list → World
  with_store world (store, extents) = record {
    space = record world.space { store = store };
    extents = extents;
  }

  -- `rtree_szind_slab_update`
  unfoldable pub rtree_szind_slab_update : tree.Tree → ℕ → ℕ → Bool → Option tree.Tree
  rtree_szind_slab_update rtree addr szind slab = do
    assert (not slab || szind == slab_scind)
    some (tree.write rtree addr (record (tree.read rtree addr) { szind = szind; slab = slab }))

  -- The lead is always empty: its size is an address less itself. The result is the trail, if any;
  -- without memory for it the caller asserts that this does not happen.
  unfoldable pub extent_split_interior :
      Space tree → Option ℕ → ℕ → ℕ → ℕ → ℕ → Bool → ℕ → Option (Option ℕ × Space tree)
  extent_split_interior space memory arena extent vslab npages slab szind =
      let psize = npages * page_size in
      let e = space.store extent in
      let trailsize = e.size - psize in
      let cut : Option (Option ℕ × Space tree) = (do
        (trail, s) ←
            extent_split_impl tree space memory arena extent psize szind slab trailsize max_psz_idx
              false vslab null
        t ← trail
        some (some t, s)) in
      let updated : Option tree.Tree = (do
        t ← rtree_szind_slab_update space.rtree e.e_addr szind slab
        if slab && ltb page_size e.size
            then rtree_szind_slab_update t (extent_past_get e - page_size) szind slab
            else some t) in
      let whole : Option (Option ℕ × Space tree) = (do
        assert (szind == max_psz_idx || same_state e.state ExtentState.active)
        t ← (if szind == max_psz_idx then some space.rtree else updated)
        some (
          none,
          record { store = update space.store extent (record e { szind = szind }); rtree = t },
        )) in
      if leb psize e.size then (if trailsize == 0 then whole else cut) else none

  unfoldable pub extent_recycle_split : World → Option ℕ → ℕ → ℕ → ℕ → Bool → ℕ → ℕ → Option World
  extent_recycle_split world memory arena vslab npages slab szind extent = do
    (trail, s) ← extent_split_interior world.space memory arena extent vslab npages slab szind
    let split : World = record world { space = s }
    elim trail [
      | none ↦ some split
      | some t ↦ extent_deactivate_locked heap list s.store world.extents t arena >>= λ r.
          some (with_store split r)
    ]

  -- `memory` is what `extent_alloc` returns if the extent is split
  unfoldable pub extent_recycle :
      World → Option ℕ → ℕ → ℕ → ℕ → Bool → ℕ → Option (Option ℕ × World)
  extent_recycle world memory arena vslab npages slab szind = do
    (found, store, extents) ←
        extent_recycle_extract heap list world.space.store world.extents npages arena
    let taken = with_store world (store, extents)
    elim found [
      | none ↦ some (none, taken)
      | some extent ↦ (do
        w ← extent_recycle_split taken memory arena vslab npages slab szind extent
        assert (same_state (extent_at w extent).state ExtentState.active)
        let marked = write_extent w extent (record (extent_at w extent) { slab = slab })
        if slab
            then (do
              s ← extent_interior_register tree marked.space extent szind vslab
              some (some extent, record marked { space = s }))
            else some (some extent, w))
    ]

  unfoldable pub extents_alloc : World → Option ℕ → ℕ → ℕ → ℕ → Bool → ℕ → Option (Option ℕ × World)
  extents_alloc world memory arena vslab npages slab szind =
      assert (not (npages == 0)) >> extent_recycle world memory arena vslab npages slab szind

  -- An extent over given memory; its slab is registered as null.
  unfoldable pub extent_alloc_with_old_addr :
      Space tree → Option ℕ → ℕ → ℕ → ℕ → Bool → ℕ → Option (Option ℕ × Space tree)
  extent_alloc_with_old_addr space none arena new_addr npages slab szind =
      assert (not (new_addr == null)) >> some (none, space)
  extent_alloc_with_old_addr space (some extent) arena new_addr npages slab szind = do
    assert (not (new_addr == null))
    let e =
        extent_init (space.store extent) arena new_addr (npages * page_size) slab szind
          ExtentState.active
    (failed, s) ←
        extent_register tree (record space { store = update space.store extent e }) extent null
    some (if failed then none else some extent, s)
