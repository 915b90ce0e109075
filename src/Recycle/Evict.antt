-- ===== src/Recycle/Evict.antt =====
-- src/extent.c: which extent `extents_evict` takes from an `extents_t` that has more pages than it may
-- keep: of the dirty ones the first that no neighbour can be merged with, of the muzzy ones the whole
-- chunks of the first that has any.
use nvalloc.Prelude.{
  ℕ, zero, suc, ◌-◌, ◌*◌, ◌%◌, Bool, true, false, not, Option, none, some, if◌then◌else◌, ltb, leb,
  ◌==◌, ◌>>=◌, ◌>>◌, assert,
}
use nvalloc.Machine.{chunk_size, round_up}
use nvalloc.SizeClass.Table.{max_psz_idx}
use nvalloc.Log.{null}
use nvalloc.Containers.{ExtentHeap, ExtentList, ExtentTree}
use nvalloc.Extents.{ExtentState, same_state, extents_insert_locked, extents_remove_locked}
use nvalloc.Space.{extent_split_impl}
use nvalloc.Recycle.{World, extent_at, write_extent, n_muzzy_extent_can_evict}
use nvalloc.Recycle.Coalesce.{extent_try_coalesce_impl}

module _ (heap : ExtentHeap) (list : ExtentList) (tree : ExtentTree) where
  -- the flag is that nothing was merged; otherwise the extent is among the others again
  unfoldable pub extent_try_delayed_coalesce :
      ℕ → World heap list tree → ℕ → ℕ → Option (Bool × World heap list tree)
  extent_try_delayed_coalesce fuel world arena extent = do
    let e = extent_at heap list tree world extent
    let w = write_extent heap list tree world extent (record e { state = ExtentState.active })
    (coalesced, extent', w') ← extent_try_coalesce_impl heap list tree fuel w arena extent false
    let e' = extent_at heap list tree w' extent'
    let w'' = write_extent heap list tree w' extent' (record e' { state = w'.extents.state })
    let inserted : Option (Bool × World heap list tree) = (do
      x ← extents_insert_locked heap list w''.space.store w''.extents extent'
      some (false, record w'' { extents = x }))
    if coalesced then inserted else some (true, w'')

  -- behind `label_break`: the extent is in use
  unfoldable pub evicted : World heap list tree → ℕ → Option (Option ℕ × World heap list tree)
  evicted world extent = do
    assert (not (same_state world.extents.state ExtentState.active))
    let e = extent_at heap list tree world extent
    some (
      some extent,
      write_extent heap list tree world extent (record e { state = ExtentState.active }),
    )

  -- the loop with `delay_coalesce`
  unfoldable pub evict_delayed :
      ℕ → ℕ → World heap list tree → ℕ → ℕ → Option (Option ℕ × World heap list tree)
  evict_delayed zero fuel world arena npages_min = none
  evict_delayed (suc rounds) fuel world arena npages_min = elim (list.first world.extents.lru) [
    | none ↦ some (none, world)
    | some extent ↦
        let evict : Option (Option ℕ × World heap list tree) = (do
          x ← extents_remove_locked heap list world.space.store world.extents extent
          (alone, w) ← extent_try_delayed_coalesce fuel (record world { extents = x }) arena extent
          let again = evict_delayed rounds fuel w arena npages_min
          if alone then evicted w extent else again) in
        if leb world.extents.npages npages_min then some (none, world) else evict
  ]

  -- the part of an extent behind `size_a` bytes is cut off; without memory the program aborts
  unfoldable pub cut_off :
      World heap list tree → Option ℕ → ℕ → ℕ → ℕ → ℕ → Option (ℕ × World heap list tree)
  cut_off world memory arena extent size_a size_b = do
    let e = extent_at heap list tree world extent
    (trail, s) ←
        extent_split_impl tree world.space memory arena extent size_a e.szind e.slab size_b e.szind
          e.slab null null
    t ← trail
    assert ((s.store t).szind == max_psz_idx)
    some (t, record world { space = s })

  -- the chunks that were counted, with what is in front of and behind them put back
  unfoldable pub evict_chunks :
      World heap list tree
      → Option ℕ
      → Option ℕ
      → ℕ
      → ℕ
      → ℕ
      → ℕ
      → Option (Option ℕ × World heap list tree)
  evict_chunks world memory_b memory_c arena extent nevict start = do
    x ← extents_remove_locked heap list world.space.store world.extents extent
    let removed : World heap list tree = record world { extents = x }
    let e = extent_at heap list tree removed extent
    let lead : Option (ℕ × World heap list tree) = (do
      assert (e.szind == max_psz_idx)
      (b, w) ←
          cut_off removed memory_b arena extent (start - e.e_addr) (e.size - (start - e.e_addr))
      y ← extents_insert_locked heap list w.space.store w.extents extent
      some (b, record w { extents = y }))
    (extent', w') ← (if start == e.e_addr then some (extent, removed) else lead)
    let e' = extent_at heap list tree w' extent'
    let trail : Option (World heap list tree) = (do
      (c, w) ← cut_off w' memory_c arena extent' (chunk_size * nevict) (e'.size % chunk_size)
      y ← extents_insert_locked heap list w.space.store w.extents c
      some (record w { extents = y }))
    w'' ← (if e'.size % chunk_size == 0 then some w' else trail)
    let e'' = extent_at heap list tree w'' extent'
    assert (e''.size == chunk_size * nevict)
    assert (e''.e_addr == round_up e''.e_addr chunk_size)
    assert (same_state e''.state ExtentState.muzzy)
    evicted w'' extent'

  -- the `for` over the list, at an extent
  unfoldable pub evict_from :
      ℕ
      → World heap list tree
      → Option ℕ
      → Option ℕ
      → ℕ
      → Option ℕ
      → ℕ
      → Option (Option ℕ × World heap list tree)
  evict_from zero world memory_b memory_c arena at start = none
  evict_from (suc rounds) world memory_b memory_c arena none start = some (none, world)
  evict_from (suc rounds) world memory_b memory_c arena (some extent) start = do
    (nevict, start') ← n_muzzy_extent_can_evict (extent_at heap list tree world extent) start
    let next =
        evict_from rounds world memory_b memory_c arena (list.next world.extents.lru extent) start'
    if nevict == 0 then next else evict_chunks world memory_b memory_c arena extent nevict start'

  -- The count of pages is compared with the bytes of a chunk.
  unfoldable pub extents_evict :
      ℕ
      → ℕ
      → World heap list tree
      → Option ℕ
      → Option ℕ
      → ℕ
      → ℕ
      → Option (Option ℕ × World heap list tree)
  extents_evict rounds fuel world memory_b memory_c arena npages_min =
      let npages = world.extents.npages in
      let first = list.first world.extents.lru in
      let muzzy : Option (Option ℕ × World heap list tree) =
        if ltb npages chunk_size
        then some (none, world)
        else evict_from rounds world memory_b memory_c arena first null in
      let few = leb npages npages_min in
      if world.extents.delay_coalesce
      then evict_delayed rounds fuel world arena npages_min
      else elim first [
        | none ↦ some (none, world)
        | some extent ↦ (if few then some (none, world) else muzzy)
      ]
