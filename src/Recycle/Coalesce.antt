-- ===== src/Recycle/Coalesce.antt =====
-- src/extent.c: an extent that is given back is merged with its neighbours in the address space as
-- long as they are of the same arena and of the state of the `extents_t` that takes it.
use nvalloc.Prelude.{
  ℕ, zero, suc, Bool, true, false, not, ◌&&◌, ◌||◌, Option, none, some, if◌then◌else◌, ◌==◌, ◌>>=◌,
  ◌>>◌, assert,
}
use nvalloc.SizeClass.Table.{max_psz_idx}
use nvalloc.Log.{null}
use nvalloc.Containers.{ExtentHeap, ExtentList, ExtentTree}
use nvalloc.Extents.{ExtentState, same_state, extent_activate_locked, extent_deactivate_locked}
use nvalloc.Space.{
  extent_merge_impl, extent_interior_deregister, extent_past_get, extent_before_get,
}
use nvalloc.Recycle.{World, extent_at, write_extent, with_store}

module _ (heap : ExtentHeap) (list : ExtentList) (tree : ExtentTree) where
  -- the extent of the page of an address, or null
  unfoldable pub extent_lock_from_addr : tree.Tree → ℕ → Bool → ℕ
  extent_lock_from_addr rtree addr inactive_only =
      let leaf = tree.read rtree addr in
      if tree.has_leaf rtree addr && not (inactive_only && leaf.slab) then leaf.extent else null

  unfoldable pub extent_can_coalesce : World heap list tree → ℕ → ℕ → ℕ → Option Bool
  extent_can_coalesce world arena inner outer =
      let i = extent_at heap list tree world inner in
      let o = extent_at heap list tree world outer in
      let state = world.extents.state in
      assert (i.arena == arena)
      >> (if o.arena == arena
          then (assert (same_state i.state ExtentState.active) >> some (same_state o.state state))
          else some false)

  -- The merge never fails, so that the extent is not put back.
  unfoldable pub extent_coalesce :
      World heap list tree → ℕ → ℕ → ℕ → Bool → Option (World heap list tree)
  extent_coalesce world arena inner outer forward = do
    can ← extent_can_coalesce world arena inner outer
    assert can
    r ← extent_activate_locked heap list world.space.store world.extents outer arena
    let taken = with_store heap list tree world r
    s ←
        extent_merge_impl tree taken.space (if forward then inner else outer)
          (if forward then outer else inner)
    some (record taken { space = s })

  -- one side of a round: whether the neighbour, if there is one, was merged
  unfoldable pub join :
      World heap list tree → ℕ → ℕ → ℕ → Bool → Option (Bool × World heap list tree)
  join world arena inner outer forward =
      let merge : Option (Bool × World heap list tree) = (do
        can ← extent_can_coalesce world arena inner outer
        let merged : Option (Bool × World heap list tree) = (do
          w ← extent_coalesce world arena inner outer forward
          some (true, w))
        if can then merged else some (false, world)) in
      if outer == null then some (false, world) else merge

  -- `*coalesced`, the extent and the memory; without `delay_coalesce` the flag is not written
  unfoldable pub extent_try_coalesce_impl :
      ℕ → World heap list tree → ℕ → ℕ → Bool → Option (Bool × ℕ × World heap list tree)
  extent_try_coalesce_impl zero world arena extent inactive_only = none
  extent_try_coalesce_impl (suc fuel) world arena extent inactive_only = do
    let past = extent_past_get (extent_at heap list tree world extent)
    let next = extent_lock_from_addr world.space.rtree past inactive_only
    (joined, w) ← join world arena extent next true
    let before = extent_before_get (extent_at heap list tree w extent)
    let prev = extent_lock_from_addr w.space.rtree before inactive_only
    let back : Option (Bool × ℕ × World heap list tree) = (do
      (joined', w') ← join w arena extent prev false
      let extent' = if joined' then prev else extent
      let again = extent_try_coalesce_impl fuel w' arena extent' inactive_only
      if joined' && w'.extents.delay_coalesce
          then some (true, extent', w')
          else if joined || joined'
          then again
          else some (false, extent', w'))
    if joined && w.extents.delay_coalesce then some (true, extent, w) else back

  -- the loop of `extent_record` with `delay_coalesce`
  unfoldable pub coalesce_large :
      ℕ → ℕ → World heap list tree → ℕ → ℕ → Option (ℕ × World heap list tree)
  coalesce_large zero fuel world arena extent = none
  coalesce_large (suc rounds) fuel world arena extent = do
    assert (same_state (extent_at heap list tree world extent).state ExtentState.active)
    (coalesced, extent', w) ← extent_try_coalesce_impl fuel world arena extent true
    let again = coalesce_large rounds fuel w arena extent'
    if coalesced then again else some (extent', w)

  -- The assertion on the state assigns it.
  unfoldable pub extent_record : ℕ → World heap list tree → ℕ → ℕ → Option (World heap list tree)
  extent_record fuel world arena extent = do
    let e = extent_at heap list tree world extent
    let reset = write_extent heap list tree world extent (record e { szind = max_psz_idx })
    w ←
        (if e.slab
          then (do
            s ← extent_interior_deregister tree reset.space extent
            let w' : World heap list tree = record {
              space = s;
              extents = record reset.extents { state = ExtentState.dirty };
            }
            some (
                write_extent heap list tree w' extent
                  (record (extent_at heap list tree w' extent) { slab = false })))
          else some reset)
    assert ((tree.read w.space.rtree e.e_addr).extent == extent)
    (extent', w') ←
        (if w.extents.delay_coalesce then coalesce_large fuel fuel w arena extent else (do
          (flag, extent', w') ← extent_try_coalesce_impl fuel w arena extent false
          some (extent', w')))
    r ← extent_deactivate_locked heap list w'.space.store w'.extents extent' arena
    some (with_store heap list tree w' r)

  -- the check of `extents_dalloc`; the hole that it punches in the file of a muzzy extent is not
  -- modelled
  unfoldable pub extents_dalloc : ℕ → World heap list tree → ℕ → ℕ → Option (World heap list tree)
  extents_dalloc fuel world arena extent = do
    let e = extent_at heap list tree world extent
    assert (not (e.e_addr == null))
    assert (not (e.size == 0))
    assert (not (same_state world.extents.state ExtentState.muzzy) || not e.slab)
    extent_record fuel world arena extent
