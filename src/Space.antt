-- ===== src/Space.antt =====
-- src/extent.c: the extents in the address space. The radix tree has for the first and last page of
-- an extent its `extent_t`, or for every page of a slab the `vslab_t`; extents are split and merged,
-- and pages of slabs registered and cleared.
pub mod Split
pub mod Merge
pub mod Register
pub mod Deregister
pub mod RegisterSlab
use nvalloc.Prelude.{
  ℕ, zero, suc, ◌+◌, ◌-◌, ◌*◌, ◌/◌, Bool, true, false, not, ◌&&◌, ◌||◌, Option, none, some,
  if◌then◌else◌, ltb, ◌==◌, ◌>>=◌, ◌>>◌, assert, update,
}
use nvalloc.Machine.{page_size}
use nvalloc.SizeClass.Table.{max_psz_idx}
use nvalloc.Log.{null}
use nvalloc.Containers.{ExtentTree, LeafElm}
use nvalloc.Extents.{Extent, ExtentState, Store, same_state}

abbrev pub extent_last_get : Extent → ℕ
extent_last_get extent = extent.e_addr + extent.size - page_size

abbrev pub extent_before_get : Extent → ℕ
extent_before_get extent = extent.e_addr - page_size

abbrev pub extent_past_get : Extent → ℕ
extent_past_get extent = extent.e_addr + extent.size

-- what `extent_init` writes; the field `log` keeps what the memory held
abbrev pub extent_init : Extent → ℕ → ℕ → ℕ → Bool → ℕ → ExtentState → Extent
extent_init extent arena addr size slab szind state = record extent {
  arena = arena;
  e_addr = addr;
  size = size;
  slab = slab;
  szind = szind;
  state = state;
}

-- what the assertions of `extent_split_impl` and `extent_register` say of an extent and its slab
abbrev pub slab_matches : Bool → ℕ → Bool
slab_matches slab vslab = (not slab && vslab == null) || (slab && not (vslab == null))

-- what is written to the elements of an extent, of which the last argument is the address
abbrev pub leaf_of : Bool → ℕ → ℕ → ℕ → LeafElm
leaf_of slab vslab szind extent = record {
  extent = if slab then vslab else extent;
  szind = szind;
  slab = slab;
}

-- what a cleared element holds
abbrev pub no_leaf : LeafElm
no_leaf = record { extent = null; szind = max_psz_idx; slab = false }

-- how often the loops run; the bound is `size_t`, and no extent is without a page
abbrev pub inner_pages : Extent → ℕ
inner_pages extent = extent.size / page_size - 2

module _ (tree : ExtentTree) where
  open tree use {Tree, init, has_leaf, read, write}

  pub record Space : Type 0 where
    pub store : Store
    pub rtree : Tree

  -- with `init_missing`: the tree, and whether both elements are there
  unfoldable pub leaf_elms_init : Tree → Extent → Tree × Bool
  leaf_elms_init rtree extent =
      let t = init rtree extent.e_addr in
      let t' = init t (extent_last_get extent) in
      if has_leaf t extent.e_addr then (t', has_leaf t' (extent_last_get extent)) else (t, false)

  -- without it: whether both are there
  abbrev pub leaf_elms_found : Tree → Extent → Bool
  leaf_elms_found rtree extent =
      has_leaf rtree extent.e_addr && has_leaf rtree (extent_last_get extent)

  abbrev pub extent_rtree_write_acquired : Tree → Extent → LeafElm → Tree
  extent_rtree_write_acquired rtree extent leaf =
      write (write rtree extent.e_addr leaf) (extent_last_get extent) leaf

  -- `trail` is the memory that `extent_alloc` returns, if any
  unfoldable pub extent_split_impl :
      Space → Option ℕ → ℕ → ℕ → ℕ → ℕ → Bool → ℕ → ℕ → Bool → ℕ → ℕ → Option (Option ℕ × Space)
  extent_split_impl space none arena extent size_a szind_a slab_a size_b szind_b slab_b vslab_a
        vslab_b =
      do
        assert ((space.store extent).size == size_a + size_b)
        assert (slab_matches slab_a vslab_a)
        assert (slab_matches slab_b vslab_b)
        some (none, space)
  extent_split_impl space (some trail) arena extent size_a szind_a slab_a size_b szind_b slab_b
        vslab_a vslab_b =
      do
        let old = space.store extent
        assert (old.size == size_a + size_b)
        assert (slab_matches slab_a vslab_a)
        assert (slab_matches slab_b vslab_b)
        let behind =
            extent_init (space.store trail) arena (old.e_addr + size_a) size_b slab_b szind_b
              old.state
        let lead = extent_init old arena old.e_addr size_a slab_a szind_a old.state
        let (t, lead_found) = leaf_elms_init space.rtree lead
        let (t', trail_found) = leaf_elms_init t behind
        let store = update space.store trail behind
        let failed : Space = record { store = store; rtree = t' }
        let split : Space = record {
          store = update store extent (record old { size = size_a; szind = szind_a });
          rtree =
              extent_rtree_write_acquired
                (extent_rtree_write_acquired t' lead (leaf_of slab_a vslab_a szind_a extent)) behind
                (leaf_of slab_b vslab_b szind_b trail);
        }
        some (if lead_found && trail_found then (some trail, split) else (none, failed))

  -- Both extents become `a`; the `extent_t` of `b` is freed.
  unfoldable pub extent_merge_impl : Space → ℕ → ℕ → Option Space
  extent_merge_impl space a b = do
    let left = space.store a
    let right = space.store b
    assert (ltb left.e_addr right.e_addr)
    assert (leaf_elms_found space.rtree left)
    assert (leaf_elms_found space.rtree right)
    let t = write (write space.rtree (extent_last_get left) no_leaf) right.e_addr no_leaf
    let merged = record left { size = left.size + right.size; szind = max_psz_idx }
    let leaf = leaf_of false null max_psz_idx a
    some (record {
      store = update space.store a merged;
      rtree = write (write t left.e_addr leaf) (extent_last_get right) leaf;
    })

  -- `rtree_write`: nothing is written where there is no memory for the leaf
  unfoldable pub rtree_write : Tree → ℕ → LeafElm → Option Tree
  rtree_write rtree addr leaf = do
    assert (not (leaf.extent == null))
    let t = init rtree addr
    let written : Option Tree = (do assert ((read t addr).extent == null); some (write t addr leaf))
    if has_leaf t addr then written else some t

  unfoldable pub rtree_clear : Tree → ℕ → Option Tree
  rtree_clear rtree addr = do
    assert (has_leaf rtree addr)
    assert (not ((read rtree addr).extent == null))
    some (write rtree addr no_leaf)

  -- the loops over the pages of a slab but the first and the last: `count` pages from `addr` on
  unfoldable pub write_pages : ℕ → Tree → ℕ → LeafElm → Option Tree
  write_pages zero rtree addr leaf = some rtree
  write_pages (suc count) rtree addr leaf = do
    t ← rtree_write rtree addr leaf
    write_pages count t (addr + page_size) leaf

  unfoldable pub clear_pages : ℕ → Tree → ℕ → Option Tree
  clear_pages zero rtree addr = some rtree
  clear_pages (suc count) rtree addr = do
    t ← rtree_clear rtree addr
    clear_pages count t (addr + page_size)

  unfoldable pub extent_replace_to_vslab : Space → ℕ → ℕ → Option Space
  extent_replace_to_vslab space extent vslab = do
    let e = space.store extent
    assert (leaf_elms_found space.rtree e)
    assert e.slab
    let leaf : LeafElm = record { extent = vslab; szind = e.szind; slab = e.slab }
    some (record space { rtree = extent_rtree_write_acquired space.rtree e leaf })

  -- With its own address for that of a slab the other function is `extent_replace_vslab`.
  abbrev pub extent_replace_vslab : Space → ℕ → Option Space
  extent_replace_vslab space extent = extent_replace_to_vslab space extent extent

  unfoldable pub extent_interior_register : Space → ℕ → ℕ → ℕ → Option Space
  extent_interior_register space extent szind vslab = do
    let e = space.store extent
    assert e.slab
    let leaf : LeafElm = record { extent = vslab; szind = szind; slab = true }
    t ← write_pages (inner_pages e) space.rtree (e.e_addr + page_size) leaf
    extent_replace_to_vslab (record space { rtree = t }) extent vslab

  -- whether it failed, for want of memory
  unfoldable pub extent_register_impl : Space → ℕ → ℕ → Option (Bool × Space)
  extent_register_impl space extent vslab =
      let e = space.store extent in
      let (t, found) = leaf_elms_init space.rtree e in
      let written : Space = record space {
        rtree = extent_rtree_write_acquired t e (leaf_of e.slab vslab e.szind extent);
      } in
      let registered : Option (Bool × Space) = (do
        assert (not e.slab || same_state e.state ExtentState.active)
        s ← (if e.slab then extent_interior_register written extent e.szind vslab else some written)
        some (false, s)) in
      if found then registered else some (true, record space { rtree = t })

  unfoldable pub extent_register : Space → ℕ → ℕ → Option (Bool × Space)
  extent_register space extent vslab =
      assert (slab_matches (space.store extent).slab vslab)
      >> extent_register_impl space extent vslab

  unfoldable pub extent_interior_deregister : Space → ℕ → Option Space
  extent_interior_deregister space extent = do
    let e = space.store extent
    assert e.slab
    t ← clear_pages (inner_pages e) space.rtree (e.e_addr + page_size)
    extent_replace_vslab (record space { rtree = t }) extent

  unfoldable pub extent_deregister : Space → ℕ → Option Space
  extent_deregister space extent = do
    let e = space.store extent
    assert (leaf_elms_found space.rtree e)
    let cleared : Space = record space { rtree = extent_rtree_write_acquired space.rtree e no_leaf }
    if e.slab
        then (do
          s ← extent_interior_deregister cleared extent
          some (record s {
            store = update s.store extent (record (s.store extent) { slab = false });
          }))
        else some cleared
