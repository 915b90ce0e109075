-- ===== src/Recycle/Join.antt =====
-- `extent_coalesce` takes the neighbour from those not in use and makes one extent of both.
use nvalloc.Prelude.{
  ℕ, ◌+◌, ◌<◌, ◌≡◌, ◌≢◌, refl, sym, ap, ◌∙◌, Bool, true, false, some, arith, ◌==◌, update_other,
  update_self,
}
use native.Mathlib.Decide.{dec_le}
use nvalloc.SizeClass.Table.{max_psz_idx}
use nvalloc.Containers.{ExtentHeap, ExtentList, ExtentTree, LeafElm}
use nvalloc.Extents.{Extent, ExtentState, Extents, Store, same_state, extent_state_set}
use nvalloc.Extents.Inv.{pages_of, times, In, IsExtents}
use nvalloc.Extents.Insert.{same_state_refl}
use nvalloc.Extents.Extract.{IsExtents-update, Extracted, extent_activate_locked-Extracted}
use nvalloc.Space.{Space, leaf_elms_found}
use nvalloc.Space.Merge.{extent_merge_impl-Merged}
use nvalloc.Recycle.{World, extent_at}
use nvalloc.Recycle.Coalesce.{extent_can_coalesce, extent_coalesce}

module _ {heap : ExtentHeap} {list : ExtentList} {tree : ExtentTree} (w : World heap list tree)
    (arena inner outer i : ℕ) where
  -- `inner` is in use and `outer`, of class `i`, is not; both belong to the arena and are in the tree
  pub record AreNeighbours : Type 0 where
    pub inv : IsExtents w.space.store w.extents
    pub kept : In w.extents i outer
    pub own_inner : (extent_at heap list tree w inner).arena ≡ arena
    pub own_outer : (extent_at heap list tree w outer).arena ≡ arena
    pub active : (extent_at heap list tree w inner).state ≡ ExtentState.active
    pub absent : times inner (list.items w.extents.lru) ≡ 0
    pub found_inner : leaf_elms_found tree w.space.rtree (extent_at heap list tree w inner) ≡ true
    pub found_outer : leaf_elms_found tree w.space.rtree (extent_at heap list tree w outer) ≡ true

  -- what is left, with `a` the extent that both became and `b` the one behind it
  pub record Coalesced (forward : Bool) (a b : ℕ) (w' : World heap list tree) : Type 0 where
    pub result : extent_coalesce heap list tree w arena inner outer forward ≡ some w'
    pub size :
        (extent_at heap list tree w' a).size
        ≡ (extent_at heap list tree w a).size + (extent_at heap list tree w b).size
    pub addr : (extent_at heap list tree w' a).e_addr ≡ (extent_at heap list tree w a).e_addr
    pub active : (extent_at heap list tree w' a).state ≡ ExtentState.active
    pub inv : IsExtents w'.space.store w'.extents
    pub gone : times outer (list.items w'.extents.lru) ≡ 0
    pub pages : w'.extents.npages + pages_of w.space.store outer ≡ w.extents.npages
    pub leads : (tree.read w'.space.rtree (extent_at heap list tree w a).e_addr).extent ≡ a

  module _ (near : AreNeighbours) where
    apart : inner ≢ outer
    apart same =
        let q : times inner (list.items w.extents.lru) ≡ times outer (list.items w.extents.lru) =
          ap (λ k. times k (list.items w.extents.lru)) same in
        omega (arith, near.inv.once i outer near.kept, near.absent)

    can : extent_can_coalesce heap list tree w arena inner outer ≡ some true
    unfolding extent_can_coalesce
    can =
        let kept = near.inv.kept i outer near.kept in
        let own_i : ((extent_at heap list tree w inner).arena == arena) ≡ true =
          ground (arith, near.own_inner) in
        let own_o : ((extent_at heap list tree w outer).arena == arena) ≡ true =
          ground (arith, near.own_outer) in
        let is_active : same_state (extent_at heap list tree w inner).state ExtentState.active
            ≡ true =
          rw near.active refl in
        let is_state : same_state (extent_at heap list tree w outer).state w.extents.state ≡ true =
          rw kept.state_is (same_state_refl w.extents.state) in
        rw (own_i, own_o, is_active, is_state)

    -- the memory when `outer` is in use
    abbrev store' : Store
    store' = extent_state_set w.space.store outer ExtentState.active

    abbrev space' : Space tree
    space' = record w.space { store = store' }

    at_outer : store' outer ≡ record (w.space.store outer) { state = ExtentState.active }
    at_outer = update_self w.space.store outer _

    at_inner : store' inner ≡ w.space.store inner
    at_inner = update_other w.space.store outer _ inner (λ same. apart (sym same))

    still_absent :
        (y : Extents heap list)
        → Extracted w.space.store w.extents arena i outer store' y
        → times inner (list.items y.lru) ≡ 0
    still_absent y ex = elim (dec_le 1 (times inner (list.items y.lru))) [
      | no none_left ↦ omega arith
      | yes some_left ↦
          let (j, inside) = ex.inv.listed inner some_left in
          let (ne, before) = ex.others j inner inside in
          absurd (omega (arith, near.inv.once j inner before, near.absent))
    ]

    found_o : leaf_elms_found tree w.space.rtree (store' outer) ≡ true
    found_o = rw at_outer near.found_outer

    found_i : leaf_elms_found tree w.space.rtree (store' inner) ≡ true
    found_i = rw at_inner near.found_inner

    -- Merging an extent in use with the one behind it, which is kept, takes that one out and
    -- makes one extent of both sizes, in use and found at its first page; the invariant holds,
    -- and the count of pages falls by those of the one taken.
    pub coalesce_forward :
        (extent_at heap list tree w inner).e_addr < (extent_at heap list tree w outer).e_addr
        → (w' : World heap list tree) × Coalesced true inner outer w'
    unfolding extent_coalesce
    coalesce_forward lt =
        let (y, act, ex) =
          extent_activate_locked-Extracted w.space.store w.extents arena near.inv i outer near.kept
            near.own_outer in
        let (s, m) =
          extent_merge_impl-Merged tree space' inner outer (rw (at_inner, at_outer) lt) found_i
            found_o in
        let at_a : s.store inner ≡ record (store' inner) {
          size = (store' inner).size + (store' outer).size;
          szind = max_psz_idx;
        } =
          rw m.store (update_self store' inner _) in
        (
          record { space = s; extents = y },
          record {
            result = rw (can, act, m.result);
            size = ap Extent.size at_a ∙ rw (at_inner, at_outer) refl;
            addr = ap Extent.e_addr at_a ∙ ap Extent.e_addr at_inner;
            active = ap Extent.state at_a ∙ ap Extent.state at_inner ∙ near.active;
            inv = rw m.store (IsExtents-update store' y inner _ ex.inv (still_absent y ex));
            gone = ex.gone;
            pages = ex.pages;
            leads =
                ap LeafElm.extent
                  (ap (λ k. tree.read s.rtree k.e_addr) (sym at_inner) ∙ m.first_page);
          },
        )

    pub coalesce_backward :
        (extent_at heap list tree w outer).e_addr < (extent_at heap list tree w inner).e_addr
        → (w' : World heap list tree) × Coalesced false outer inner w'
    unfolding extent_coalesce
    coalesce_backward lt =
        let (y, act, ex) =
          extent_activate_locked-Extracted w.space.store w.extents arena near.inv i outer near.kept
            near.own_outer in
        let (s, m) =
          extent_merge_impl-Merged tree space' outer inner (rw (at_inner, at_outer) lt) found_o
            found_i in
        let at_a : s.store outer ≡ record (store' outer) {
          size = (store' outer).size + (store' inner).size;
          szind = max_psz_idx;
        } =
          rw m.store (update_self store' outer _) in
        (
          record { space = s; extents = y },
          record {
            result = rw (can, act, m.result);
            size = ap Extent.size at_a ∙ rw (at_inner, at_outer) refl;
            addr = ap Extent.e_addr at_a ∙ ap Extent.e_addr at_outer;
            active = ap Extent.state at_a ∙ ap Extent.state at_outer;
            inv = rw m.store (IsExtents-update store' y outer _ ex.inv ex.gone);
            gone = ex.gone;
            pages = ex.pages;
            leads =
                ap LeafElm.extent
                  (ap (λ k. tree.read s.rtree k.e_addr) (sym at_outer) ∙ m.first_page);
          },
        )
