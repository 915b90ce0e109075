-- ===== src/Extents/Extract.antt =====
-- `extent_recycle_extract`: the extent that fits is taken out, and is in use from then on; and
-- `extent_deactivate_locked`, which puts one that was in use among the others.
use nvalloc.Prelude.{
  ℕ, ◌+◌, ◌%◌, ◌≤◌, ◌<◌, ◌≡◌, ◌≢◌, refl, ap, ◌∙◌, true, false, Option, some, none, arith, ◌==◌,
  update, update_other, update_self, get_elem_total,
}
use nvalloc.Machine.{page_size, u64_mod}
use nvalloc.SizeClass.Pages.{most_pages}
use nvalloc.Containers.{ExtentHeap, ExtentList}
use nvalloc.Extents.{
  Extent, ExtentState, Extents, Store, same_state, extent_state_set, extents_fit_locked,
  extents_best_fit_locked, extent_activate_locked, extent_deactivate_locked, extent_recycle_extract,
}
use nvalloc.Extents.Floor.{get_psizeclass_floor-IsNearest}
use nvalloc.Extents.Inv.{pages_of, times, IsKept, In, In-IsNearest, IsExtents, IsExtents-frame}
use nvalloc.Extents.Fit.{IsBestFit, extents_best_fit_locked-IsBestFit}
use nvalloc.Extents.Insert.{same_state_refl, Inserted, extents_insert_locked-Inserted}
use nvalloc.Extents.Remove.{extents_remove_locked-Removed}

module _ {heap : ExtentHeap} {list : ExtentList} where
  -- an extent of the list is none that is not in it
  pub absent-ne :
      (x : Extents heap list) (e e' : ℕ)
      → times e (list.items x.lru) ≡ 0
      → 0 < times e' (list.items x.lru)
      → e ≢ e'
  absent-ne x e e' gone pos same =
      let q : times e (list.items x.lru) ≡ times e' (list.items x.lru) =
        ap (λ k. times k (list.items x.lru)) same in
      omega arith

  -- An extent that is not in the list may change.
  pub IsExtents-update :
      (store : Store) (x : Extents heap list) (e : ℕ) (v : Extent)
      → IsExtents store x
      → times e (list.items x.lru) ≡ 0
      → IsExtents (update store e v) x
  IsExtents-update store x e v is gone =
      IsExtents-frame store (update store e v) x is
        (λ e' pos. update_other store e v e' (absent-ne x e e' gone pos))

module _ {heap : ExtentHeap} {list : ExtentList} (store : Store) (x : Extents heap list)
    (arena : ℕ) where
  -- what is left when extent `e` of class `i` is taken out
  pub record Extracted (i e : ℕ) (store' : Store) (x' : Extents heap list) : Type 0 where
    pub taken : store' ≡ extent_state_set store e ExtentState.active
    pub inv : IsExtents store' x'
    pub gone : times e (list.items x'.lru) ≡ 0
    pub pages : x'.npages + pages_of store e ≡ x.npages
    pub state : x'.state ≡ x.state
    pub others : (j e' : ℕ) → In x' j e' → (e ≢ e') × In x j e'

  module _ (is : IsExtents store x) where
    -- Taking out an extent that is kept removes it from its heap, the list and the count of
    -- pages, keeps the invariant and every other extent, and leaves it in use.
    pub extent_activate_locked-Extracted :
        (i e : ℕ)
        → In x i e
        → (store e).arena ≡ arena
        → (y : Extents heap list) × (extent_activate_locked heap list store x e arena
            ≡ some (extent_state_set store e ExtentState.active, y))
          × Extracted i e (extent_state_set store e ExtentState.active) y
    unfolding extent_activate_locked
    extent_activate_locked-Extracted i e m own =
        let (_, f) = In-IsNearest store x is i e m in
        let (y, r) = extents_remove_locked-Removed store x e i is m (omega (arith, f.last)) in
        let k = is.kept i e m in
        let state_ok : same_state (store e).state x.state ≡ true =
          rw k.state_is (same_state_refl x.state) in
        let own_ok : ((store e).arena == arena) ≡ true = ground (arith, own) in
        (
          y,
          rw (own_ok, state_ok, r.result),
          record {
            taken = refl;
            inv = IsExtents-update store y e _ r.inv r.gone;
            gone = r.gone;
            pages = r.pages;
            state = r.state;
            others = r.no_more;
          },
        )

    -- the outcome of taking an extent for `npages` pages
    pub data IsExtracted (npages : ℕ) : Type 0 where
      found :
          (i e : ℕ) (store' : Store) (x' : Extents heap list)
          → extent_recycle_extract heap list store x npages arena ≡ some (some e, store', x')
          → In x i e
          → npages ≤ pages_of store e
          → Extracted i e store' x'
          → IsExtracted npages
      missing :
          extent_recycle_extract heap list store x npages arena ≡ some (none, store, x)
          → IsBestFit store x is npages none
          → IsExtracted npages

    pub extent_recycle_extract-IsExtracted :
        (npages : ℕ)
        → 0 < npages
        → npages ≤ most_pages
        → ((i e : ℕ) → In x i e → (store e).arena ≡ arena)
        → IsExtracted npages
    unfolding extent_recycle_extract extents_fit_locked
    extent_recycle_extract-IsExtracted npages pos le own =
        let (r, q, b) = extents_best_fit_locked-IsBestFit store x is npages pos le in outcome r q b
      where
        outcome :
            (r : Option ℕ)
            → extents_best_fit_locked heap list x npages ≡ some r
            → IsBestFit store x is npages r
            → IsExtracted npages
        outcome _ q (IsBestFit.no_class clear) = missing (rw q) (IsBestFit.no_class clear)
        outcome _ q (IsBestFit.too_large i e m late large skipped) =
            missing (rw q) (IsBestFit.too_large i e m late large skipped)
        outcome _ q (IsBestFit.fit i e m enough skipped) =
            let (y, act, ex) = extent_activate_locked-Extracted i e m (own i e m) in
            found i e (extent_state_set store e ExtentState.active) y (rw (q, act)) m enough ex

-- an extent that may be put back: it is in use, whole pages, no slab's and not in the list
pub record IsUnkept {heap : ExtentHeap} {list : ExtentList} (store : Store) (x : Extents heap list)
    (arena e : ℕ) : Type 0 where
  pub own : (store e).arena ≡ arena
  pub active : (store e).state ≡ ExtentState.active
  pub slab_not : (store e).slab ≡ false
  pub size_pos : 0 < (store e).size
  pub size_whole : (store e).size % page_size ≡ 0
  pub not_large : pages_of store e ≤ most_pages
  pub absent : times e (list.items x.lru) ≡ 0
  pub room : x.npages + pages_of store e < u64_mod

module _ {heap : ExtentHeap} {list : ExtentList} (store : Store) (x : Extents heap list)
    (arena e : ℕ) where
  -- Putting back an extent of the arena that is in use, of whole pages and no more than the
  -- largest class has, adds it to the heap of its class, behind the others in the list and to
  -- the count of pages, and keeps the invariant and every other extent.
  pub extent_deactivate_locked-Inserted :
      IsExtents store x
      → IsUnkept store x arena e
      → (i : ℕ) × (y : Extents heap list) × (extent_deactivate_locked heap list store x e arena
          ≡ some (extent_state_set store e x.state, y))
        × Inserted (extent_state_set store e x.state) x e i y
  unfolding extent_deactivate_locked
  extent_deactivate_locked-Inserted is loose =
      let set_e = update_self store e (record (store e) { state = x.state }) in
      let (i, f) =
        get_psizeclass_floor-IsNearest (pages_of store e)
          (omega (arith, loose.size_pos, loose.size_whole)) loose.not_large in
      let (h, at) = get_elem_total x.heaps i (omega (arith, is.all_heaps, f.last)) in
      let may : IsKept (extent_state_set store e x.state) x.state i e = record {
        state_is = ap Extent.state set_e;
        slab_not = ap Extent.slab set_e ∙ loose.slab_not;
        size_pos = rw set_e loose.size_pos;
        size_whole = rw set_e loose.size_whole;
        floor = rw set_e f.result;
      } in
      let room : x.npages + pages_of (extent_state_set store e x.state) e < u64_mod =
        rw set_e loose.room in
      let (y, r) =
        extents_insert_locked-Inserted (extent_state_set store e x.state) x e i
          (IsExtents-update store x e (record (store e) { state = x.state }) is loose.absent) may
          (omega (arith, f.last)) loose.absent room h at in
      let own_ok : ((store e).arena == arena) ≡ true = ground (arith, loose.own) in
      let active_ok : same_state (store e).state ExtentState.active ≡ true = rw loose.active refl in
      (i, y, rw (own_ok, active_ok, r.result), r)
