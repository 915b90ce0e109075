-- ===== src/Recycle/Alloc.antt =====
-- `extents_alloc` for pages that are no slab's: the extent has the pages asked for, and what is left
-- of the one that it was cut from stays with the others.
use nvalloc.Prelude.{
  ℕ, ◌+◌, ◌*◌, ◌/◌, ◌≤◌, ◌<◌, ◌≡◌, ◌≢◌, refl, ap, ◌∙◌, true, false, some, none, arith, ◌==◌,
  update_self,
}
use native.Mathlib.Decide.{dec_le}
use nvalloc.Machine.{page_size}
use nvalloc.SizeClass.Pages.{most_pages}
use nvalloc.Log.{null}
use nvalloc.Containers.{ExtentHeap, ExtentList, ExtentTree}
use nvalloc.Extents.{Extent, ExtentState, Extents, Store, same_state}
use nvalloc.Extents.Inv.{pages_of, times, In, In-IsNearest, IsExtents}
use nvalloc.Extents.Fit.{IsBestFit}
use nvalloc.Extents.Extract.{IsExtracted, Extracted, extent_recycle_extract-IsExtracted, IsUnkept}
use nvalloc.Space.Split.{HasRoom}
use nvalloc.Recycle.{World, extent_at, extent_recycle, extents_alloc}
use nvalloc.Recycle.Cut.{Trimmed, recycle_split-Trimmed}

module _ {heap : ExtentHeap} {list : ExtentList} {tree : ExtentTree} (room : HasRoom tree)
    (w : World heap list tree) (t arena npages szind : ℕ) where
  -- the extent that was found, of class `i`, has `npages` pages now and is in use, the rest of it is
  -- among those not in use, and no page is lost
  pub record Allocated (i e : ℕ) (w' : World heap list tree) : Type 0 where
    pub result :
        extents_alloc heap list tree w (some t) arena null npages false szind ≡ some (some e, w')
    pub exact : (extent_at heap list tree w' e).size ≡ npages * page_size
    pub addr : (extent_at heap list tree w' e).e_addr ≡ (extent_at heap list tree w e).e_addr
    pub active : (extent_at heap list tree w' e).state ≡ ExtentState.active
    pub inv : IsExtents w'.space.store w'.extents
    pub gone : times e (list.items w'.extents.lru) ≡ 0
    pub pages : w'.extents.npages + npages ≡ w.extents.npages
    pub rest :
        npages < pages_of w.space.store e
        → (k : ℕ) × In w'.extents k t
          × ((extent_at heap list tree w' t).e_addr
              ≡ (extent_at heap list tree w e).e_addr + npages * page_size)

  pub data IsAllocated (is : IsExtents w.space.store w.extents) : Type 0 where
    found :
        (i e : ℕ) (w' : World heap list tree) → In w.extents i e → Allocated i e w' → IsAllocated is
    missing :
        extents_alloc heap list tree w (some t) arena null npages false szind ≡ some (none, w)
        → IsBestFit w.space.store w.extents is npages none
        → IsAllocated is

  module _ (is : IsExtents w.space.store w.extents) (pos : 0 < npages) (le : npages ≤ most_pages)
      (own : (i e : ℕ) → In w.extents i e → (w.space.store e).arena ≡ arena)
      (fresh : times t (list.items w.extents.lru) ≡ 0) where
    asked : (npages == 0) ≡ false
    asked = ground (arith, pos)

    -- the extent that was taken out
    module _ (i e : ℕ) (store' : Store) (x' : Extents heap list) (m : In w.extents i e)
        (ex : Extracted w.space.store w.extents arena i e store' x') where
      at_found : store' e ≡ record (w.space.store e) { state = ExtentState.active }
      at_found = ap (λ f. f e) ex.taken ∙ update_self w.space.store e _

      pages_found : pages_of store' e ≡ pages_of w.space.store e
      pages_found = ap (λ k. k.size / page_size) at_found

      loose_found : IsUnkept store' x' arena e
      loose_found =
          let k = is.kept i e m in
          let (not_large, _) = In-IsNearest w.space.store w.extents is i e m in
          record {
            own = ap Extent.arena at_found ∙ own i e m;
            active = ap Extent.state at_found;
            slab_not = ap Extent.slab at_found ∙ k.slab_not;
            size_pos = rw at_found k.size_pos;
            size_whole = rw at_found k.size_whole;
            not_large = omega (arith, pages_found, not_large);
            absent = ex.gone;
            room = omega (arith, pages_found, ex.pages, is.bounded);
          }

      still_fresh : times t (list.items x'.lru) ≡ 0
      still_fresh = elim (dec_le 1 (times t (list.items x'.lru))) [
        | no none_left ↦ omega arith
        | yes some_left ↦
            let (j, inside) = ex.inv.listed t some_left in
            let (ne, before) = ex.others j t inside in absurd (omega (arith, is.once j t before))
      ]

      apart : e ≢ t
      apart same =
          let q : times e (list.items w.extents.lru) ≡ times t (list.items w.extents.lru) =
            ap (λ k. times k (list.items w.extents.lru)) same in
          omega (arith, is.once i e m)

      cut :
          npages ≤ pages_of w.space.store e
          → (w' : World heap list tree) × Trimmed room
              (record { space = record w.space { store = store' }; extents = x' })
              t
              arena
              npages
              szind
              e
              w'
      cut enough =
          recycle_split-Trimmed room
            (record { space = record w.space { store = store' }; extents = x' }) t arena npages
            szind e pos (omega (arith, pages_found)) ex.inv loose_found still_fresh apart

    -- For a number of pages that some class has, `extents_alloc` returns: either an extent of
    -- exactly that many pages that is in use, at the address of one that was kept, with what is
    -- left of that one behind it and kept as extent `t`, the invariant holding and no page
    -- lost; or none and nothing changed, because no class that has the pages held an extent or
    -- merging is delayed and the first such class has more than 32 times the pages. All extents
    -- kept belong to the arena, `t` is memory that is not one of them, and there is memory for
    -- the tree.
    pub extents_alloc-IsAllocated : IsAllocated is
    unfolding extents_alloc extent_recycle
    extents_alloc-IsAllocated =
        elim (extent_recycle_extract-IsExtracted w.space.store w.extents arena is npages pos le
          own) [
            | IsExtracted.missing q b ↦ missing (rw (asked, q)) b
            | IsExtracted.found i e store' x' q m enough ex ↦
                let (w', c) = cut i e store' x' m ex enough in
                let at_e = at_found i e store' x' m ex in
                let p_e = pages_found i e store' x' m ex in
                let in_use : same_state (extent_at heap list tree w' e).state ExtentState.active
                    ≡ true =
                  rw c.active refl in
                found i e w' m (record {
                  result = rw (asked, q, c.result, in_use);
                  exact = c.exact;
                  addr = c.addr ∙ ap Extent.e_addr at_e;
                  active = c.active;
                  inv = c.inv;
                  gone = c.gone;
                  pages = omega (arith, c.pages, p_e, ex.pages);
                  rest = λ lt.
                      let (k, inside, addr, _) = c.rest (omega (arith, p_e)) in
                      (k, inside, addr ∙ ap (λ v. v.e_addr + npages * page_size) at_e);
                })
          ]
