-- ===== src/Recycle/Given.antt =====
-- `extents_dalloc` of a slab to extents that are merged late: it becomes an extent like any other, but both
-- of its ends still say that it is a slab's.
use nvalloc.Prelude.{
  ℕ, suc, ◌+◌, ◌/◌, ◌≡◌, refl, ap, ◌∙◌, Bool, true, false, ◌&&◌, some, [], ◌∷◌, ◌++◌, if◌then◌else◌,
  update_self,
}
use nvalloc.Machine.{page_size}
use nvalloc.Log.{null}
use nvalloc.Containers.{ExtentHeap, ExtentList, ExtentTree}
use nvalloc.Extents.{Extent, ExtentState, extent_state_set}
use nvalloc.Extents.Inv.{pages_of, In, IsExtents}
use nvalloc.Extents.Extract.{extent_deactivate_locked-Inserted}
use nvalloc.Space.{no_leaf, inner_pages}
use nvalloc.Space.Split.{at_end}
use nvalloc.Space.Register.{among}
use nvalloc.Space.Deregister.{extent_interior_deregister-Deregistered}
use nvalloc.Recycle.{World}
use nvalloc.Recycle.Loose.{
  IsSlab, reset, given, at_reset, reset-IsListed, at_given, given-IsExtents, pages_given, loose,
  recorded, read_end,
}
use nvalloc.Recycle.Coalesce.{extent_lock_from_addr, extents_dalloc}

if_same : (b : Bool) (a : ℕ) → (if b && false then a else null) ≡ null
if_same true a = refl
if_same false a = refl

module _ {heap : ExtentHeap} {list : ExtentList} {tree : ExtentTree} (w : World heap list tree)
    (arena e : ℕ) where
  abbrev old : Extent
  old = w.space.store e

  -- the slab that was given back
  pub record Given (i : ℕ) (w' : World heap list tree) : Type 0 where
    pub inv : IsExtents w'.space.store w'.extents
    pub added : In w'.extents i e
    pub plain : (w'.space.store e).slab ≡ false
    pub last : list.items w'.extents.lru ≡ list.items w.extents.lru ++ e ∷ []
    pub pages : w'.extents.npages ≡ w.extents.npages + pages_of w.space.store e
    pub log : (w'.space.store e).log ≡ old.log
    pub cleared :
        (p : ℕ)
        → at_end old p ≡ false
        → among (inner_pages old) (old.e_addr + page_size) p ≡ true
        → tree.read w'.space.rtree p ≡ no_leaf
    pub hidden :
        (p : ℕ)
        → at_end old p ≡ true
        → extent_lock_from_addr heap list tree w'.space.rtree p true ≡ null

  module _ (slab : IsSlab w arena e) where
    -- A slab whose neighbours cannot be merged with it is given back to the dirty extents of its arena,
    -- merged late: it becomes one of them, at the end of their list, with its pages counted, and the
    -- invariant holds. Its inner pages lead nowhere then, but its two ends still say that they are a
    -- slab's, so that the search for a neighbour that is not in use finds nothing there.
    pub extents_dalloc-Given :
        (fuel : ℕ)
        → (i : ℕ) × (w' : World heap list tree) × (extents_dalloc heap list tree
              (suc fuel)
              w
              arena
              e
            ≡ some w')
          × Given i w'
    unfolding extent_lock_from_addr
    extents_dalloc-Given fuel =
        let before = reset w arena e slab in
        let (s, d) =
          extent_interior_deregister-Deregistered tree before e (reset-IsListed w arena e slab) in
        let g = given w arena e slab s d in
        let (i, y, q, ins) =
          extent_deactivate_locked-Inserted g.space.store g.extents arena e
            (given-IsExtents w arena e slab s d) (loose w arena e slab s d) in
        let at_last =
          update_self g.space.store e (record (g.space.store e) { state = ExtentState.dirty }) in
        (
          i,
          record {
            space = record s { store = extent_state_set g.space.store e ExtentState.dirty };
            extents = y;
          },
          recorded w arena e slab s d fuel y q,
          record {
            inv = ins.inv;
            added = ins.added;
            plain = ap Extent.slab at_last ∙ ap Extent.slab (at_given w arena e slab s d);
            last = ins.last;
            pages =
                ins.pages
                ∙ ap (λ v. w.extents.npages + v.size / page_size) at_last
                ∙ ap (λ k. w.extents.npages + k) (pages_given w arena e slab s d);
            log = ap Extent.log at_last ∙ ap Extent.log (at_given w arena e slab s d);
            cleared = λ p no_end page.
                let no_end' : at_end (before.store e) p ≡ false =
                  ap (λ v. at_end v p) (at_reset w arena e slab) ∙ no_end in
                let page' : among (inner_pages (before.store e))
                      ((before.store e).e_addr + page_size) p
                    ≡ true =
                  ap (λ v. among (inner_pages v) (v.e_addr + page_size) p) (at_reset w arena e slab)
                  ∙ page in
                d.read p ∙ rw (no_end', page') refl;
            hidden = λ p here.
                rw (read_end w arena e slab s d p here) (if_same (tree.has_leaf s.rtree p) e);
          },
        )
