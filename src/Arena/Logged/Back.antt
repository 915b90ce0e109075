-- ===== src/Arena/Logged/Back.antt =====
-- A slab that was made from new memory is given back: its pages are kept by the arena then.
use nvalloc.Prelude.{
  ℕ, suc, ◌+◌, ◌-◌, ◌*◌, ◌/◌, ◌<◌, ◌≤◌, ◌≡◌, ◌≢◌, ◌⊎◌, inl, inr, refl, sym, ap, ◌∙◌, Bool, true,
  false, not, ◌&&◌, ◌||◌, Option, some, [], ◌∷◌, ◌++◌, arith, if◌then◌else◌, ◌==◌, Bool-cases,
  update_other,
}
use mathlib.Core.Path.{subst}
use nvalloc.Machine.{page_size}
use nvalloc.SizeClass.Table.{slab_scind}
use nvalloc.Log.{ChunkTree, null}
use nvalloc.Containers.{ExtentHeap, ExtentList, ExtentTree, LeafElm}
use nvalloc.Extents.{Extent, ExtentState}
use nvalloc.Extents.Inv.{total_pages, times, IsExtents}
use nvalloc.Extents.Extract.{IsExtents-update}
use nvalloc.Space.{Space, no_leaf, inner_pages, leaf_elms_found, extent_past_get, extent_before_get}
use nvalloc.Space.Split.{HasRoom, at_end}
use nvalloc.Space.Register.{among}
use nvalloc.Space.RegisterSlab.{RegisteredSlab, extent_register-RegisteredSlab}
use nvalloc.Space.Deregister.{Leads, IsListed}
use nvalloc.Recycle.{World}
use nvalloc.Recycle.Coalesce.{extent_lock_from_addr, extents_dalloc}
use nvalloc.Recycle.Oldest.{joins}
use nvalloc.Recycle.Loose.{IsSlab, outside}
use nvalloc.Recycle.Given.{extents_dalloc-Given}
use nvalloc.Arena.{Arena}
use nvalloc.Arena.Logged.{LoggedArena, slab_extent}
use nvalloc.Arena.Logged.Fresh.{HasMemory, made, with_made, at_made, fresh, extent_result}

and_none : (a b : Bool) → (a && (b && false)) ≡ false
and_none true true = refl
and_none true false = refl
and_none false b = refl

or_true : (b : Bool) → (b || true) ≡ true
or_true true = refl
or_true false = refl

module _ {heap : ExtentHeap} {list : ExtentList} {tree : ExtentTree} {chunks : ChunkTree}
    (room : HasRoom tree) (logged : LoggedArena heap list tree chunks)
    (slab k size vslab mapped : ℕ) (memory_left : Option ℕ) where
  abbrev a : Arena heap list tree
  a = logged.arena

  abbrev made_slab : Extent
  made_slab = made room logged slab k size vslab mapped memory_left

  -- the dirty extents of the arena
  abbrev pub before_slab : World heap list tree
  before_slab = record { space = a.space; extents = a.extents_dirty }

  -- what leads to the pages on both sides of the new ones cannot be merged with them
  pub record IsApart : Type 0 where
    pub dirty : a.extents_dirty.state ≡ ExtentState.dirty
    pub delayed : a.extents_dirty.delay_coalesce ≡ true
    pub above : page_size ≤ a.memory_new
    pub past :
        joins before_slab a.self
          (tree.read a.space.rtree (a.memory_new + size / page_size * page_size)).extent
        ≡ false
    pub before :
        joins before_slab a.self (tree.read a.space.rtree (a.memory_new - page_size)).extent ≡ false

  module _ (is : HasMemory logged slab k size vslab) (apart : IsApart) (s : Space tree)
      (r : RegisteredSlab tree room
        (with_made room logged slab k size vslab mapped memory_left is)
        slab
        vslab
        s) where
    at_slab : s.store slab ≡ made_slab
    at_slab = ap (λ f. f slab) r.store ∙ at_made room logged slab k size vslab mapped memory_left is

    -- the dirty extents when the slab was made
    abbrev with_slab : World heap list tree
    with_slab = record { space = s; extents = a.extents_dirty }

    none_listed : times slab (list.items a.extents_dirty.lru) ≡ 0
    none_listed = rw is.no_dirty refl

    no_pages : a.extents_dirty.npages ≡ 0
    no_pages = is.dirty.counted ∙ ap (total_pages a.space.store) is.no_dirty

    with_slab-IsExtents : IsExtents s.store a.extents_dirty
    with_slab-IsExtents =
        subst (λ f. IsExtents f a.extents_dirty) (sym r.store)
          (IsExtents-update a.space.store a.extents_dirty slab made_slab is.dirty none_listed)

    still_apart : (o : ℕ) → joins before_slab a.self o ≡ false → joins with_slab a.self o ≡ false
    still_apart o alone = elim (Bool-cases (slab == o)) [
      | inl same ↦
          let here : slab ≡ o = ground arith in
          let active : (s.store o).state ≡ ExtentState.active =
            ap (λ i. (s.store i).state) (sym here) ∙ ap Extent.state at_slab in
          rw (active, apart.dirty) (and_none (not (o == null)) ((s.store o).arena == a.self))
      | inr other ↦
          let ne : slab ≢ o = λ here. ground arith in
          let same : s.store o ≡ a.space.store o =
            ap (λ f. f o) r.store ∙ update_other a.space.store slab made_slab o ne in
          rw same alone
    ]

    read_with_slab :
        (p : ℕ)
        → tree.read s.rtree p ≡ (
            if at_end made_slab p || among (inner_pages made_slab) (made_slab.e_addr + page_size) p
            then record { extent = vslab; szind = slab_scind; slab = true }
            else tree.read a.space.rtree p)
    read_with_slab p =
        r.read p
        ∙ ap
            (λ e.
              if at_end e p || among (inner_pages e) (e.e_addr + page_size) p
              then record { extent = vslab; szind = e.szind; slab = true }
              else tree.read a.space.rtree p)
            (at_made room logged slab k size vslab mapped memory_left is)

    lock_apart :
        (p : ℕ)
        → ((p < made_slab.e_addr) ⊎ (made_slab.e_addr + made_slab.size ≤ p))
        → joins before_slab a.self (tree.read a.space.rtree p).extent ≡ false
        → joins with_slab a.self (extent_lock_from_addr heap list tree s.rtree p true) ≡ false
    unfolding extent_lock_from_addr
    lock_apart p out alone =
        let (no_end, no_page) =
          outside made_slab p (omega (arith, is.positive, is.whole)) (omega arith) out in
        let same : tree.read s.rtree p ≡ tree.read a.space.rtree p =
          read_with_slab p ∙ rw (no_end, no_page) refl in
        let still : joins with_slab a.self (tree.read s.rtree p).extent ≡ false =
          still_apart _ (ap (λ l. joins before_slab a.self l.extent) same ∙ alone) in
        elim (Bool-cases (tree.has_leaf s.rtree p && not (true && (tree.read s.rtree p).slab))) [
          | inl seen ↦ rw seen still
          | inr unseen ↦ rw unseen refl
        ]

    leads : Leads tree s.rtree (inner_pages made_slab) (made_slab.e_addr + page_size)
    leads p page =
        let at = at_made room logged slab k size vslab mapped memory_left is in
        let to_slab : (tree.read s.rtree p).extent ≡ vslab =
          ap LeafElm.extent (read_with_slab p) ∙ rw (page, or_true (at_end made_slab p)) refl in
        (
          r.inner p (ap (λ e. among (inner_pages e) (e.e_addr + page_size) p) at ∙ page),
          λ none_there. is.real (sym to_slab ∙ none_there),
        )

    listed : IsListed tree s slab
    listed =
        let at = at_made room logged slab k size vslab mapped memory_left is in
        record {
          slab = ap Extent.slab at_slab;
          ends = ap (leaf_elms_found tree s.rtree) (at_slab ∙ sym at) ∙ r.ends;
          inner =
              subst (λ e. Leads tree s.rtree (inner_pages e) (e.e_addr + page_size)) (sym at_slab)
                leads;
        }

    with_slab-IsSlab : IsSlab with_slab a.self slab
    with_slab-IsSlab =
        let pages : (s.store slab).size ≡ size / page_size * page_size = ap Extent.size at_slab in
        record {
          is = with_slab-IsExtents;
          dirty = apart.dirty;
          delayed = apart.delayed;
          listed = listed;
          own = ap Extent.arena at_slab;
          active = ap Extent.state at_slab;
          real = rw at_slab apart.above;
          size_pos = omega (arith, pages, is.positive, is.whole);
          size_whole = omega (arith, pages);
          not_large = omega (arith, pages, is.most);
          absent = none_listed;
          room = omega (arith, pages, is.most, no_pages);
          past =
              ap
                (λ e.
                  joins with_slab a.self
                    (extent_lock_from_addr heap list tree s.rtree (extent_past_get e) true))
                at_slab
              ∙ lock_apart _ (inr (omega arith)) apart.past;
          before =
              ap
                (λ e.
                  joins with_slab a.self
                    (extent_lock_from_addr heap list tree s.rtree (extent_before_get e) true))
                at_slab
              ∙ lock_apart _ (inl (omega (arith, apart.above))) apart.before;
        }

  -- Where an arena keeps no extents, dirty ones are merged late, the pages left of its chunk suffice for a
  -- slab that is not null, there is memory for its extent and the tree, its inner pages lead nowhere and no
  -- extent beside them can be merged, the slab is made from their front, and giving it back succeeds: the dirty extents
  -- are the one extent then, with the pages of the slab, and their invariant holds; its inner pages lead
  -- nowhere again.
  pub extents_dalloc-slab_extent :
      HasMemory logged slab k size vslab
      → IsApart
      → (fuel : ℕ)
      → (s : Space tree) × (w : World heap list tree) × (slab_extent heap list tree chunks a
            (some slab)
            memory_left
            mapped
            size
            vslab
          ≡ some (
            some slab,
            record a {
              memory_new = a.memory_new + size / page_size * page_size;
              npage_new = a.npage_new - size / page_size;
              space = s;
            },
          ))
        × (extents_dalloc heap list tree
              (suc fuel)
              (record { space = s; extents = a.extents_dirty })
              a.self
              slab
            ≡ some w)
        × IsExtents w.space.store w.extents
        × (list.items w.extents.lru ≡ slab ∷ [])
        × (w.extents.npages ≡ size / page_size)
        × ((p : ℕ)
            → at_end made_slab p ≡ false
            → among (inner_pages made_slab) (made_slab.e_addr + page_size) p ≡ true
            → tree.read w.space.rtree p ≡ no_leaf)
  extents_dalloc-slab_extent is apart fuel =
      let (s, r) =
        extent_register-RegisteredSlab tree room
          (with_made room logged slab k size vslab mapped memory_left is) slab vslab
          (fresh room logged slab k size vslab mapped memory_left is) in
      let (i, w, result, given) =
        extents_dalloc-Given (with_slab is apart s r) a.self slab (with_slab-IsSlab is apart s r)
          fuel in
      let at = at_slab is apart s r in
      let pages : (s.store slab).size ≡ size / page_size * page_size = ap Extent.size at in
      let none_before : a.extents_dirty.npages ≡ 0 = no_pages is apart s r in
      (
        s,
        w,
        extent_result room logged slab k size vslab mapped memory_left is s r.result,
        result,
        given.inv,
        given.last ∙ ap (λ l. l ++ slab ∷ []) is.no_dirty,
        omega (arith, given.pages, pages, none_before),
        λ p no_end page.
            given.cleared p (ap (λ e. at_end e p) at ∙ no_end)
              (ap (λ e. among (inner_pages e) (e.e_addr + page_size) p) at ∙ page),
      )
