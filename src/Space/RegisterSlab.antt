-- ===== src/Space/RegisterSlab.antt =====
-- `extent_register` of a slab: from then on each of its pages leads to it.
use nvalloc.Prelude.{
  ℕ, ◌+◌, ◌≡◌, ◌≢◌, refl, ap, ◌∙◌, Bool, true, false, ◌||◌, not, some, arith, if◌then◌else◌, ◌==◌,
}
use nvalloc.Machine.{page_size}
use nvalloc.Log.{null}
use nvalloc.Containers.{ExtentTree, LeafElm}
use nvalloc.Extents.{Extent, ExtentState, same_state}
use nvalloc.Space.{
  Space, leaf_elms_init, leaf_elms_found, extent_rtree_write_acquired, extent_last_get, leaf_of,
  slab_matches, inner_pages, extent_register, extent_register_impl,
}
use nvalloc.Space.Split.{HasRoom, at_end, read-write_acquired}
use nvalloc.Space.Register.{among, among-le, extent_interior_register-Registered}
use nvalloc.Space.Deregister.{among-lt}

-- the inner pages of an extent are none of its ends
inner-at_end :
    (e : Extent) (p : ℕ)
    → among (inner_pages e) (e.e_addr + page_size) p ≡ true
    → at_end e p ≡ false
inner-at_end e p page =
    let le = among-le (inner_pages e) (e.e_addr + page_size) p page in
    let lt = among-lt (inner_pages e) (e.e_addr + page_size) p page in
    let first : (e.e_addr == p) ≡ false = ground (arith, le) in
    let last : (extent_last_get e == p) ≡ false = ground (arith, le, lt) in rw (first, last) refl

or_again :
    (a b : Bool) (leaf old : LeafElm)
    → (if a || b then leaf else (if a then leaf else old)) ≡ (if a || b then leaf else old)
or_again true b leaf old = refl
or_again false b leaf old = refl

module _ (tree : ExtentTree) (room : HasRoom tree) (space : Space tree) (extent vslab : ℕ) where
  abbrev e : Extent
  e = space.store extent

  abbrev pub leaf : LeafElm
  leaf = record { extent = vslab; szind = e.szind; slab = true }

  -- a slab in use, of which no page leads anywhere yet
  pub record IsFresh : Type 0 where
    pub slab : e.slab ≡ true
    pub active : e.state ≡ ExtentState.active
    pub real : vslab ≢ null
    pub free :
        (p : ℕ)
        → among (inner_pages e) (e.e_addr + page_size) p ≡ true
        → (tree.read space.rtree p).extent ≡ null

  pub record RegisteredSlab (space' : Space tree) : Type 0 where
    pub result : extent_register tree space extent vslab ≡ some (false, space')
    pub store : space'.store ≡ space.store
    pub read :
        (p : ℕ)
        → tree.read space'.rtree p ≡ (
            if at_end e p || among (inner_pages e) (e.e_addr + page_size) p
            then leaf
            else tree.read space.rtree p)
    pub ends : leaf_elms_found tree space'.rtree e ≡ true
    pub inner :
        (p : ℕ)
        → among (inner_pages e) (e.e_addr + page_size) p ≡ true
        → tree.has_leaf space'.rtree p ≡ true

  module _ (fresh : IsFresh) where
    -- the tree with the elements of both ends
    abbrev grown : tree.Tree
    grown = tree.init (tree.init space.rtree e.e_addr) (extent_last_get e)

    written : Space tree
    written = record space { rtree = extent_rtree_write_acquired tree grown e leaf }

    grown_result : leaf_elms_init tree space.rtree e ≡ (grown, true)
    unfolding leaf_elms_init
    grown_result =
        rw (room space.rtree e.e_addr, room (tree.init space.rtree e.e_addr) (extent_last_get e))

    read_written :
        (p : ℕ) → tree.read written.rtree p ≡ (if at_end e p then leaf else tree.read space.rtree p)
    unfolding written
    read_written p =
        read-write_acquired tree grown e leaf p
        ∙ ap (λ old. if at_end e p then leaf else old)
            (tree.read-init (tree.init space.rtree e.e_addr) (extent_last_get e) p
              ∙ tree.read-init space.rtree e.e_addr p)

    has_leaf_written : (p : ℕ) → tree.has_leaf written.rtree p ≡ tree.has_leaf grown p
    unfolding written
    has_leaf_written p =
        tree.has_leaf-write (tree.write grown e.e_addr leaf) (extent_last_get e) leaf p
        ∙ tree.has_leaf-write grown e.e_addr leaf p

    first_written : tree.has_leaf written.rtree e.e_addr ≡ true
    first_written =
        has_leaf_written e.e_addr
        ∙ tree.has_leaf-init (tree.init space.rtree e.e_addr) (extent_last_get e) e.e_addr
            (room space.rtree e.e_addr)

    last_written : tree.has_leaf written.rtree (extent_last_get e) ≡ true
    last_written =
        has_leaf_written (extent_last_get e)
        ∙ room (tree.init space.rtree e.e_addr) (extent_last_get e)

    found_written : leaf_elms_found tree written.rtree e ≡ true
    found_written = rw (first_written, last_written) refl

    free_written :
        (p : ℕ)
        → among (inner_pages e) (e.e_addr + page_size) p ≡ true
        → (tree.read written.rtree p).extent ≡ null
    free_written p page =
        let same : (if at_end e p then leaf else tree.read space.rtree p)
            ≡ tree.read space.rtree p =
          rw (inner-at_end e p page) refl in
        ap LeafElm.extent (read_written p ∙ same) ∙ fresh.free p page

    -- Where there is memory for the tree, a slab in use of which no inner page leads anywhere is registered:
    -- each of its pages leads to the slab, and no other page changes.
    pub extent_register-RegisteredSlab : (space' : Space tree) × RegisteredSlab space'
    unfolding extent_register extent_register_impl written
    extent_register-RegisteredSlab =
        let (space', r) =
          extent_interior_register-Registered tree room written extent e.szind vslab fresh.slab refl
            fresh.real found_written free_written in
        let not_null : (vslab == null) ≡ false = ground (arith, fresh.real) in
        let matches : slab_matches e.slab vslab ≡ true = rw (fresh.slab, not_null) refl in
        let checked : (not e.slab || same_state e.state ExtentState.active) ≡ true =
          rw (fresh.slab, fresh.active) refl in
        let same_leaf : leaf_of e.slab vslab e.szind extent ≡ leaf =
          ap (λ b. leaf_of b vslab e.szind extent) fresh.slab in
        (
          space',
          record {
            result = rw (matches, grown_result, checked, same_leaf, fresh.slab, r.result) refl;
            store = r.store;
            ends =
                rw (r.still e.e_addr first_written, r.still (extent_last_get e) last_written) refl;
            inner = r.found;
            read = λ p.
                r.read p
                ∙ ap
                    (λ old.
                      if at_end e p || among (inner_pages e) (e.e_addr + page_size) p
                      then leaf
                      else old)
                    (read_written p)
                ∙ or_again (at_end e p) (among (inner_pages e) (e.e_addr + page_size) p) leaf
                    (tree.read space.rtree p);
          },
        )
