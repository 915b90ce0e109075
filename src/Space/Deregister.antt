-- ===== src/Space/Deregister.antt =====
-- A slab that is given back is taken out of the tree of addresses page by page; both ends lead to its extent
-- then, and still say that it is a slab's.
use nvalloc.Prelude.{
  ℕ, zero, suc, ◌+◌, ◌*◌, ◌<◌, ◌≡◌, ◌≢◌, refl, ap, ◌∙◌, true, false, some, arith, if◌then◌else◌,
  ◌==◌, assert,
}
use nvalloc.Machine.{page_size}
use nvalloc.Log.{null}
use nvalloc.Containers.{ExtentTree, LeafElm}
use nvalloc.Extents.{Extent}
use nvalloc.Space.{
  Space, rtree_clear, clear_pages, no_leaf, inner_pages, leaf_elms_found, extent_last_get,
  extent_rtree_write_acquired, extent_interior_deregister, extent_replace_to_vslab,
}
use nvalloc.Space.Split.{if_or, at_end, read-write_acquired}
use nvalloc.Space.Register.{among, among-le}

pub among-lt : (count addr p : ℕ) → among count addr p ≡ true → p < addr + count * page_size
among-lt zero addr p h = cc
among-lt (suc count) addr p h = ground (arith, among-lt count (addr + page_size) p)

module _ (tree : ExtentTree) where
  -- the pages from `addr` on lead somewhere
  abbrev pub Leads : tree.Tree → ℕ → ℕ → Type 0
  Leads t count addr =
      (p : ℕ)
      → among count addr p ≡ true
      → (tree.has_leaf t p ≡ true) × ((tree.read t p).extent ≢ null)

  clear_pages-some :
      (count : ℕ) (t : tree.Tree) (addr : ℕ)
      → Leads t count addr
      → (t' : tree.Tree) × (clear_pages tree count t addr ≡ some t')
        × ((p : ℕ) → tree.read t' p ≡ (if among count addr p then no_leaf else tree.read t p))
        × ((p : ℕ) → tree.has_leaf t' p ≡ tree.has_leaf t p)
  unfolding clear_pages rtree_clear
  clear_pages-some zero t addr lead = (t, refl, λ p. refl, λ p. refl)
  clear_pages-some (suc count) t addr lead =
      let (found, real) = lead addr (ground arith) in
      let t1 = tree.write t addr no_leaf in
      let not_null : ((tree.read t addr).extent == null) ≡ false = ground (arith, real) in
      let still : Leads t1 count (addr + page_size) = λ p inside.
        let le = among-le count (addr + page_size) p inside in
        let other : (addr == p) ≡ false = ground (arith, le) in
        let (found', real') = lead p (ground (arith, inside)) in
        (
          tree.has_leaf-write t addr no_leaf p ∙ found',
          rw (tree.read-write t addr no_leaf p, other) real',
        ) in
      let (t', q, r, l) = clear_pages-some count t1 (addr + page_size) still in
      (
        t',
        rw (found, not_null, q),
        λ p.
            rw (r p, tree.read-write t addr no_leaf p)
              (if_or (addr == p) (among count (addr + page_size) p) no_leaf (tree.read t p)),
        λ p. l p ∙ tree.has_leaf-write t addr no_leaf p,
      )

module _ (tree : ExtentTree) (space : Space tree) (extent : ℕ) where
  abbrev e : Extent
  e = space.store extent

  -- what the ends of the extent lead to
  abbrev pub end_leaf : LeafElm
  end_leaf = record { extent = extent; szind = e.szind; slab = true }

  -- the pages of a slab lead somewhere
  pub record IsListed : Type 0 where
    pub slab : e.slab ≡ true
    pub ends : leaf_elms_found tree space.rtree e ≡ true
    pub inner : Leads tree space.rtree (inner_pages e) (e.e_addr + page_size)

  pub record Deregistered (space' : Space tree) : Type 0 where
    pub result : extent_interior_deregister tree space extent ≡ some space'
    pub store : space'.store ≡ space.store
    pub read :
        (p : ℕ)
        → tree.read space'.rtree p ≡ (
            if at_end e p
            then end_leaf
            else (if among (inner_pages e) (e.e_addr + page_size) p
                then no_leaf
                else tree.read space.rtree p))
    pub found : (p : ℕ) → tree.has_leaf space'.rtree p ≡ tree.has_leaf space.rtree p

  -- Where the pages of a slab's extent lead somewhere, taking it out of the tree succeeds: the pages
  -- between its ends lead nowhere, both ends lead to the extent and say that it is a slab's, and no other
  -- page changes.
  pub extent_interior_deregister-Deregistered :
      IsListed → (space' : Space tree) × Deregistered space'
  unfolding extent_interior_deregister extent_replace_to_vslab
  extent_interior_deregister-Deregistered is =
      let (t, q, r, l) =
        clear_pages-some tree (inner_pages e) space.rtree (e.e_addr + page_size) is.inner in
      let found' : leaf_elms_found tree t e ≡ true =
        ground (arith, is.ends, l e.e_addr, l (extent_last_get e)) in
      let checked : assert e.slab ≡ some tt = ap assert is.slab in
      let leaf : LeafElm = record { extent = extent; szind = e.szind; slab = e.slab } in
      let same_leaf : leaf ≡ end_leaf =
        ap (λ b. record { extent = extent; szind = e.szind; slab = b }) is.slab in
      (
        record space { rtree = extent_rtree_write_acquired tree t e leaf },
        record {
          result = rw (checked, q, found');
          store = refl;
          read = λ p. read-write_acquired tree t e leaf p ∙ rw (same_leaf, r p);
          found = λ p.
              tree.has_leaf-write (tree.write t e.e_addr leaf) (extent_last_get e) leaf p
              ∙ tree.has_leaf-write t e.e_addr leaf p
              ∙ l p;
        },
      )
