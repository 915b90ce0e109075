-- ===== src/Space/Register.antt =====
-- Registering an extent: each page of a slab leads to the slab from then on, and both ends of any
-- other extent to it.
use nvalloc.Prelude.{
  ℕ, zero, suc, ◌+◌, ◌≤◌, ◌≡◌, ◌≢◌, refl, sym, ap, ap₂, Bool-cases, inl, inr, ◌∙◌, Bool, true,
  false, ◌||◌, not, some, arith, if◌then◌else◌, ◌==◌, assert,
}
use nvalloc.Machine.{page_size}
use nvalloc.Log.{null}
use nvalloc.Containers.{ExtentTree, LeafElm}
use nvalloc.Extents.{same_state, Extent, ExtentState}
use nvalloc.Space.{
  extent_register, extent_register_impl, leaf_of, slab_matches, Space, rtree_write, write_pages,
  inner_pages, extent_last_get, leaf_elms_found, extent_rtree_write_acquired,
  extent_interior_register, extent_replace_to_vslab,
}
use nvalloc.Space.Split.{HasRoom, leaf_elms_init-found, if_or, at_end, read-write_acquired}

or_if :
    (p q : Bool) (x y : LeafElm)
    → (if p then x else (if q then x else y)) ≡ (if p || q then x else y)
or_if true q x y = refl
or_if false q x y = refl

or_right : (b : Bool) → (b || true) ≡ true
or_right true = refl
or_right false = refl

-- the address is one of `count` pages from `addr` on
abbrev pub among : ℕ → ℕ → ℕ → Bool
among zero addr p = false
among (suc count) addr p = let rest = among count (addr + page_size) p in addr == p || rest

pub among-le : (count addr p : ℕ) → among count addr p ≡ true → addr ≤ p
among-le zero addr p h = cc
among-le (suc count) addr p h = ground (arith, among-le count (addr + page_size) p)

module _ (tree : ExtentTree) (room : HasRoom tree) (leaf : LeafElm) (is : leaf.extent ≢ null) where
  rtree_write-some :
      (t : tree.Tree) (addr : ℕ)
      → (tree.read t addr).extent ≡ null
      → (t' : tree.Tree) × (rtree_write tree t addr leaf ≡ some t')
        × ((p : ℕ) → tree.read t' p ≡ (if addr == p then leaf else tree.read t p))
        × ((p : ℕ) → tree.has_leaf t p ≡ true → tree.has_leaf t' p ≡ true)
        × (tree.has_leaf t' addr ≡ true)
  unfolding rtree_write
  rtree_write-some t addr free =
      let t1 = tree.init t addr in
      let real : (leaf.extent == null) ≡ false = ground (arith, is) in
      let still : ((tree.read t1 addr).extent == null) ≡ true =
        rw (tree.read-init t addr addr, free) refl in
      (
        tree.write t1 addr leaf,
        rw (real, still, room t addr),
        λ p. rw (tree.read-write t1 addr leaf p, tree.read-init t addr p),
        λ p h. tree.has_leaf-write t1 addr leaf p ∙ tree.has_leaf-init t addr p h,
        tree.has_leaf-write t1 addr leaf addr ∙ room t addr,
      )

  pub write_pages-some :
      (count : ℕ) (t : tree.Tree) (addr : ℕ)
      → ((p : ℕ) → among count addr p ≡ true → (tree.read t p).extent ≡ null)
      → (t' : tree.Tree) × (write_pages tree count t addr leaf ≡ some t')
        × ((p : ℕ) → tree.read t' p ≡ (if among count addr p then leaf else tree.read t p))
        × ((p : ℕ) → tree.has_leaf t p ≡ true → tree.has_leaf t' p ≡ true)
        × ((p : ℕ) → among count addr p ≡ true → tree.has_leaf t' p ≡ true)
  unfolding write_pages
  write_pages-some zero t addr free = (t, refl, λ p. refl, λ p h. h, λ p no_page. cc)
  write_pages-some (suc count) t addr free =
      let (t1, q, r, l, here) = rtree_write-some t addr (free addr (ground arith)) in
      let still : (p : ℕ)
          → among count (addr + page_size) p ≡ true
          → (tree.read t1 p).extent ≡ null =
        λ p inside.
          let le = among-le count (addr + page_size) p inside in
          let other : (addr == p) ≡ false = ground (arith, le) in
          rw (r p, other) (free p (rw inside (or_right (addr == p)))) in
      let (t2, q', r', l', inner) = write_pages-some count t1 (addr + page_size) still in
      (
        t2,
        rw (q, q'),
        λ p.
            rw (r' p, r p)
              (if_or (addr == p) (among count (addr + page_size) p) leaf (tree.read t p)),
        λ p h. l' p (l p h),
        λ p page. elim (Bool-cases (addr == p)) [
          | inl first ↦
              let same : addr ≡ p = ground arith in l' p (ap (tree.has_leaf t1) (sym same) ∙ here)
          | inr later ↦ inner p (ground (arith, page, later))
        ],
      )

module _ (tree : ExtentTree) (room : HasRoom tree) (space : Space tree)
    (extent szind vslab : ℕ) where
  abbrev e : Extent
  e = space.store extent

  -- what the pages of the slab lead to
  abbrev pub slab_leaf : LeafElm
  slab_leaf = record { extent = vslab; szind = szind; slab = true }

  has_leaf-acquired :
      (t : tree.Tree) (leaf : LeafElm) (p : ℕ)
      → tree.has_leaf (extent_rtree_write_acquired tree t e leaf) p ≡ tree.has_leaf t p
  has_leaf-acquired t leaf p =
      tree.has_leaf-write (tree.write t e.e_addr leaf) (extent_last_get e) leaf p
      ∙ tree.has_leaf-write t e.e_addr leaf p

  pub record Registered (space' : Space tree) : Type 0 where
    pub result : extent_interior_register tree space extent szind vslab ≡ some space'
    pub store : space'.store ≡ space.store
    pub read :
        (p : ℕ)
        → tree.read space'.rtree p ≡ (
            if at_end e p || among (inner_pages e) (e.e_addr + page_size) p
            then slab_leaf
            else tree.read space.rtree p)
    pub found :
        (p : ℕ)
        → among (inner_pages e) (e.e_addr + page_size) p ≡ true
        → tree.has_leaf space'.rtree p ≡ true
    pub still : (p : ℕ) → tree.has_leaf space.rtree p ≡ true → tree.has_leaf space'.rtree p ≡ true

  -- Where the pages between the ends of a slab's extent lead nowhere and its ends have leaves,
  -- each page of it leads to the slab afterwards, and no other page changes.
  pub extent_interior_register-Registered :
      e.slab ≡ true
      → e.szind ≡ szind
      → vslab ≢ null
      → leaf_elms_found tree space.rtree e ≡ true
      → ((p : ℕ)
          → among (inner_pages e) (e.e_addr + page_size) p ≡ true
          → (tree.read space.rtree p).extent ≡ null)
      → (space' : Space tree) × Registered space'
  unfolding extent_interior_register extent_replace_to_vslab
  extent_interior_register-Registered is_slab same real found free =
      let (t, q, r, l, inner) =
        write_pages-some tree room slab_leaf real (inner_pages e) space.rtree (e.e_addr + page_size)
          free in
      let found' : leaf_elms_found tree t e ≡ true =
        ground (arith, found, l e.e_addr, l (extent_last_get e)) in
      let checked : assert e.slab ≡ some tt = ap assert is_slab in
      let leaf : LeafElm = record { extent = vslab; szind = e.szind; slab = e.slab } in
      let same_leaf : leaf ≡ slab_leaf =
        ap₂ (λ k b. record { extent = vslab; szind = k; slab = b }) same is_slab in
      (
        record space { rtree = extent_rtree_write_acquired tree t e leaf },
        record {
          result = rw (checked, q, found');
          store = refl;
          read = λ p.
              read-write_acquired tree t e leaf p
              ∙ rw (same_leaf, r p)
                  (or_if (at_end e p) (among (inner_pages e) (e.e_addr + page_size) p) slab_leaf
                    (tree.read space.rtree p));
          found = λ p page. has_leaf-acquired t leaf p ∙ inner p page;
          still = λ p h. has_leaf-acquired t leaf p ∙ l p h;
        },
      )

if_not {ℓ} : {A : Type ℓ} (b : Bool) (x y : A) → b ≡ false → (if b then x else y) ≡ y
if_not true x y e = cc
if_not false x y e = refl

-- An extent that is no slab's is registered at both ends.
module _ (tree : ExtentTree) (room : HasRoom tree) (space : Space tree) (extent : ℕ) where
  pub record RegisteredPlain (space' : Space tree) : Type 0 where
    pub result : extent_register tree space extent null ≡ some (false, space')
    pub store : space'.store ≡ space.store
    pub read :
        (p : ℕ)
        → tree.read space'.rtree p ≡ (
            if at_end (space.store extent) p
            then leaf_of false null (space.store extent).szind extent
            else tree.read space.rtree p)

  pub extent_register-RegisteredPlain :
      (space.store extent).slab ≡ false → (space' : Space tree) × RegisteredPlain space'
  unfolding extent_register extent_register_impl
  extent_register-RegisteredPlain plain =
      let e : Extent = space.store extent in
      let (t, q, same) = leaf_elms_init-found tree room space.rtree e in
      let leaf = leaf_of e.slab null e.szind extent in
      let is_leaf : leaf ≡ leaf_of false null e.szind extent =
        ap (λ b. leaf_of b null e.szind extent) plain in
      let matches : slab_matches e.slab null ≡ true = rw plain refl in
      let written : Space tree = record space {
        rtree = extent_rtree_write_acquired tree t e leaf;
      } in
      let plain_branch : (if e.slab
            then extent_interior_register tree written extent e.szind null
            else some written)
          ≡ some written =
        if_not e.slab (extent_interior_register tree written extent e.szind null) (some written)
          plain in
      let checked : (not e.slab || same_state e.state ExtentState.active) ≡ true = rw plain refl in
      (
        record space { rtree = extent_rtree_write_acquired tree t e leaf },
        record {
          result = rw (matches, q, checked, plain_branch);
          store = refl;
          read = λ p. read-write_acquired tree t e leaf p ∙ rw (is_leaf, same p);
        },
      )
