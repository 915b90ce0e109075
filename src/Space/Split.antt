-- ===== src/Space/Split.antt =====
-- `extent_split_impl` cuts an extent in two that lie one behind the other, and registers both.
use nvalloc.Prelude.{
  ℕ, ◌+◌, ◌≡◌, refl, ◌∙◌, Bool, true, false, ◌||◌, some, arith, if◌then◌else◌, ◌==◌, update,
}
use nvalloc.Containers.{ExtentTree, LeafElm}
use nvalloc.Extents.{Extent}
use nvalloc.Space.{
  Space, leaf_elms_init, extent_split_impl, extent_init, extent_last_get, slab_matches, leaf_of,
  extent_rtree_write_acquired,
}

-- There is memory for every leaf.
abbrev pub HasRoom : ExtentTree → Type 0
HasRoom tree = (t : tree.Tree) (a : ℕ) → tree.has_leaf (tree.init t a) a ≡ true

-- The page of an address is the first or the last of an extent.
abbrev pub at_end : Extent → ℕ → Bool
at_end e a = e.e_addr == a || extent_last_get e == a

pub if_or :
    (p q : Bool) (x y : LeafElm)
    → (if q then x else (if p then x else y)) ≡ (if p || q then x else y)
if_or true true x y = refl
if_or true false x y = refl
if_or false true x y = refl
if_or false false x y = refl

module _ (tree : ExtentTree) where
  -- With memory both elements are there, and the tree maps as before.
  pub leaf_elms_init-found :
      HasRoom tree
      → (t : tree.Tree) (e : Extent)
      → (t' : tree.Tree) × (leaf_elms_init tree t e ≡ (t', true))
        × ((a : ℕ) → tree.read t' a ≡ tree.read t a)
  unfolding leaf_elms_init
  leaf_elms_init-found room t e =
      let t1 = tree.init t e.e_addr in
      let t2 = tree.init t1 (extent_last_get e) in
      (
        t2,
        rw (room t e.e_addr, room t1 (extent_last_get e)),
        λ a. tree.read-init t1 (extent_last_get e) a ∙ tree.read-init t e.e_addr a,
      )

  -- Both ends of an extent have what is written, and no other page changes.
  pub read-write_acquired :
      (t : tree.Tree) (e : Extent) (leaf : LeafElm) (a : ℕ)
      → tree.read (extent_rtree_write_acquired tree t e leaf) a
        ≡ (if at_end e a then leaf else tree.read t a)
  read-write_acquired t e leaf a =
      rw
        (
          tree.read-write (tree.write t e.e_addr leaf) (extent_last_get e) leaf a,
          tree.read-write t e.e_addr leaf a,
        )
        (if_or (e.e_addr == a) (extent_last_get e == a) leaf (tree.read t a))

  module _ (space : Space tree) (trail arena extent size_a szind_a : ℕ) (slab_a : Bool)
      (size_b szind_b : ℕ) (slab_b : Bool) (vslab_a vslab_b : ℕ) where
    abbrev pub old : Extent
    old = space.store extent

    -- the two parts
    abbrev pub part_a : Extent
    part_a = record old { size = size_a; szind = szind_a }

    abbrev pub part_b : Extent
    part_b =
        extent_init (space.store trail) arena (old.e_addr + size_a) size_b slab_b szind_b old.state

    -- what `extent_split_impl` returns when there is memory
    pub record Halved (s : Space tree) : Type 0 where
      pub result :
          extent_split_impl tree space
            (some trail)
            arena
            extent
            size_a
            szind_a
            slab_a
            size_b
            szind_b
            slab_b
            vslab_a
            vslab_b
          ≡ some (some trail, s)
      pub store : s.store ≡ update (update space.store trail part_b) extent part_a
      pub rtree :
          (a : ℕ)
          → tree.read s.rtree a ≡ (
              if at_end part_b a
              then leaf_of slab_b vslab_b szind_b trail
              else (if at_end part_a a
                  then leaf_of slab_a vslab_a szind_a extent
                  else tree.read space.rtree a))

    -- With memory for the extent and the tree, splitting cuts the extent in two of the given
    -- sizes, the second behind the first; the ends of each lead to it, or to its slab, and no
    -- other page or extent changes.
    pub extent_split_impl-Halved :
        HasRoom tree
        → old.size ≡ size_a + size_b
        → slab_matches slab_a vslab_a ≡ true
        → slab_matches slab_b vslab_b ≡ true
        → (s : Space tree) × Halved s
    unfolding extent_split_impl
    extent_split_impl-Halved room sum matches_a matches_b =
        let lead = extent_init old arena old.e_addr size_a slab_a szind_a old.state in
        let (t, q, same) = leaf_elms_init-found room space.rtree lead in
        let (t', q', same') = leaf_elms_init-found room t part_b in
        let sum_ok : (old.size == size_a + size_b) ≡ true = ground (arith, sum) in
        let leaf_a = leaf_of slab_a vslab_a szind_a extent in
        let leaf_b = leaf_of slab_b vslab_b szind_b trail in
        let ta = extent_rtree_write_acquired tree t' lead leaf_a in
        (
          record {
            store = update (update space.store trail part_b) extent part_a;
            rtree = extent_rtree_write_acquired tree ta part_b leaf_b;
          },
          record {
            result = rw (sum_ok, matches_a, matches_b, q, q');
            store = refl;
            rtree = λ a. rw (
              read-write_acquired ta part_b leaf_b a,
              read-write_acquired t' lead leaf_a a,
              same' a,
              same a,
            );
          },
        )
