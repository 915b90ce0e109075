-- ===== src/Space/Merge.antt =====
-- `extent_merge_impl` joins two extents, and undoes what `extent_split_impl` did.
use nvalloc.Prelude.{
  ℕ, ◌+◌, ◌<◌, ◌≡◌, ◌≢◌, refl, true, false, ◌||◌, some, arith, if◌then◌else◌, lt→ltb, ◌==◌, update,
}
use nvalloc.Log.{null}
use nvalloc.SizeClass.Table.{max_psz_idx}
use nvalloc.Containers.{ExtentTree}
use nvalloc.Extents.{Extent}
use nvalloc.Space.{Space, extent_merge_impl, extent_last_get, leaf_elms_found, leaf_of, no_leaf}

module _ (tree : ExtentTree) (space : Space tree) (a b : ℕ) where
  abbrev pub left : Extent
  left = space.store a

  abbrev pub right : Extent
  right = space.store b

  abbrev pub merged : Extent
  merged = record left { size = left.size + right.size; szind = max_psz_idx }

  -- what `extent_merge_impl` returns
  pub record Merged (s : Space tree) : Type 0 where
    pub result : extent_merge_impl tree space a b ≡ some s
    pub store : s.store ≡ update space.store a merged
    pub first_page : tree.read s.rtree left.e_addr ≡ leaf_of false null max_psz_idx a
    pub last_page : tree.read s.rtree (extent_last_get right) ≡ leaf_of false null max_psz_idx a
    pub between :
        (p : ℕ)
        → p ≢ left.e_addr
        → p ≢ extent_last_get right
        → tree.read s.rtree p ≡ (
            if p == extent_last_get left || p == right.e_addr
            then no_leaf
            else tree.read space.rtree p)

  -- Merging an extent with one of a higher address that is in the tree gives one of both sizes;
  -- its first and last page lead to it, the pages at which they met lead nowhere, and no other
  -- page or extent changes.
  pub extent_merge_impl-Merged :
      left.e_addr < right.e_addr
      → leaf_elms_found tree space.rtree left ≡ true
      → leaf_elms_found tree space.rtree right ≡ true
      → (s : Space tree) × Merged s
  unfolding extent_merge_impl
  extent_merge_impl-Merged lt found_a found_b =
      let lt_ok = lt→ltb left.e_addr right.e_addr lt in
      let leaf = leaf_of false null max_psz_idx a in
      let t1 = tree.write space.rtree (extent_last_get left) no_leaf in
      let t2 = tree.write t1 right.e_addr no_leaf in
      let t3 = tree.write t2 left.e_addr leaf in
      let t4 = tree.write t3 (extent_last_get right) leaf in
      (
        record { store = update space.store a merged; rtree = t4 },
        record {
          result = rw (lt_ok, found_a, found_b);
          store = refl;
          first_page =
              rw
                (
                  tree.read-write t3 (extent_last_get right) leaf left.e_addr,
                  tree.read-write t2 left.e_addr leaf left.e_addr,
                )
                (ground arith);
          last_page =
              rw (tree.read-write t3 (extent_last_get right) leaf (extent_last_get right))
                (ground arith);
          between = λ p ne_a ne_b.
              rw
                (
                  tree.read-write t3 (extent_last_get right) leaf p,
                  tree.read-write t2 left.e_addr leaf p,
                  tree.read-write t1 right.e_addr no_leaf p,
                  tree.read-write space.rtree (extent_last_get left) no_leaf p,
                )
                (ground (arith, ne_a, ne_b));
        },
      )
