-- ===== src/Tests/Purges.antt =====
-- Dirty pages that an arena may not keep.
use nvalloc.Prelude.{
  ℕ, ◌+◌, ◌<◌, ◌≤◌, ◌≡◌, ◌∙◌, refl, true, none, some, List, [], ◌∷◌, arith, length, update_ap,
}
use nvalloc.Extents.{
  Extent, ExtentState, Extents, Store, extents_init, extent_state_set, extent_deactivate_locked,
}
use nvalloc.Extents.Start.{extents_init-IsExtents}
use nvalloc.Extents.Insert.{Inserted}
use nvalloc.Extents.Extract.{IsUnkept, extent_deactivate_locked-Inserted}
use nvalloc.Space.{no_leaf}
use nvalloc.Recycle.{World}
use nvalloc.Recycle.Coalesce.{extent_lock_from_addr}
use nvalloc.Arena.Purge.{Means}
use nvalloc.Arena.Purge.Stash.{IsPool, Stashed, stash_to_limit}
use nvalloc.Tests.Stores.{heap, list, tree, five_pages, page_before, store}

-- the dirty extents of an arena, merged late
abbrev no_dirty : Extents heap list
no_dirty = extents_init heap list ExtentState.dirty true

seven_loose : IsUnkept store no_dirty 1 7
unfolding extents_init
seven_loose = record {
  own = refl;
  active = refl;
  slab_not = refl;
  size_pos = omega arith;
  size_whole = refl;
  not_large = omega arith;
  absent = refl;
  room = omega arith;
}

abbrev stored : Store
stored = extent_state_set store 7 ExtentState.dirty

given_back :
    (i : ℕ) × (y : Extents heap list) × (extent_deactivate_locked heap list store no_dirty 7 1
      ≡ some (stored, y))
    × Inserted stored no_dirty 7 i y
unfolding extents_init
given_back =
    extent_deactivate_locked-Inserted store no_dirty 1 7
      (extents_init-IsExtents store ExtentState.dirty true) seven_loose

abbrev world : World heap list tree
world = record { space = record { store = stored; rtree = λ a. no_leaf }; extents = given_back.1 }

only_seven : list.items given_back.1.lru ≡ 7 ∷ []
unfolding extents_init
only_seven = given_back.3.last

still_dirty : given_back.1.state ≡ ExtentState.dirty
unfolding extents_init
still_dirty = given_back.3.state

still_delayed : given_back.1.delay_coalesce ≡ true
unfolding extents_init
still_delayed = given_back.3.delay

five : given_back.1.npages ≡ 5
unfolding extents_init
five = given_back.3.pages

world-IsPool : IsPool world 1
unfolding extent_lock_from_addr
world-IsPool = record {
  is = given_back.3.inv;
  dirty = still_dirty;
  delayed = still_delayed;
  own = λ i e m.
      update_ap Extent.arena store 7 _ e refl
      ∙ update_ap Extent.arena (λ k. five_pages) 9 page_before e refl;
  single = λ e pos. record { past = refl; before = refl };
}

abbrev pub means : Means
means = record { rounds = 3; fuel = 3; memory_b = λ i. none; memory_c = λ i. none }

one_listed : length (list.items given_back.1.lru) < 3
one_listed = rw only_seven (omega arith)

five_over : 2 + 3 ≡ given_back.1.npages
five_over = omega (arith, five)

stash_to_limit_example :
    (n : ℕ) × (stashed : List ℕ) × (w : World heap list tree) × Stashed 3 means world 1 2 3 0 [] n
      stashed w
    × (w.extents.npages ≤ 2)
stash_to_limit_example =
    stash_to_limit means 2 2 refl refl 1 2 3 3 world [] one_listed world-IsPool five_over
