-- ===== src/Tests/Extents.antt =====
-- Runs of the extents, over containers that are lists and a function of addresses.
use nvalloc.Prelude.{
  ◌-◌, ◌^◌, ◌∙◌, ℕ, ◌≤◌, ◌≡◌, refl, true, false, Option, some, [], ◌∷◌, arith, update_ap,
}
use nvalloc.Extents.Floor.{get_psizeclass_floor-beyond}
use nvalloc.Extents.Fit.{IsBestFit, extents_best_fit_locked-IsBestFit}
use nvalloc.SizeClass.Table.{npages_by_idx}
use nvalloc.SizeClass.Pages.{npages_by_idx-le}
use nvalloc.Machine.{round_up}
use nvalloc.Space.Merge.{Merged, extent_merge_impl-Merged}
use nvalloc.Recycle.Chunks.{Counted, n_muzzy_extent_can_evict-Counted}
use nvalloc.Recycle.Join.{AreNeighbours, Coalesced, coalesce_forward}
use nvalloc.Extents.{
  Extent, ExtentState, Extents, Store, extents_init, extent_state_set, extent_deactivate_locked,
  extent_activate_locked, extents_best_fit_locked, get_psizeclass_floor,
}
use nvalloc.Extents.Inv.{times, In, In-IsNearest, IsExtents}
use nvalloc.Extents.Extract.{
  IsUnkept, Extracted, extent_activate_locked-Extracted, extent_deactivate_locked-Inserted,
}
use nvalloc.Extents.Insert.{Inserted}
use nvalloc.Space.{Space, no_leaf}
use nvalloc.Space.Split.{Halved, extent_split_impl-Halved}
use nvalloc.Recycle.{World, n_muzzy_extent_can_evict, count_chunks}
use nvalloc.Recycle.Alloc.{IsAllocated, extents_alloc-IsAllocated}
use nvalloc.Tests.Stores.{
  heap, list, tree, room, five_pages, page_before, store, no_extents, no_extents-IsExtents,
}

seven_loose : IsUnkept store no_extents 1 7
unfolding extents_init
seven_loose = record {
  own = refl;
  active = refl;
  slab_not = refl;
  size_pos = omega arith;
  size_whole = refl;
  not_large = omega arith;
  absent = refl;
  room = omega arith;
}

-- what `extent_deactivate_locked` makes of it, as extent 7
abbrev stored : Store
stored = extent_state_set store 7 ExtentState.dirty

given_back :
    (i : ℕ) × (y : Extents heap list) × (extent_deactivate_locked heap list store no_extents 7 1
      ≡ some (stored, y))
    × Inserted stored no_extents 7 i y
unfolding extents_init
given_back = extent_deactivate_locked-Inserted store no_extents 1 7 no_extents-IsExtents seven_loose

abbrev one_extent : Extents heap list
one_extent = given_back.1

one_extent-IsExtents : IsExtents stored one_extent
one_extent-IsExtents = given_back.3.inv

own : (i e : ℕ) → In one_extent i e → (stored e).arena ≡ 1
own i e m =
    update_ap Extent.arena store 7 _ e refl
    ∙ update_ap Extent.arena (λ k. five_pages) 9 page_before e refl

only_seven : list.items one_extent.lru ≡ 7 ∷ []
unfolding extents_init
only_seven = given_back.3.last

nine_fresh : times 9 (list.items one_extent.lru) ≡ 0
nine_fresh = rw only_seven refl

abbrev world : World heap list tree
world = record { space = record { store = stored; rtree = λ a. no_leaf }; extents = one_extent }

extents_alloc-IsAllocated_example : IsAllocated room world 9 1 2 63 one_extent-IsExtents
extents_alloc-IsAllocated_example =
    extents_alloc-IsAllocated room world 9 1 2 63 one_extent-IsExtents (omega arith) (omega arith)
      own nine_fresh

extent_deactivate_locked-Inserted_example :
    (i : ℕ) × (y : Extents heap list) × (extent_deactivate_locked heap list store no_extents 7 1
      ≡ some (extent_state_set store 7 no_extents.state, y))
    × Inserted (extent_state_set store 7 no_extents.state) no_extents 7 i y
extent_deactivate_locked-Inserted_example =
    extent_deactivate_locked-Inserted store no_extents 1 7 no_extents-IsExtents seven_loose

seven_in : In one_extent given_back.0 7
seven_in = given_back.3.added

extent_activate_locked-Extracted_example :
    (y : Extents heap list) × (extent_activate_locked heap list stored one_extent 7 1
      ≡ some (extent_state_set stored 7 ExtentState.active, y))
    × Extracted stored one_extent 1 given_back.0 7 (extent_state_set stored 7 ExtentState.active) y
extent_activate_locked-Extracted_example =
    extent_activate_locked-Extracted stored one_extent 1 one_extent-IsExtents given_back.0 7
      seven_in refl

extents_best_fit_locked-IsBestFit_example :
    (r : Option ℕ) × (extents_best_fit_locked heap list one_extent 2 ≡ some r)
    × IsBestFit stored one_extent one_extent-IsExtents 2 r
extents_best_fit_locked-IsBestFit_example =
    extents_best_fit_locked-IsBestFit stored one_extent one_extent-IsExtents 2 (omega arith)
      (omega arith)

one_page : 1 ≤ npages_by_idx given_back.0
unfolding npages_by_idx
one_page =
    let (_, f) = In-IsNearest stored one_extent one_extent-IsExtents given_back.0 7 seven_in in
    npages_by_idx-le 0 given_back.0 (omega arith) f.last

at_once : one_extent.delay_coalesce ≡ false
unfolding extents_init
at_once = given_back.3.delay

neighbours : AreNeighbours world 1 9 7 given_back.0
neighbours = record {
  inv = one_extent-IsExtents;
  kept = seven_in;
  own_inner = refl;
  own_outer = refl;
  active = refl;
  absent = nine_fresh;
  found_inner = refl;
  found_outer = refl;
}

coalesce_forward_example :
    (w : World heap list tree) × Coalesced world 1 9 7 given_back.0 true 9 7 w
coalesce_forward_example = coalesce_forward world 1 9 7 given_back.0 neighbours (omega arith)

extent_split_impl-Halved_example :
    (s : Space tree) × Halved tree world.space 9 1 7 8192 63 false 12288 63 false 0 0 s
extent_split_impl-Halved_example =
    extent_split_impl-Halved tree world.space 9 1 7 8192 63 false 12288 63 false 0 0 room refl refl
      refl

extent_merge_impl-Merged_example : (s : Space tree) × Merged tree world.space 9 7 s
extent_merge_impl-Merged_example =
    extent_merge_impl-Merged tree world.space 9 7 (omega arith) refl refl

-- an extent of sixteen pages for a slab
abbrev slab_space : Space tree
slab_space = record {
  store = λ e. record five_pages { size = 65536; slab = true; szind = 65 };
  rtree = λ a. no_leaf;
}

-- three chunks of muzzy pages that begin a page behind a boundary
abbrev three_chunks : Extent
three_chunks = record five_pages { e_addr = 2101248; size = 6291456; state = ExtentState.muzzy }

n_muzzy_extent_can_evict-Counted_example : Counted three_chunks 0
n_muzzy_extent_can_evict-Counted_example =
    n_muzzy_extent_can_evict-Counted three_chunks 0 refl (omega arith)

-- Two whole chunks lie inside, and the address is that of the second.
n_muzzy_extent_can_evict_run : n_muzzy_extent_can_evict three_chunks 0 ≡ some (2, 6291456)
unfolding n_muzzy_extent_can_evict count_chunks round_up
n_muzzy_extent_can_evict_run = refl

get_psizeclass_floor-beyond_example : get_psizeclass_floor 98305 ≡ some (2 ^ 32 - 1)
get_psizeclass_floor-beyond_example = get_psizeclass_floor-beyond 98305 (omega arith) (omega arith)
