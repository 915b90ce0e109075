-- ===== src/Tests/Returns.antt =====
-- A slab of five pages, recorded in the log, that goes back to its arena, and one that is made.
use nvalloc.Prelude.{ℕ, ◌≡◌, refl, true, false, ◌&&◌, some, none, [], ◌∷◌, arith, inr, update, ◌==◌}
use nvalloc.SizeClass.Table.{slab_scind, npages_by_idx}
use nvalloc.Log.{free_log, normal_log, log_item, item_addr}
use nvalloc.Log.Add.{Added}
use nvalloc.Extents.{Extent, ExtentState, Extents, Store, extents_init}
use nvalloc.Extents.Start.{extents_init-IsExtents}
use nvalloc.Recycle.Coalesce.{extent_lock_from_addr, extents_dalloc}
use nvalloc.Recycle.Loose.{IsSlab}
use nvalloc.Recycle.Given.{Given}
use nvalloc.Arena.Logged.{
  LoggedArena, Tick, Collection, slab_extent, arena_slab_alloc, arena_slab_dalloc,
}
use nvalloc.Recycle.{World}
use nvalloc.Arena.Logged.Given.{dirty_of, IsRecorded, arena_slab_dalloc-Given}
use nvalloc.Space.{Space, no_leaf}
use nvalloc.Arena.Logged.Fresh.{HasMemory, Made, made, arena_slab_alloc-Made}
use nvalloc.Arena.Logged.Back.{IsApart, extents_dalloc-slab_extent}
use nvalloc.Extents.Inv.{IsExtents}
use nvalloc.Space.Split.{at_end}
use nvalloc.Space.Register.{among}
use nvalloc.Tests.Larges.{five_class}
use nvalloc.Arena.Purge.{Surroundings}
use nvalloc.Tests.Purges.{means}
use nvalloc.Tests.Arenas.{decay}
use nvalloc.Tests.Stores.{heap, list, tree, room, five_pages, store}
use nvalloc.Tests.Logs.{addresses, chunk, one_item, log_of, log_of-IsLog, one_item-IsChunk}

abbrev five_page_slab : Extent
five_page_slab = record five_pages { slab = true; szind = slab_scind; log = item_addr chunk 0 }

abbrev slabs : Store
slabs = update store 7 five_page_slab

-- the dirty extents, merged late, and the muzzy ones
abbrev no_dirty : Extents heap list
no_dirty = extents_init heap list ExtentState.dirty true

abbrev no_muzzy : Extents heap list
no_muzzy = extents_init heap list ExtentState.muzzy false

abbrev logged : LoggedArena heap list tree addresses
logged = record {
  arena = record {
    self = 1;
    memory_new = 4194304;
    npage_new = 512;
    extents_dirty = no_dirty;
    extents_muzzy = no_muzzy;
    space = record {
      store = slabs;
      rtree = λ a. record { extent = 7; szind = slab_scind; slab = true };
    };
  };
  log = log_of one_item;
  decay_dirty = decay;
  decay_muzzy = decay;
  eslab = λ v. 7;
  file_log = λ p. 0;
}

-- a tick of a ticker that does not fire
abbrev around : Surroundings
around = record { locked = false; time = 0; monotonic = true; jitter = 0; jitter_again = 0 }

abbrev tick : Tick
tick = record { fires = false; h_steps = []; means = means; now = around; then_ = around }

abbrev gc : Collection
gc = record { fuel = 0; junk = 0 }

seven-IsSlab : IsSlab (dirty_of logged) 1 7
unfolding extents_init extent_lock_from_addr
seven-IsSlab = record {
  is = extents_init-IsExtents slabs ExtentState.dirty true;
  dirty = refl;
  delayed = refl;
  listed = record { slab = refl; ends = refl; inner = λ p page. (refl, λ e. omega arith) };
  own = refl;
  active = refl;
  real = omega arith;
  size_pos = omega arith;
  size_whole = refl;
  not_large = omega arith;
  absent = refl;
  room = omega arith;
  past = refl;
  before = refl;
}

seven-IsRecorded : IsRecorded logged 7 1026 0
seven-IsRecorded = record {
  log = log_of-IsLog one_item one_item-IsChunk;
  room = inr (omega arith);
  item = refl;
  on = refl;
  inside = omega arith;
  small = omega arith;
  early = omega arith;
}

arena_slab_dalloc-Given_example :
    (i c k id : ℕ) × (l : LoggedArena heap list tree addresses) × (arena_slab_dalloc heap list tree
        addresses 2 tick gc logged 7
      ≡ some l)
    × Given (dirty_of logged) 1 7 i (dirty_of l)
    × Added addresses
        (log_of one_item)
        c
        k
        (log_item free_log (item_addr chunk 0) id)
        (λ a b. (chunk == a) && (0 == b))
        l.log
    × (l.log.gc_timer ≡ 1)
arena_slab_dalloc-Given_example =
    arena_slab_dalloc-Given logged 7 1026 0 1 tick gc seven-IsSlab seven-IsRecorded refl

-- the same arena before any slab
abbrev bare : LoggedArena heap list tree addresses
bare = record logged {
  arena = record logged.arena { space = record { store = store; rtree = λ a. no_leaf } };
}

bare-HasMemory : HasMemory bare 7 4 20480 80
unfolding extents_init npages_by_idx
bare-HasMemory = record {
  dirty = extents_init-IsExtents store ExtentState.dirty true;
  no_dirty = refl;
  muzzy = extents_init-IsExtents store ExtentState.muzzy false;
  no_muzzy = refl;
  mapped = λ e. omega arith;
  enough = omega arith;
  bounded = omega arith;
  positive = omega arith;
  whole = refl;
  most = omega arith;
  class = five_class;
  exact = refl;
  real = λ e. omega arith;
  free = λ p page. refl;
}

arena_slab_alloc-Made_example :
    (c i : ℕ) × (l : LoggedArena heap list tree addresses) × (arena_slab_alloc heap list tree
        addresses bare
        (some 7)
        none
        0
        20480
        80
      ≡ some (some 7, l))
    × Made room bare 7 4 20480 80 0 none (item_addr c i) l
    × Added addresses (log_of one_item) c i (log_item normal_log 4194304 20481) (λ b j. false) l.log
arena_slab_alloc-Made_example =
    arena_slab_alloc-Made room bare 7 4 20480 80 0 none bare-HasMemory
      (log_of-IsLog one_item one_item-IsChunk) (inr (omega arith))

bare-IsApart : IsApart room bare 7 4 20480 80 0 none
unfolding extents_init
bare-IsApart = record {
  dirty = refl;
  delayed = refl;
  above = omega arith;
  past = refl;
  before = refl;
}

extents_dalloc-slab_extent_example :
    (s : Space tree) × (w : World heap list tree) × (slab_extent heap list tree addresses bare.arena
        (some 7)
        none
        0
        20480
        80
      ≡ some (some 7, record bare.arena { memory_new = 4214784; npage_new = 507; space = s }))
    × (extents_dalloc heap list tree 2 (record { space = s; extents = no_dirty }) 1 7 ≡ some w)
    × IsExtents w.space.store w.extents
    × (list.items w.extents.lru ≡ 7 ∷ [])
    × (w.extents.npages ≡ 5)
    × ((p : ℕ)
        → at_end (made room bare 7 4 20480 80 0 none) p ≡ false
        → among 3 4198400 p ≡ true
        → tree.read w.space.rtree p ≡ no_leaf)
extents_dalloc-slab_extent_example =
    extents_dalloc-slab_extent room bare 7 4 20480 80 0 none bare-HasMemory bare-IsApart 1
