-- ===== src/Tests/Arenas.antt =====
-- Runs of an arena's memory and of its decay.
use nvalloc.Prelude.{◌^◌, ℕ, ◌+◌, ◌<◌, ◌≡◌, refl, false, Option, some, [], ◌∷◌, arith, replicate}
use nvalloc.Extents.{extents_init}
use nvalloc.Space.{Space, no_leaf}
use nvalloc.Arena.Start.{DecayStart, NewArena, arena_new, IsNew, arena_new-IsNew}
use nvalloc.Arena.{Arena}
use nvalloc.Arena.Memory.{IsArena, Activated, arena_activate_new_memory-Activated}
use nvalloc.Arena.Decay.{ArenaDecay}
use nvalloc.Arena.Backlog.{IsDecay, Advanced, arena_decay_epoch_advance_helper-Advanced}
use nvalloc.Arena.Limit.{Decided, arena_decay_epoch_advance-Decided}
use nvalloc.Tests.Stores.{heap, list, tree, room, store, no_extents, no_extents-IsExtents}

-- a hundred pages are left of a chunk
abbrev arena : Arena heap list tree
arena = record {
  self = 1;
  memory_new = 3784704;
  npage_new = 100;
  extents_dirty = no_extents;
  extents_muzzy = no_extents;
  space = record { store = store; rtree = λ a. no_leaf };
}

arena-IsArena : IsArena arena
arena-IsArena = record {
  mapped = λ e. omega arith;
  within = omega arith;
  dirty = no_extents-IsExtents;
}

none_listed : list.items no_extents.lru ≡ []
unfolding extents_init
none_listed = refl

no_pages : no_extents.npages + 512 < 2 ^ 64
unfolding extents_init
no_pages = omega arith

arena_activate_new_memory-Activated_example :
    (addr : ℕ) × (a : Arena heap list tree) × Activated arena 9 4194304 200 addr a
arena_activate_new_memory-Activated_example =
    arena_activate_new_memory-Activated arena 9 room arena-IsArena (rw none_listed refl) no_pages
      4194304 200 (λ e. omega arith) (omega arith) (omega arith)

-- twenty-five pages that came in the step before
abbrev pub decay : ArenaDecay
decay = record {
  purging = false;
  time_ms = 10000;
  interval = 50000000;
  epoch = 1000;
  deadline = 60000000;
  nunpurged = 25;
  backlog = 25 ∷ replicate 199 0;
}

decay-IsDecay : IsDecay decay
decay-IsDecay = record { steps = refl; ticks = omega arith; ahead = omega arith }

arena_decay_epoch_advance_helper-Advanced_example :
    (d : ArenaDecay) × Advanced decay 200000000 7 40 d
arena_decay_epoch_advance_helper-Advanced_example =
    arena_decay_epoch_advance_helper-Advanced decay 200000000 7 40 decay-IsDecay (omega arith)

arena_decay_epoch_advance-Decided_example :
    (d : ArenaDecay) × (purge : Option (ℕ × ℕ)) × Decided
      (64 ∷ 128 ∷ [])
      decay
      200000000
      7
      40
      d
      purge
arena_decay_epoch_advance-Decided_example =
    arena_decay_epoch_advance-Decided (64 ∷ 128 ∷ []) (omega arith, (omega arith, tt)) decay
      200000000 7 40 decay-IsDecay (omega arith)

-- a clock and a mutex
abbrev begin : DecayStart
begin = record { junk = decay; no_mutex = false; time = 200000000; jitter = 7 }

abbrev no_tree : Space tree
no_tree = record { store = store; rtree = λ a. no_leaf }

arena_new-IsNew_example :
    (n : NewArena heap list tree) × (arena_new heap list tree 1 4194304 no_tree begin begin
      ≡ some (some n))
    × IsNew 4194304 no_tree n
arena_new-IsNew_example = arena_new-IsNew 1 4194304 no_tree begin begin (λ e. omega arith) refl refl
