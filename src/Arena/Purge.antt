-- ===== src/Arena/Purge.antt =====
-- src/arena.c: an arena gets rid of the pages that it may not keep. The oldest dirty extents become
-- muzzy, muzzy ones are unmapped. A decay is tried when a thread's ticker fires; the lock of the decay is
-- an argument, as are the clock and what `extent_alloc` returns when an extent is split.
pub mod Stash
use nvalloc.Prelude.{
  ℕ, zero, suc, ◌+◌, ◌-◌, ◌/◌, ◌%◌, Bool, true, false, not, ◌&&◌, ◌||◌, Option, none, some, List,
  [], ◌∷◌, if◌then◌else◌, ltb, leb, ◌==◌, ◌>>=◌, ◌>>◌, assert,
}
use nvalloc.Machine.{page_size, chunk_size}
use nvalloc.SizeClass.Table.{max_psz_idx}
use nvalloc.Containers.{ExtentHeap, ExtentList, ExtentTree}
use nvalloc.Extents.{ExtentState, Extents, same_state}
use nvalloc.Space.{Space, extent_deregister}
use nvalloc.Recycle.{World, extent_at}
use nvalloc.Recycle.Coalesce.{extents_dalloc}
use nvalloc.Recycle.Evict.{extents_evict}
use nvalloc.Arena.{Arena}
use nvalloc.Arena.Decay.{
  ArenaDecay, arena_decay_deadline_init, arena_decay_deadline_reached, arena_decay_epoch_advance,
}

-- what a decay reads of its surroundings: whether another thread has its lock, the time, whether the
-- clock is monotonic, and two random numbers below the interval
pub record Surroundings : Type 0 where
  pub locked : Bool
  pub time : ℕ
  pub monotonic : Bool
  pub jitter : ℕ
  pub jitter_again : ℕ

-- the fuel of the loops, and what `extent_alloc` returns for the two parts of the extent of a round
pub record Means : Type 0 where
  pub rounds : ℕ
  pub fuel : ℕ
  pub memory_b : ℕ → Option ℕ
  pub memory_c : ℕ → Option ℕ

module _ (heap : ExtentHeap) (list : ExtentList) (tree : ExtentTree) where
  -- the loop of `arena_stash_decayed`: the pages and the extents that were taken so far
  unfoldable pub arena_stash_decayed :
      ℕ
      → Means
      → World heap list tree
      → ℕ
      → ℕ
      → ℕ
      → ℕ
      → list.Ring
      → Option (ℕ × list.Ring × World heap list tree)
  arena_stash_decayed zero means world arena npages_limit npages_decay_max nstashed stashed = none
  arena_stash_decayed (suc fuel) means world arena npages_limit npages_decay_max nstashed stashed =
      let next : Option (ℕ × list.Ring × World heap list tree) =
        extents_evict heap list tree means.rounds means.fuel world (means.memory_b fuel)
          (means.memory_c fuel) arena npages_limit
        >>= λ (extent, w). elim extent [
          | none ↦ some (nstashed, stashed, w)
          | some e ↦
              arena_stash_decayed fuel means w arena npages_limit npages_decay_max
                (nstashed + (extent_at heap list tree w e).size / page_size) (list.append e stashed)
        ] in
      if ltb nstashed npages_decay_max then next else some (nstashed, stashed, world)

  -- The chunks are unmapped and the memory of the extent is freed, which is not modelled.
  unfoldable pub extent_dalloc_wrapper : World heap list tree → ℕ → Option (World heap list tree)
  extent_dalloc_wrapper world extent = do
    s ← extent_deregister tree world.space extent
    let e = s.store extent
    assert (e.e_addr % chunk_size == 0)
    assert (e.size % chunk_size == 0 && not (e.size == 0))
    assert (same_state e.state ExtentState.active)
    assert (e.szind == max_psz_idx)
    some (record world { space = s })

  -- one turn of `arena_decay_stashed`, by the state of the extents that were taken from; `not_reached` does
  -- nothing, since `config_debug` is 0
  unfoldable pub purge_one :
      Means → Arena heap list tree → ExtentState → ℕ → Option (Arena heap list tree)
  unfolding extent_dalloc_wrapper
  purge_one means arena state extent =
      let muzzy : World heap list tree = record {
        space = arena.space;
        extents = arena.extents_muzzy;
      } in
      let put_back : Option (World heap list tree) =
        extents_dalloc heap list tree means.fuel muzzy arena.self extent in
      let moved : Option (World heap list tree) = elim state [
        | ExtentState.active ↦ put_back
        | ExtentState.dirty ↦ put_back
        | ExtentState.muzzy ↦ extent_dalloc_wrapper muzzy extent
      ] in
      moved >>= λ w. some (record arena { space = w.space; extents_muzzy = w.extents })

  -- the loop of `arena_decay_stashed`
  unfoldable pub arena_decay_stashed :
      ℕ
      → Means
      → Arena heap list tree
      → ExtentState
      → list.Ring
      → ℕ
      → Option (ℕ × Arena heap list tree)
  unfolding purge_one
  arena_decay_stashed zero means arena state stashed npurged = none
  arena_decay_stashed (suc fuel) means arena state stashed npurged = elim (list.first stashed) [
    | none ↦ some (npurged, arena)
    | some extent ↦ purge_one means arena state extent >>= λ a.
        arena_decay_stashed fuel means a state (list.remove extent stashed)
          (npurged + (arena.space.store extent).size / page_size)
  ]

  -- the decay of the dirty extents or of the muzzy ones
  abbrev pub extents_of : Arena heap list tree → Bool → Extents heap list
  extents_of arena dirty = if dirty then arena.extents_dirty else arena.extents_muzzy

  abbrev pub with_world : Arena heap list tree → Bool → World heap list tree → Arena heap list tree
  with_world arena dirty world = record arena {
    space = world.space;
    extents_dirty = if dirty then world.extents else arena.extents_dirty;
    extents_muzzy = if dirty then arena.extents_muzzy else world.extents;
  }

  -- `purging` is set while the extents are taken and put away
  unfoldable pub arena_decay_to_limit :
      Means
      → Arena heap list tree
      → Bool
      → ArenaDecay
      → ℕ
      → ℕ
      → Option (ArenaDecay × Arena heap list tree)
  unfolding arena_stash_decayed arena_decay_stashed
  arena_decay_to_limit means arena dirty decay npages_limit npages_decay_max =
      let purge : Option (ArenaDecay × Arena heap list tree) = (do
        let extents = extents_of arena dirty
        (npurge, stashed, w) ←
            arena_stash_decayed means.rounds means
              (record { space = arena.space; extents = extents }) arena.self npages_limit
              npages_decay_max 0 list.new
        let a = with_world arena dirty w
        let put_away : Option (Arena heap list tree) = (do
          (npurged, a') ← arena_decay_stashed means.rounds means a w.extents.state stashed 0
          assert (npurged == npurge)
          some a')
        a' ← (if npurge == 0 then some a else put_away)
        some (record decay { purging = false }, a')) in
      if decay.purging then some (decay, arena) else purge

  -- `arena_decay_epoch_advance` with `arena_decay_try_purge`
  unfoldable pub advance_and_purge :
      List ℕ
      → Means
      → Surroundings
      → Arena heap list tree
      → Bool
      → ArenaDecay
      → Option (ArenaDecay × Arena heap list tree)
  unfolding arena_decay_to_limit
  advance_and_purge h_steps means now arena dirty decay = do
    (d, purge) ←
        arena_decay_epoch_advance h_steps decay now.time now.jitter_again
          (extents_of arena dirty).npages
    elim purge [
      | none ↦ some (d, arena)
      | some (npages_limit, npages_decay_max) ↦
          arena_decay_to_limit means arena dirty d npages_limit npages_decay_max
    ]

  -- `decay_ms` is never negative, since it is set to its defaults only
  unfoldable pub arena_maybe_decay :
      List ℕ
      → Means
      → Surroundings
      → Arena heap list tree
      → Bool
      → ArenaDecay
      → Option (Bool × ArenaDecay × Arena heap list tree)
  unfolding arena_decay_to_limit advance_and_purge
  arena_maybe_decay h_steps means now arena dirty decay = do
    let all : Option (Bool × ArenaDecay × Arena heap list tree) = (do
      (d, a) ← arena_decay_to_limit means arena dirty decay 0 (extents_of arena dirty).npages
      some (false, d, a))
    let back = not now.monotonic && ltb now.time decay.epoch
    let later : Option (Bool × ArenaDecay × Arena heap list tree) = (do
      assert (back || leb decay.epoch now.time)
      let d =
          if back
          then arena_decay_deadline_init (record decay { epoch = now.time }) now.jitter
          else decay
      let advance_epoch = arena_decay_deadline_reached d now.time
      let advanced = advance_and_purge h_steps means now arena dirty d
      (d', a) ← (if advance_epoch then advanced else some (d, arena))
      some (advance_epoch, d', a))
    if decay.time_ms == 0 then all else later

  -- the flag is that another thread has the lock
  unfoldable pub arena_decay_impl :
      List ℕ
      → Means
      → Surroundings
      → Arena heap list tree
      → Bool
      → ArenaDecay
      → Option (Bool × ArenaDecay × Arena heap list tree)
  unfolding arena_maybe_decay
  arena_decay_impl h_steps means now arena dirty decay =
      let decayed : Option (Bool × ArenaDecay × Arena heap list tree) = (do
        (advanced, d, a) ← arena_maybe_decay h_steps means now arena dirty decay
        some (false, d, a)) in
      if now.locked then some (true, decay, arena) else decayed

  -- `arena_decay`, with the two decays
  unfoldable pub arena_decay :
      List ℕ
      → Means
      → Surroundings
      → Surroundings
      → Arena heap list tree
      → ArenaDecay
      → ArenaDecay
      → Option (ArenaDecay × ArenaDecay × Arena heap list tree)
  unfolding arena_decay_impl
  arena_decay h_steps means now then_ arena decay_dirty decay_muzzy = do
    (busy, dirty, a) ← arena_decay_impl h_steps means now arena true decay_dirty
    let second : Option (ArenaDecay × ArenaDecay × Arena heap list tree) = (do
      (_, muzzy, a') ← arena_decay_impl h_steps means then_ a false decay_muzzy
      some (dirty, muzzy, a'))
    if busy then some (dirty, decay_muzzy, a) else second
