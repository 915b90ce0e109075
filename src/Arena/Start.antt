-- ===== src/Arena/Start.antt =====
-- `arena_new` of src/arena.c: an arena with its first chunk, no extents and no slabs. Whether a mutex can be
-- made for a decay, the clock and the random numbers are arguments; the other mutexes are made, and the file
-- tree and the log, which starts with the arena, are not modelled here.
use nvalloc.Prelude.{
  ℕ, ◌+◌, ◌*◌, ◌<◌, ◌≡◌, ◌≢◌, refl, Bool, true, false, Option, none, some, [], arith, if◌then◌else◌,
  ◌==◌, ◌>>=◌, length-replicate,
}
use nvalloc.Log.{null}
use nvalloc.Containers.{ExtentHeap, ExtentList, ExtentTree}
use nvalloc.Extents.{ExtentState, extents_init}
use nvalloc.Extents.Inv.{IsExtents}
use nvalloc.Extents.Start.{extents_init-IsExtents}
use nvalloc.Space.{Space}
use nvalloc.Slab.{LruSlabs, Bin}
use nvalloc.Arena.{Arena, arena_get_new_memory_locked}
use nvalloc.Arena.Memory.{IsArena, chunk_pages}
use nvalloc.Arena.Decay.{
  ArenaDecay, smoothstep_nsteps, arena_decay_deadline_init, arena_decay_reinit,
}
use nvalloc.Arena.Backlog.{IsDecay}

-- `DIRTY_DECAY_MS_DEFAULT` and `MUZZY_DECAY_MS_DEFAULT`
abbrev pub dirty_decay_ms_default : ℕ
dirty_decay_ms_default = 10 * 1000

abbrev pub muzzy_decay_ms_default : ℕ
muzzy_decay_ms_default = 100 * 1000

-- what `arena_decay_init` reads: what its memory holds, whether the mutex cannot be made, the time and
-- a random number
pub record DecayStart : Type 0 where
  pub junk : ArenaDecay
  pub no_mutex : Bool
  pub time : ℕ
  pub jitter : ℕ

-- the flag is that it failed
unfoldable pub arena_decay_init : DecayStart → ℕ → Bool × ArenaDecay
unfolding arena_decay_reinit
arena_decay_init start decay_ms =
    let begun : ArenaDecay = record start.junk { purging = false } in
    if start.no_mutex
    then (true, start.junk)
    else (false, arena_decay_reinit begun decay_ms start.time start.jitter)

module _ (heap : ExtentHeap) (list : ExtentList) (tree : ExtentTree) where
  -- the fields of `arena_s` that `arena_new` sets, but the file tree and the log
  pub record NewArena : Type 0 where
    pub arena : Arena heap list tree
    pub decay_dirty : ArenaDecay
    pub decay_muzzy : ArenaDecay
    pub bins : ℕ → Bin
    pub lru : LruSlabs

  -- `arena_new` at address `self`; the result is none where it fails
  unfoldable pub arena_new : ℕ → ℕ → Space tree → DecayStart → DecayStart → Option (Option NewArena)
  unfolding extents_init arena_get_new_memory_locked arena_decay_init
  arena_new self mapped space start_dirty start_muzzy = do
    let empty : Arena heap list tree = record {
      self = self;
      memory_new = null;
      npage_new = 0;
      extents_dirty = extents_init heap list ExtentState.dirty true;
      extents_muzzy = extents_init heap list ExtentState.muzzy false;
      space = space;
    }
    (failed, a) ← arena_get_new_memory_locked heap list tree empty mapped
    let dirty = arena_decay_init start_dirty dirty_decay_ms_default
    let muzzy = arena_decay_init start_muzzy muzzy_decay_ms_default
    let made : Option NewArena = some (record {
      arena = a;
      decay_dirty = dirty.1;
      decay_muzzy = muzzy.1;
      bins = λ i. record { vslabs = []; now_vslab = none };
      lru = record { timestamp = 0; lru_len = 0; morphing_len = 0; lru_vslabs = [] };
    })
    some (if failed then none else if dirty.0 then none else if muzzy.0 then none else made)

-- A decay that has been started satisfies its invariant.
arena_decay_reinit-IsDecay :
    (d : ArenaDecay) (decay_ms time jitter : ℕ)
    → 0 < decay_ms
    → IsDecay (arena_decay_reinit d decay_ms time jitter)
unfolding arena_decay_reinit arena_decay_deadline_init
arena_decay_reinit-IsDecay d decay_ms time jitter pos = record {
  steps = length-replicate {A = ℕ} smoothstep_nsteps 0;
  ticks = ground arith;
  ahead = ground arith;
}

-- a decay with a mutex
abbrev started : DecayStart → ℕ → ArenaDecay
started start decay_ms =
    arena_decay_reinit (record start.junk { purging = false }) decay_ms start.time start.jitter

module _ {heap : ExtentHeap} {list : ExtentList} {tree : ExtentTree} where
  -- an arena as `arena_new` leaves it
  pub record IsNew (mapped : ℕ) (space : Space tree) (n : NewArena heap list tree) : Type 0 where
    pub arena : IsArena n.arena
    pub front : n.arena.memory_new ≡ mapped
    pub whole : n.arena.npage_new ≡ chunk_pages
    pub muzzy : IsExtents n.arena.space.store n.arena.extents_muzzy
    pub no_pages : n.arena.extents_dirty.npages + n.arena.extents_muzzy.npages ≡ 0
    pub same_space : n.arena.space ≡ space
    pub decay_dirty : IsDecay n.decay_dirty
    pub decay_muzzy : IsDecay n.decay_muzzy
    pub no_slabs : (i : ℕ) → n.bins i ≡ record { vslabs = []; now_vslab = none }
    pub none_low : n.lru.lru_len + n.lru.morphing_len ≡ 0

  -- When a chunk is mapped and the mutexes are made, `arena_new` succeeds: the arena has the whole chunk to
  -- give away, no extent and no slab, and the invariants of its extents and of both decays hold.
  pub arena_new-IsNew :
      (self mapped : ℕ) (space : Space tree) (start_dirty start_muzzy : DecayStart)
      → mapped ≢ null
      → start_dirty.no_mutex ≡ false
      → start_muzzy.no_mutex ≡ false
      → (n : NewArena heap list tree) × (arena_new heap list tree self mapped space start_dirty
            start_muzzy
          ≡ some (some n))
        × IsNew mapped space n
  unfolding arena_new arena_get_new_memory_locked arena_decay_init extents_init
  arena_new-IsNew self mapped space start_dirty start_muzzy real ok ok' =
      let here : (mapped == null) ≡ false = ground (arith, real) in
      let n : NewArena heap list tree = record {
        arena = record {
          self = self;
          memory_new = mapped;
          npage_new = chunk_pages;
          extents_dirty = extents_init heap list ExtentState.dirty true;
          extents_muzzy = extents_init heap list ExtentState.muzzy false;
          space = space;
        };
        decay_dirty = started start_dirty dirty_decay_ms_default;
        decay_muzzy = started start_muzzy muzzy_decay_ms_default;
        bins = λ i. record { vslabs = []; now_vslab = none };
        lru = record { timestamp = 0; lru_len = 0; morphing_len = 0; lru_vslabs = [] };
      } in
      (
        n,
        rw (here, ok, ok') refl,
        record {
          arena = record {
            mapped = real;
            within = omega arith;
            dirty = extents_init-IsExtents space.store ExtentState.dirty true;
          };
          front = refl;
          whole = refl;
          muzzy = extents_init-IsExtents space.store ExtentState.muzzy false;
          no_pages = refl;
          same_space = refl;
          decay_dirty =
              arena_decay_reinit-IsDecay (record start_dirty.junk { purging = false })
                dirty_decay_ms_default start_dirty.time start_dirty.jitter (omega arith);
          decay_muzzy =
              arena_decay_reinit-IsDecay (record start_muzzy.junk { purging = false })
                muzzy_decay_ms_default start_muzzy.time start_muzzy.jitter (omega arith);
          no_slabs = λ i. refl;
          none_low = refl;
        },
      )
