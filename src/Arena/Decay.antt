-- ===== src/Arena/Decay.antt =====
-- src/arena.c: how many pages that are not in use an arena may keep. Time is cut into steps of an
-- interval; the backlog has the pages that came in each of the last steps, and they are weighted by
-- the curve of include/nvalloc/internal/smoothstep.h, which is a parameter. Times are nanoseconds.
use nvalloc.Prelude.{
  ℕ, ◌+◌, ◌-◌, ◌*◌, ◌/◌, ◌%◌, ◌^◌, Bool, Option, none, some, List, [], ◌∷◌, ◌++◌, if◌then◌else◌,
  ltb, leb, ◌>>=◌, ◌>>◌, assert, set, drop, replicate,
}
use nvalloc.Machine.{u64_mod}

-- `SMOOTHSTEP_NSTEPS` and `SMOOTHSTEP_BFP`
abbrev pub smoothstep_nsteps : ℕ
smoothstep_nsteps = 200

abbrev pub smoothstep_bfp : ℕ
smoothstep_bfp = 24

-- `arena_decay_s`, but for its mutex and the state of the random numbers
pub record ArenaDecay : Type 0 where
  pub purging : Bool
  pub time_ms : ℕ
  pub interval : ℕ
  pub epoch : ℕ
  pub deadline : ℕ
  pub nunpurged : ℕ
  pub backlog : List ℕ

-- `jitter` is the random number below the interval that is added
unfoldable pub arena_decay_deadline_init : ArenaDecay → ℕ → ArenaDecay
arena_decay_deadline_init decay jitter = record decay {
  deadline = decay.epoch + decay.interval + (if ltb 0 decay.time_ms then jitter else 0);
}

-- `time` is the time at the call
unfoldable pub arena_decay_reinit : ArenaDecay → ℕ → ℕ → ℕ → ArenaDecay
arena_decay_reinit decay decay_ms time jitter =
    let interval =
      if ltb 0 decay_ms then decay_ms * 1000000 / smoothstep_nsteps else decay.interval in
    let d =
      arena_decay_deadline_init
        (record decay { time_ms = decay_ms; interval = interval; epoch = time }) jitter in
    record d { nunpurged = 0; backlog = replicate smoothstep_nsteps 0 }

unfoldable pub arena_decay_deadline_reached : ArenaDecay → ℕ → Bool
arena_decay_deadline_reached decay time = leb decay.deadline time

unfoldable pub arena_decay_backlog_update_last : ArenaDecay → ℕ → ArenaDecay
arena_decay_backlog_update_last decay current_npages =
    let npages_delta =
      if ltb decay.nunpurged current_npages then current_npages - decay.nunpurged else 0 in
    record decay { backlog = set decay.backlog (smoothstep_nsteps - 1) npages_delta }

-- The last entry is left by the shift and written behind it.
unfoldable pub arena_decay_backlog_update : ArenaDecay → ℕ → ℕ → ArenaDecay
arena_decay_backlog_update decay nadvance current_npages =
    let last = drop (smoothstep_nsteps - 1) decay.backlog in
    let shifted =
      if leb smoothstep_nsteps nadvance
      then replicate (smoothstep_nsteps - 1) 0 ++ last
      else drop nadvance decay.backlog
        ++ (if ltb 1 nadvance
            then replicate (nadvance - 1) 0 ++ last
            else drop (smoothstep_nsteps - nadvance) decay.backlog) in
    arena_decay_backlog_update_last (record decay { backlog = shifted }) current_npages

unfoldable pub arena_decay_epoch_advance_helper : ArenaDecay → ℕ → ℕ → ℕ → Option ArenaDecay
arena_decay_epoch_advance_helper decay time jitter current_npages = do
  assert (arena_decay_deadline_reached decay time)
  let nadvance = (time - decay.epoch) / decay.interval
  assert (ltb 0 nadvance)
  let epoch = decay.epoch + decay.interval * nadvance
  let d = arena_decay_deadline_init (record decay { epoch = epoch }) jitter
  some (arena_decay_backlog_update d nadvance current_npages)

-- the sum of `arena_decay_backlog_npages_limit`
unfoldable pub weighted : List ℕ → List ℕ → ℕ
weighted [] steps = 0
weighted (b ∷ backlog) [] = 0
weighted (b ∷ backlog) (h ∷ steps) = b * h + weighted backlog steps

unfoldable pub arena_decay_backlog_npages_limit : List ℕ → ArenaDecay → ℕ
arena_decay_backlog_npages_limit h_steps decay =
    weighted decay.backlog h_steps % u64_mod / 2 ^ smoothstep_bfp

-- the state and, if there are more pages than may be kept, the limit and how many are to be purged
unfoldable pub arena_decay_epoch_advance :
    List ℕ → ArenaDecay → ℕ → ℕ → ℕ → Option (ArenaDecay × Option (ℕ × ℕ))
arena_decay_epoch_advance h_steps decay time jitter current_npages = do
  d ← arena_decay_epoch_advance_helper decay time jitter current_npages
  let npages_limit = arena_decay_backlog_npages_limit h_steps d
  let d' = record d {
    nunpurged = if ltb current_npages npages_limit then npages_limit else current_npages;
  }
  some (
    d',
    if ltb npages_limit current_npages
        then some (npages_limit, current_npages - npages_limit)
        else none,
  )
