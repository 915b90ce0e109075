-- ===== src/Arena/Backlog.antt =====
-- When a deadline is reached: the epoch goes on by whole steps, the backlog is shifted by as many, and
-- no more pages are to be purged than are above the limit.
use nvalloc.Prelude.{
  ℕ, ◌+◌, ◌-◌, ◌*◌, ◌/◌, ◌≤◌, ◌<◌, ◌≡◌, refl, ap, ◌∙◌, false, some, List, ◌++◌, arith,
  if◌then◌else◌, ltb, leb, le→leb, lt→ltb, ◌==◌, length, get_or, drop, replicate, length-append,
  length-replicate, length-drop, length-set, get_or-set, get_or-drop, get_or-replicate,
  get_or-append_left, get_or-append_right, inl, inr, Bool-cases,
}
use native.Mathlib.Decide.{dec_le, dec_lt}
use native.Mathlib.Nat.{mul-div-le, lt-div-mul-add}
use nvalloc.Arena.Decay.{
  ArenaDecay, smoothstep_nsteps, arena_decay_deadline_init, arena_decay_deadline_reached,
  arena_decay_backlog_update_last, arena_decay_backlog_update, arena_decay_epoch_advance_helper,
}

pub record IsDecay (d : ArenaDecay) : Type 0 where
  pub steps : length d.backlog ≡ smoothstep_nsteps
  pub ticks : 0 < d.interval
  pub ahead : d.epoch + d.interval ≤ d.deadline

-- what stands behind the entries that were moved
abbrev tail_of : ℕ → List ℕ → List ℕ
tail_of n b =
    if ltb 1 n
    then replicate (n - 1) 0 ++ drop (smoothstep_nsteps - 1) b
    else drop (smoothstep_nsteps - n) b

module _ (b : List ℕ) (n : ℕ) (full : length b ≡ smoothstep_nsteps) (pos : 0 < n) where
  length-tail_of : n ≤ smoothstep_nsteps → length (tail_of n b) ≡ n
  length-tail_of le = elim (Bool-cases (ltb 1 n)) [
    | inl e ↦ rw e (
        ground (
          arith,
          length-append (replicate (n - 1) 0) (drop (smoothstep_nsteps - 1) b),
          length-replicate {A = ℕ} (n - 1) 0,
          length-drop (smoothstep_nsteps - 1) b,
        ))
    | inr e ↦ rw e (ground (arith, length-drop (smoothstep_nsteps - n) b))
  ]

  get_or-tail_of : (k : ℕ) → k + 1 < n → get_or (tail_of n b) k 0 ≡ 0
  get_or-tail_of k lt = rw (lt→ltb 1 n (omega arith)) (
      get_or-append_left (replicate (n - 1) 0) (drop (smoothstep_nsteps - 1) b) k 0
        (omega (arith, length-replicate {A = ℕ} (n - 1) 0))
      ∙ get_or-replicate (n - 1) 0 k)

  -- the entries but the last
  get_or-shifted :
      n < smoothstep_nsteps
      → (i : ℕ) → i < smoothstep_nsteps - 1
      → get_or (drop n b ++ tail_of n b) i 0
        ≡ (if ltb (i + n) smoothstep_nsteps then get_or b (i + n) 0 else 0)
  get_or-shifted small i lt = elim (dec_lt (i + n) smoothstep_nsteps) [
    | yes inside ↦ rw (lt→ltb (i + n) smoothstep_nsteps inside) (
        get_or-append_left (drop n b) (tail_of n b) i 0 (omega (arith, length-drop n b))
        ∙ get_or-drop n b i 0
        ∙ ap (λ k. get_or b k 0) (omega arith))
    | no outside ↦
        let k : ℕ = i - length (drop n b) in
        let at : i ≡ length (drop n b) + k = omega (arith, length-drop n b) in
        ap (λ j. get_or (drop n b ++ tail_of n b) j 0) at
        ∙ get_or-append_right (drop n b) (tail_of n b) k 0
        ∙ get_or-tail_of k (omega (arith, length-drop n b))
        ∙ ground (arith, outside)
  ]

-- the backlog behind an update: entry `i` is the one `n` steps on, and the last the pages that came
pub record Shifted (d : ArenaDecay) (n current : ℕ) (d' : ArenaDecay) : Type 0 where
  pub steps : length d'.backlog ≡ smoothstep_nsteps
  pub last :
      get_or d'.backlog (smoothstep_nsteps - 1) 0
      ≡ (if ltb d.nunpurged current then current - d.nunpurged else 0)
  pub moved :
      (i : ℕ)
      → i < smoothstep_nsteps - 1
      → get_or d'.backlog i 0
        ≡ (if ltb (i + n) smoothstep_nsteps then get_or d.backlog (i + n) 0 else 0)

not_last : (i : ℕ) → i < smoothstep_nsteps - 1 → (smoothstep_nsteps - 1 == i) ≡ false
not_last i lt = ground arith

module _ (d : ArenaDecay) (n current : ℕ) (full : length d.backlog ≡ smoothstep_nsteps)
    (pos : 0 < n) where
  abbrev shifted : List ℕ
  shifted =
      if leb smoothstep_nsteps n
      then replicate (smoothstep_nsteps - 1) 0 ++ drop (smoothstep_nsteps - 1) d.backlog
      else drop n d.backlog ++ tail_of n d.backlog

  length-shifted : length shifted ≡ smoothstep_nsteps
  length-shifted = elim (Bool-cases (leb smoothstep_nsteps n)) [
    | inl e ↦ rw e (
        length-append (replicate (smoothstep_nsteps - 1) 0) (drop (smoothstep_nsteps - 1) d.backlog)
        ∙ omega (
          arith,
          full,
          length-replicate {A = ℕ} (smoothstep_nsteps - 1) 0,
          length-drop (smoothstep_nsteps - 1) d.backlog,
        ))
    | inr e ↦ rw e (
        length-append (drop n d.backlog) (tail_of n d.backlog)
        ∙ omega (
          arith,
          full,
          length-drop n d.backlog,
          small e,
          length-tail_of d.backlog n full pos (small e),
        ))
  ]
    where
      small : leb smoothstep_nsteps n ≡ false → n ≤ smoothstep_nsteps
      small e = ground (arith, e)

  get_or-moved :
      (i : ℕ)
      → i < smoothstep_nsteps - 1
      → get_or shifted i 0
        ≡ (if ltb (i + n) smoothstep_nsteps then get_or d.backlog (i + n) 0 else 0)
  get_or-moved i lt = elim (dec_le smoothstep_nsteps n) [
    | yes le ↦ rw (le→leb smoothstep_nsteps n le) (
        get_or-append_left (replicate (smoothstep_nsteps - 1) 0)
          (drop (smoothstep_nsteps - 1) d.backlog) i 0
          (omega (arith, length-replicate {A = ℕ} (smoothstep_nsteps - 1) 0))
        ∙ get_or-replicate (smoothstep_nsteps - 1) 0 i
        ∙ ground (arith, le))
    | no gt ↦
        let e : leb smoothstep_nsteps n ≡ false = ground (arith, gt) in
        rw e (get_or-shifted d.backlog n full pos (omega arith) i lt)
  ]

  pub arena_decay_backlog_update-Shifted :
      Shifted d n current (arena_decay_backlog_update d n current)
  unfolding arena_decay_backlog_update arena_decay_backlog_update_last
  arena_decay_backlog_update-Shifted = record {
    steps = length-set shifted (smoothstep_nsteps - 1) _ ∙ length-shifted;
    last =
        get_or-set shifted (smoothstep_nsteps - 1) (smoothstep_nsteps - 1) _ 0
          (omega (arith, length-shifted));
    moved = λ i lt.
        get_or-set shifted (smoothstep_nsteps - 1) i _ 0 (omega (arith, length-shifted))
        ∙ rw (not_last i lt) (get_or-moved i lt);
  }

none_of : (n : ℕ) → ¬ 1 ≤ n → n ≡ 0
none_of n h = omega arith

-- the state when a deadline has been reached, `n` steps behind the epoch
module _ (d : ArenaDecay) (time jitter current : ℕ) where
  abbrev pub advanced : ℕ
  advanced = (time - d.epoch) / d.interval

  pub record Advanced (d' : ArenaDecay) : Type 0 where
    pub result : arena_decay_epoch_advance_helper d time jitter current ≡ some d'
    pub inv : IsDecay d'
    pub same_interval : d'.interval ≡ d.interval
    pub whole : d'.epoch ≡ d.epoch + d.interval * advanced
    pub began : d'.epoch ≤ time
    pub current_step : time < d'.epoch + d'.interval
    pub later : time < d'.deadline
    pub shift : Shifted d advanced current d'

  -- At a time not before the deadline the epoch goes on by whole intervals to the one that the
  -- time is in, the deadline comes behind the time, each entry of the backlog moves by as many
  -- places while those that come in are 0, and the last is the pages that came since.
  pub arena_decay_epoch_advance_helper-Advanced :
      IsDecay d → d.deadline ≤ time → (d' : ArenaDecay) × Advanced d'
  unfolding arena_decay_epoch_advance_helper arena_decay_deadline_reached arena_decay_deadline_init
      arena_decay_backlog_update arena_decay_backlog_update_last
  arena_decay_epoch_advance_helper-Advanced is reached =
      let d1 : ArenaDecay = record d {
        epoch = d.epoch + d.interval * advanced;
        deadline =
            d.epoch + d.interval * advanced + d.interval + (if ltb 0 d.time_ms then jitter else 0);
      } in
      let below : d.interval * advanced ≤ time - d.epoch = mul-div-le (time - d.epoch) d.interval in
      let above : time - d.epoch < advanced * d.interval + d.interval =
        lt-div-mul-add {a = time - d.epoch} {b = d.interval} is.ticks in
      let swap : advanced * d.interval ≡ d.interval * advanced = grind arith in
      let some_step : 0 < advanced = elim (dec_le 1 advanced) [
        | yes le ↦ le
        | no gt ↦
            let none_gone : advanced * d.interval ≡ 0 * d.interval =
              ap (λ k. k * d.interval) (none_of advanced gt) in
            absurd (omega (arith, above, none_gone, is.ahead, is.ticks, reached))
      ] in
      let update = arena_decay_backlog_update-Shifted d1 advanced current is.steps some_step in
      (
        arena_decay_backlog_update d1 advanced current,
        record {
          result = rw (le→leb d.deadline time reached, lt→ltb 0 advanced some_step);
          inv = record { steps = update.steps; ticks = is.ticks; ahead = omega arith };
          same_interval = refl;
          whole = refl;
          began = omega (arith, below, is.ahead, reached);
          current_step = omega (arith, above, swap);
          later = omega (arith, above, swap);
          shift = record { steps = update.steps; last = update.last; moved = update.moved };
        },
      )
