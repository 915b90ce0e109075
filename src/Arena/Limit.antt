-- ===== src/Arena/Limit.antt =====
-- How many pages are purged when a deadline has been reached.
use nvalloc.Prelude.{
  ℕ, ◌+◌, ◌-◌, ◌*◌, ◌^◌, ◌≤◌, ◌<◌, ◌≡◌, Option, some, none, List, [], ◌∷◌, arith, if◌then◌else◌,
  zero, suc, ◌%◌, ◌/◌, refl, sym, ap, ◌∙◌, length, get_or, ltb, ltb→lt, inl, inr, Bool-cases,
}
use nvalloc.Arena.Decay.{
  ArenaDecay, smoothstep_nsteps, smoothstep_bfp, weighted, arena_decay_backlog_npages_limit,
  arena_decay_epoch_advance,
}
use nvalloc.Arena.Backlog.{IsDecay, Shifted, advanced, arena_decay_epoch_advance_helper-Advanced}

abbrev pub total : List ℕ → ℕ
total [] = 0
total (b ∷ bs) = b + total bs

-- no weight is more than one
abbrev pub AreWeights : List ℕ → Type 0
AreWeights [] = Unit
AreWeights (h ∷ hs) = (h ≤ 2 ^ smoothstep_bfp) × AreWeights hs

weighted-le : (bs hs : List ℕ) → AreWeights hs → weighted bs hs ≤ total bs * 2 ^ smoothstep_bfp
unfolding weighted
weighted-le [] hs h = omega arith
weighted-le (b ∷ bs) [] h = omega arith
weighted-le (b ∷ bs) (w ∷ hs) (le, h) =
    let this : b * w ≤ b * 2 ^ smoothstep_bfp = grind arith in
    omega (arith, this, weighted-le bs hs h)

npages_limit-le :
    (hs : List ℕ)
    → AreWeights hs
    → (d : ArenaDecay) → arena_decay_backlog_npages_limit hs d ≤ total d.backlog
unfolding arena_decay_backlog_npages_limit
npages_limit-le hs h d = omega (arith, weighted-le d.backlog hs h)

-- the sum of `f i` for all `i` below `n`
abbrev pub sum_to : ℕ → (ℕ → ℕ) → ℕ
sum_to zero f = 0
sum_to (suc n) f = f 0 + sum_to n (λ i. f (suc i))

-- the pages of each step by the weight of its place
abbrev pub curve_sum : List ℕ → List ℕ → ℕ → ℕ
curve_sum backlog h_steps n = sum_to n (λ i. get_or backlog i 0 * get_or h_steps i 0)

-- how many pages the curve lets stay, as a whole number of `uint64_t`
abbrev pub may_stay : List ℕ → List ℕ → ℕ
may_stay h_steps backlog = curve_sum backlog h_steps smoothstep_nsteps % 2 ^ 64 / 2 ^ smoothstep_bfp

sum_to-none : (n : ℕ) (f : ℕ → ℕ) → sum_to n (λ i. f i * 0) ≡ 0
sum_to-none zero f = refl
sum_to-none (suc n) f = omega (arith, sum_to-none n (λ i. f (suc i)))

weighted-curve_sum : (bs hs : List ℕ) → weighted bs hs ≡ curve_sum bs hs (length bs)
unfolding weighted
weighted-curve_sum [] hs = refl
weighted-curve_sum (b ∷ bs) [] = sym (sum_to-none (length (b ∷ bs)) (λ i. get_or (b ∷ bs) i 0))
weighted-curve_sum (b ∷ bs) (h ∷ hs) = ap (λ n. b * h + n) (weighted-curve_sum bs hs)

npages_limit-may_stay :
    (hs : List ℕ) (d : ArenaDecay)
    → length d.backlog ≡ smoothstep_nsteps
    → arena_decay_backlog_npages_limit hs d ≡ may_stay hs d.backlog
unfolding arena_decay_backlog_npages_limit
npages_limit-may_stay hs d full =
    ap (λ n. n % 2 ^ 64 / 2 ^ smoothstep_bfp)
      (weighted-curve_sum d.backlog hs ∙ ap (curve_sum d.backlog hs) full)

-- the limit and the pages above it, if there are any
abbrev pub over : ℕ → ℕ → Option (ℕ × ℕ)
over limit current = if ltb limit current then some (limit, current - limit) else none

-- what is decided when a deadline has been reached
pub record Decided (h_steps : List ℕ) (d : ArenaDecay) (time jitter current : ℕ) (d' : ArenaDecay)
    (purge : Option (ℕ × ℕ)) : Type 0 where
  pub result : arena_decay_epoch_advance h_steps d time jitter current ≡ some (d', purge)
  pub inv : IsDecay d'
  pub later : time < d'.deadline
  pub whole : d'.epoch ≡ d.epoch + d.interval * advanced d time jitter current
  pub shift : Shifted d (advanced d time jitter current) current d'
  pub decided : purge ≡ over (may_stay h_steps d'.backlog) current
  pub low : may_stay h_steps d'.backlog ≤ total d'.backlog
  pub kept :
      d'.nunpurged
      ≡ (if ltb current (may_stay h_steps d'.backlog) then may_stay h_steps d'.backlog else current)
  pub purged :
      (limit count : ℕ)
      → purge ≡ some (limit, count)
      → (limit + count ≡ current) × (limit ≤ total d'.backlog) × (0 < count)

module _ (h_steps : List ℕ) (weights : AreWeights h_steps) (d : ArenaDecay)
    (time jitter current : ℕ) (is : IsDecay d) (reached : d.deadline ≤ time) where
  -- At a time not before the deadline the epoch goes on by whole intervals and the backlog moves by as many
  -- places. The limit is the sum of the pages of every step of the new backlog by the weight of its
  -- place, as a number of 64 bits without its fraction. Where there are more pages than the limit, those
  -- above it are to be purged, and else none; the larger of both counts as not purged. Where no weight of
  -- the curve is more than one, the limit is no more than the backlog has in all.
  pub arena_decay_epoch_advance-Decided :
      (d' : ArenaDecay) × (purge : Option (ℕ × ℕ)) × Decided h_steps d time jitter current d' purge
  unfolding arena_decay_epoch_advance
  arena_decay_epoch_advance-Decided =
      let (d1, a) = arena_decay_epoch_advance_helper-Advanced d time jitter current is reached in
      let limit : ℕ = arena_decay_backlog_npages_limit h_steps d1 in
      let tied : limit ≡ may_stay h_steps d1.backlog =
        npages_limit-may_stay h_steps d1 a.inv.steps in
      let low : limit ≤ total d1.backlog = npages_limit-le h_steps weights d1 in
      let next : ArenaDecay = record d1 {
        nunpurged = if ltb current limit then limit else current;
      } in
      (
        next,
        over limit current,
        record {
          result = rw a.result;
          inv = record { steps = a.inv.steps; ticks = a.inv.ticks; ahead = a.inv.ahead };
          later = a.later;
          whole = a.whole;
          shift = record { steps = a.shift.steps; last = a.shift.last; moved = a.shift.moved };
          decided = ap (λ n. over n current) tied;
          low = rw (sym tied) low;
          kept = ap (λ n. if ltb current n then n else current) tied;
          purged = λ l c e. bounds limit (total d1.backlog) low l c e;
        },
      )
    where
      bounds :
          (limit most : ℕ)
          → limit ≤ most
          → (l c : ℕ) → over limit current ≡ some (l, c)
          → (l + c ≡ current) × (l ≤ most) × (0 < c)
      bounds limit most low l c e = elim (Bool-cases (ltb limit current)) [
        | inl q ↦
            let lt = ltb→lt limit current q in
            let same : some (limit, current - limit) ≡ some (l, c) = rw q at e in
            let l_is : limit ≡ l = cc in
            let c_is : current - limit ≡ c = cc in (omega arith, omega arith, omega arith)
        | inr q ↦ cc (q, e)
      ]
