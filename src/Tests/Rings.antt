-- ===== src/Tests/Rings.antt =====
-- Runs of the write-ahead log and of the choice of an arena.
use nvalloc.Prelude.{ℕ, ◌+◌, ◌≡◌, refl, true, some, none, ◌∷◌, [], arith, get_or, replicate}
use nvalloc.Arenas.{Arenas, choose_arena_hard}
use nvalloc.Arenas.Choose.{IsFewest, choose_arena_hard-IsFewest}
use nvalloc.Minilog.{Minilog, get_slot_in_minilog}
use nvalloc.Minilog.Recent.{add_all, get_or-add_all}

-- three arenas, and the place of a fourth
abbrev others : Arenas
others = some 2 ∷ some 1 ∷ none ∷ []

choose_run :
    choose_arena_hard true (some 3 ∷ others) ≡ some (3, some 3 ∷ some 2 ∷ some 1 ∷ some 1 ∷ [])
unfolding choose_arena_hard
choose_run = refl

choose_arena_hard-IsFewest_example :
    (i k : ℕ) × (arenas' : Arenas) × (choose_arena_hard true (some 3 ∷ others) ≡ some (i, arenas'))
    × IsFewest (some 3 ∷ others) i k arenas'
choose_arena_hard-IsFewest_example = choose_arena_hard-IsFewest others 3 (omega arith)

-- a write-ahead log that is about to start its second round
abbrev log : Minilog
log = record { log_item = replicate 96 7; global_index = 95 }

get_or-add_all_example :
    get_or (add_all log (4096 ∷ 4160 ∷ [])).log_item (get_slot_in_minilog (95 + 1)) 0 ≡ 4160
get_or-add_all_example =
    get_or-add_all log (4096 ∷ 4160 ∷ []) 1 refl (omega arith) (omega arith) (omega arith)
