-- ===== src/Arenas.antt =====
-- src/nvalloc.c: which arena a thread gets. An arena is known by its index, and of each there is the
-- number of its threads, `none` where the array has no arena yet.
pub mod Choose
use nvalloc.Prelude.{
  ℕ, suc, ◌+◌, ◌-◌, ◌%◌, ◌^◌, Bool, true, false, not, ◌&&◌, ◌||◌, Option, none, some, List, [], ◌∷◌,
  length, get_elem?, set, if◌then◌else◌, ltb, ◌==◌, ◌>>=◌,
}

abbrev pub Arenas : Type 0
Arenas = List (Option ℕ)

-- `arenas[i]->nthreads`, of an arena that there is
abbrev pub nthreads : Arenas → ℕ → Option ℕ
nthreads arenas i = get_elem? arenas i >>= λ a. a

-- `created` tells whether memory for the arena is found and `arena_new` succeeds; else the first
-- arena is returned
unfoldable pub arenas_extend : Bool → Arenas → ℕ → ℕ × Arenas
arenas_extend created arenas ind = if created then (ind, set arenas ind (some 0)) else (0, arenas)

-- the loop of `choose_arena_hard` over the arenas from `i` on: the one chosen, with its threads, and
-- the first index without an arena
unfoldable pub scan : ℕ → Arenas → ℕ → ℕ → ℕ → ℕ → ℕ × ℕ × ℕ
scan narenas_auto [] i choose n first_null = (choose, n, first_null)
scan narenas_auto (some m ∷ rest) i choose n first_null =
    scan narenas_auto rest (i + 1) (if ltb m n then i else choose) (if ltb m n then m else n)
      first_null
scan narenas_auto (none ∷ rest) i choose n first_null =
    scan narenas_auto rest (i + 1) choose n (if first_null == narenas_auto then i else first_null)

-- `ret->nthreads++`
unfoldable pub add_thread : Arenas → ℕ → Option (ℕ × Arenas)
add_thread arenas i = nthreads arenas i >>= λ n. some (i, set arenas i (some ((n + 1) % 2 ^ 32)))

-- the arena for a thread, of which there is a first
unfoldable pub choose_arena_hard : Bool → Arenas → Option (ℕ × Arenas)
unfolding arenas_extend scan add_thread
choose_arena_hard created [] = none
choose_arena_hard created (none ∷ rest) = none
choose_arena_hard created (some n ∷ rest) =
    let arenas : Arenas = some n ∷ rest in
    let narenas_auto = length arenas in
    let (choose, least, first_null) = scan narenas_auto rest 1 0 n narenas_auto in
    let (new, extended) = arenas_extend created arenas first_null in
    if ltb 1 narenas_auto
    then if least == 0 || first_null == narenas_auto
      then add_thread arenas choose
      else add_thread extended new
    else add_thread arenas 0

-- `arenas_cleanup`, when the thread ends; the counter is an `unsigned`
unfoldable pub arenas_cleanup : Arenas → ℕ → Option Arenas
arenas_cleanup arenas i =
    nthreads arenas i >>= λ n. some (set arenas i (some ((n + 2 ^ 32 - 1) % 2 ^ 32)))
