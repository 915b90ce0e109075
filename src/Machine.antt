-- ===== src/Machine.antt =====
-- The constants of include/nvalloc/internal/nvalloc_internal.h and the arithmetic helpers of
-- include/nvalloc/internal/nvalloc_internal_types.h.
use nvalloc.Prelude.{ℕ, ◌+◌, ◌-◌, ◌%◌, ◌^◌, if◌then◌else◌, ◌==◌}

abbrev pub cacheline_size : ℕ
cacheline_size = 64

abbrev pub page_size : ℕ
page_size = 4096

abbrev pub chunk_size : ℕ
chunk_size = 2 ^ 21

abbrev pub nbanks : ℕ
nbanks = 6

abbrev pub slab_size : ℕ
slab_size = 2 ^ 16

-- the number of values of a `uint64_t`
abbrev pub u64_mod : ℕ
u64_mod = 2 ^ 64

-- `roundUp`; its `int remainder` is exact where `multiple` is below 2 ^ 31, as in every call
unfoldable pub round_up : ℕ → ℕ → ℕ
round_up num_to_round multiple =
    if multiple == 0
    then num_to_round
    else if num_to_round % multiple == 0
    then num_to_round
    else (num_to_round + multiple - num_to_round % multiple) % u64_mod

-- `ALIGNMENT_CEILING(s, alignment)` at a power of two, by the bits that its mask keeps
unfoldable pub alignment_ceiling : ℕ → ℕ → ℕ
alignment_ceiling s alignment = let t = (s + (alignment - 1)) % u64_mod in t - t % alignment
