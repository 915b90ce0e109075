-- ===== src/Interleave.antt =====
-- The interleaved mappings: `bid_to_mid` of include/nvalloc/internal/slab.h places the mark of
-- block `bid` in the persistent bitmap of a slab, `count_to_index` of src/log.c the next item in
-- a log chunk, and `minilog_count_to_index` of src/minilog.c the next record of the write-ahead
-- log, so that one write and the next go to different cache lines.
pub mod Slab
pub mod Log
use nvalloc.Prelude.{ℕ, ◌+◌, ◌*◌, ◌/◌, ◌%◌}
use nvalloc.Machine.{cacheline_size, nbanks}

unfoldable pub bid_to_mid : ℕ → ℕ
bid_to_mid bid =
    let n : ℕ = 512 in
    let nn = n * nbanks in let i = bid % nn in bid / nn * nn + bid % nbanks * n + i / nbanks

-- `sizeof(ITEM_SIZE)` is the size of a `size_t`
unfoldable pub count_to_index : ℕ → ℕ
count_to_index bid =
    let n = cacheline_size / 8 in
    let nn = n * nbanks in let i = bid % nn in bid / nn * nn + bid % nbanks * n + i / nbanks

-- a record of the write-ahead log is one `uint64_t`
abbrev pub minilog_item_size : ℕ
minilog_item_size = 8

abbrev pub minilog_num : ℕ
minilog_num = nbanks * 2 * (cacheline_size / minilog_item_size)

unfoldable pub minilog_count_to_index : ℕ → ℕ
minilog_count_to_index bid =
    let alt = bid % 2 in
    let bid2 = bid / 2 in
    let n = cacheline_size / minilog_item_size in
    let banks = minilog_num / 2 / n in bid2 % banks * n + bid2 / banks + alt * minilog_num / 2
