-- ===== src/Interleave/Log.antt =====
-- `count_to_index` and `minilog_count_to_index`.
use nvalloc.Prelude.{ℕ, ◌+◌, ◌*◌, ◌/◌, ◌%◌, ◌<◌, ◌≡◌, ◌≢◌, arith}
use nvalloc.Interleave.{count_to_index, minilog_count_to_index, minilog_num}

-- the count at which item `index` of a chunk is written
abbrev pub index_to_count : ℕ → ℕ
index_to_count index = index / 48 * 48 + index % 8 * 6 + index % 48 / 8

-- The slot of an item determines how many items were written before it.
pub index_to_count-count_to_index : (count : ℕ) → index_to_count (count_to_index count) ≡ count
unfolding count_to_index
index_to_count-count_to_index count = omega arith

-- Two items that are written one after the other stand in different cache lines of 8 items.
pub count_to_index_lines :
    (count k : ℕ) → 0 < k → k < 6 → count_to_index count / 8 ≢ count_to_index (count + k) / 8
unfolding count_to_index
count_to_index_lines count k p q = omega arith

-- the turn at which record `index` of the write-ahead log is written
abbrev pub minilog_index_to_count : ℕ → ℕ
minilog_index_to_count index = (index % 8 * 6 + index % 48 / 8) * 2 + index / 48

-- The write-ahead log uses each of its records once in a round.
pub minilog_index_to_count-minilog_count_to_index :
    (turn : ℕ)
    → turn < minilog_num
    → (minilog_index_to_count (minilog_count_to_index turn) ≡ turn)
      × (minilog_count_to_index turn < minilog_num)
unfolding minilog_count_to_index
minilog_index_to_count-minilog_count_to_index turn h = omega arith

-- Two records in a row lie in the two different halves of the log, and twelve in a row in twelve
-- different cache lines.
pub minilog_count_to_index_lines :
    (turn k : ℕ)
    → 0 < k
    → k < 12
    → turn + k < minilog_num
    → minilog_count_to_index turn / 8 ≢ minilog_count_to_index (turn + k) / 8
unfolding minilog_count_to_index
minilog_count_to_index_lines turn k p q r = omega arith
