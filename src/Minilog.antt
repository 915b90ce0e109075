-- ===== src/Minilog.antt =====
-- include/nvalloc/internal/minilog.h and src/minilog.c: the write-ahead log, a ring of addresses.
pub mod Recent
use nvalloc.Prelude.{ℕ, ◌+◌, ◌%◌, List, replicate, set}
use nvalloc.Interleave.{minilog_num, minilog_count_to_index}
use nvalloc.Machine.{u64_mod}

-- `minilog_s`, with `global_index`
pub record Minilog : Type 0 where
  pub log_item : List ℕ
  pub global_index : ℕ

unfoldable pub minilog_create : Minilog
minilog_create = record { log_item = replicate minilog_num 0; global_index = 0 }

abbrev pub get_slot_in_minilog : ℕ → ℕ
get_slot_in_minilog global_index = minilog_count_to_index (global_index % minilog_num)

unfoldable pub add_minilog : Minilog → ℕ → Minilog
add_minilog log ptr = record {
  log_item = set log.log_item (get_slot_in_minilog log.global_index) ptr;
  global_index = (log.global_index + 1) % u64_mod;
}
