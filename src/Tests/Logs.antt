-- ===== src/Tests/Logs.antt =====
-- Runs of the log, over a tree that is a list of addresses.
use nvalloc.Prelude.{
  ℕ, zero, suc, ◌+◌, ◌*◌, ◌≤◌, ◌<◌, ◌≡◌, ◌≢◌, refl, Bool, true, false, ◌&&◌, some, List, [], ◌∷◌,
  arith, get_or, replicate, if◌then◌else◌, ◌==◌, inr,
}
use nvalloc.Word.{all_zeros, width}
use nvalloc.Bitmap.View.{bits}
use nvalloc.Bitmap.Search.{get_or-zeros}
use nvalloc.Interleave.{count_to_index}
use nvalloc.Log.{
  ChunkTree, VLog, VlChunk, log_item, free_log, normal_log, lchunk_size, item_addr, append_log,
  fresh_lchunk, fresh_vlchunk,
}
use nvalloc.Log.Inv.{IsLog, IsChunk, fresh_vlchunk-IsChunk}
use nvalloc.Log.Add.{Added, append_log-adds, append_log-frees}

abbrev pub addresses_search : List ℕ → ℕ → Bool
addresses_search [] a = false
addresses_search (k ∷ t) a = let rest = addresses_search t a in if k == a then true else rest

abbrev pub addresses_remove : ℕ → List ℕ → List ℕ
addresses_remove k [] = []
addresses_remove k (x ∷ t) = let rest = addresses_remove k t in if x == k then rest else x ∷ rest

pub search_remove :
    (t : List ℕ) (k a : ℕ)
    → addresses_search (addresses_remove k t) a ≡ (if k == a then false else addresses_search t a)
search_remove [] k a = ground arith
search_remove (x ∷ t) k a = ground (arith, search_remove t k a)

abbrev pub addresses : ChunkTree
addresses = record {
  Tree = List ℕ;
  new = [];
  insert = λ k t. k ∷ t;
  remove = addresses_remove;
  search = addresses_search;
  elements = λ t. t;
  search-new = λ a. refl;
  search-insert = λ t k a. refl;
  search-remove = search_remove;
}

-- a log of one chunk, the 1026th of memory, whose first item is live or still to be written
abbrev pub chunk : ℕ
chunk = 1026 * lchunk_size

abbrev pub one_item : VlChunk
one_item = record {
  count = 1;
  bitmap = (true ∷ replicate 63 false) ∷ all_zeros width ∷ [];
  id = 5;
  pre_lchunk = 1025 * lchunk_size;
}

abbrev pub log_of : VlChunk → VLog addresses
log_of vl = record {
  gc_timer = 0;
  vlchunks = chunk ∷ [];
  tail = chunk;
  global_lchunk_id = 6;
  global_free_list = [];
  log_file_addr = 1024 * lchunk_size;
  log_file_used = 3 * lchunk_size;
  num_of_chunks = 2;
  num_of_items = 1;
  alt = 0;
  roots = λ k. 1025 * lchunk_size;
  log = 0;
  volatile = λ a. vl;
  persistent = λ a. fresh_lchunk 5;
}

pub one_item-IsChunk : IsChunk one_item
unfolding count_to_index
one_item-IsChunk = record {
  shape = record { words = (refl, (refl, tt)); two = refl };
  count_le = omega arith;
  unused = later;
}
  where
    behind : (n : ℕ) → n ≢ 0 → get_or (bits one_item.bitmap) n false ≡ false
    behind zero ne = absurd (ne refl)
    behind (suc n) ne = get_or-zeros 127 n

    later :
        (k : ℕ) → 1 ≤ k → k ≤ 100 → get_or (bits one_item.bitmap) (count_to_index k) false ≡ false
    later k le small = behind (count_to_index k) (λ e. omega arith)

pub log_of-IsLog : (vl : VlChunk) → IsChunk vl → IsLog addresses (log_of vl)
log_of-IsLog vl is = record {
  tail_in = refl;
  chunks = λ c h. is;
  in_file = λ c h. inside c h;
  spare = tt;
  mapped = omega arith;
  sized = λ c h. refl;
}
  where
    inside :
        (c : ℕ) → addresses_search (chunk ∷ []) c ≡ true → c < 1024 * lchunk_size + 3 * lchunk_size
    inside c h = ground arith

append_log-adds_example :
    (c i : ℕ) × (v' : VLog addresses) × (append_log addresses
        (log_of (fresh_vlchunk 5))
        normal_log
        4096
        16
        true
      ≡ some (item_addr c i, v'))
    × Added addresses (log_of (fresh_vlchunk 5)) c i (log_item normal_log 4096 17) (λ a k. false) v'
append_log-adds_example =
    append_log-adds addresses (log_of (fresh_vlchunk 5)) normal_log 4096 16 true
      (log_of-IsLog (fresh_vlchunk 5) (fresh_vlchunk-IsChunk 5)) (inr (omega arith)) refl

append_log-frees_example :
    (c i id : ℕ) × (v' : VLog addresses) × (append_log addresses
        (log_of one_item)
        free_log
        (item_addr chunk 0)
        0
        false
      ≡ some (item_addr c i, v'))
    × Added addresses
        (log_of one_item)
        c
        i
        (log_item free_log (item_addr chunk 0) id)
        (λ a k. (chunk == a) && (0 == k))
        v'
append_log-frees_example =
    append_log-frees addresses (log_of one_item) 1026 0 0 false
      (log_of-IsLog one_item one_item-IsChunk) (inr (omega arith)) refl (omega arith) (omega arith)
