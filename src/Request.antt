-- ===== src/Request.antt =====
-- `is_small_size` of src/nvalloc.c and the number of pages that `nvalloc_malloc_to` takes for a large block.
use nvalloc.Prelude.{
  ℕ, ◌+◌, ◌*◌, ◌/◌, ◌%◌, ◌≤◌, ◌<◌, ◌||◌, Option, none, some, arith, if◌then◌else◌, ltb, ◌==◌,
}
use nvalloc.Machine.{page_size}
use nvalloc.SizeClass.Table.{max_sz, sizeclass_lookup}

-- the class of a small size; the classes 32, 36 and 38 are not used
unfoldable pub is_small_size : ℕ → Option ℕ
is_small_size size =
    let idx = sizeclass_lookup size in
    if ltb max_sz size
    then none
    else if (idx == 32) || (idx == 36) || (idx == 38)
    then none
    else some idx

unfoldable pub request_pages : ℕ → ℕ
request_pages size = if size % page_size == 0 then size / page_size else size / page_size + 1

-- The pages hold the size, and one page less would not.
pages_hold :
    (size : ℕ)
    → (size ≤ request_pages size * page_size) × (request_pages size * page_size < size + page_size)
unfolding request_pages
pages_hold size = ground arith
