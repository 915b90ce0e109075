-- ===== src/Cache.antt =====
-- include/nvalloc/internal/tcache.h, src/tcache.c and src/nvalloc.c: the cache that a thread has for a
-- size class. It is a stack of free blocks for each of the six banks, with a bit per bank that tells
-- whether the stack has a block; allocation takes the banks in turn.
pub mod Turn
pub mod Inv
pub mod Take
pub mod Malloc
use nvalloc.Prelude.{
  ℕ, zero, suc, ◌+◌, ◌-◌, ◌*◌, ◌^◌, Bool, true, false, Option, none, some, List, [], ◌∷◌, ◌++◌,
  if◌then◌else◌, ltb, leb, ◌==◌, ◌>>=◌, ◌>>◌, assert, get_or, get_elem?, set, take, replicate,
  first_one,
}
use nvalloc.Word.{Word, width, all_zeros, shift_one, word_xor, shift_right, ffsl}
use nvalloc.Machine.{nbanks}

abbrev pub num_max_cache : ℕ
num_max_cache = 32

abbrev pub meta_free : ℕ
meta_free = 0

abbrev pub meta_alloced : ℕ
meta_alloced = 1

-- `dmeta_s`
pub record DMeta : Type 0 where
  pub state : ℕ
  pub num_b : ℕ

-- `cache_entry_s`: the address of a block, of the byte and the bit that mark it in its slab, and of
-- its `dmeta_t`
pub record CacheEntry : Type 0 where
  pub ret : ℕ
  pub metas : ℕ
  pub index : ℕ
  pub dmeta : ℕ
  pub is_sb : Bool

-- `cache_s`; `avail` is the array of arrays, one row behind the other
pub record Cache : Type 0 where
  pub ncached : List ℕ
  pub avail : List CacheEntry
  pub bm : Word
  pub now : ℕ

-- the bytes of the marks of all slabs, as bits, and their `dmeta_t`
pub record Marks : Type 0 where
  pub bit : ℕ → ℕ → Bool
  pub dmeta : ℕ → DMeta

abbrev pub write_bit : (ℕ → ℕ → Bool) → ℕ → ℕ → Bool → ℕ → ℕ → Bool
write_bit m byte index on b i = if byte == b then (if index == i then on else m b i) else m b i

unfoldable pub meta_set : Marks → ℕ → ℕ → Marks
meta_set marks meta index = record marks { bit = write_bit marks.bit meta index true }

unfoldable pub meta_unset : Marks → ℕ → ℕ → Marks
meta_unset marks meta index = record marks { bit = write_bit marks.bit meta index false }

unfoldable pub dmeta_set_state : Marks → ℕ → ℕ → Marks
dmeta_set_state marks dmeta state = record marks {
  dmeta = λ d. if dmeta == d then record (marks.dmeta d) { state = state } else marks.dmeta d;
}

-- a cache of `tcache_create`, whose array holds `junk`
unfoldable pub cache_create : List CacheEntry → Cache
cache_create junk = record {
  ncached = replicate nbanks 0;
  avail = junk;
  bm = all_zeros width;
  now = nbanks - 1;
}

-- the next set bit after `now`, in turn; `none` for no set bit, where `__builtin_ctzl` is undefined
unfoldable pub cache_bitmap_findnxt : Word → ℕ → Option ℕ
cache_bitmap_findnxt bm now =
    let tmp = shift_right bm (now + 1) in
    if ffsl tmp == 0 then first_one bm else some (ffsl tmp + now)

-- the argument and the result are of 32 bits
unfoldable pub cache_bitmap_flip : Word → ℕ → Word
cache_bitmap_flip bm pos = word_xor (take 32 bm ++ all_zeros 32) (shift_one pos)

-- `&cache->avail[cid][i]`, as an index of the rows one behind the other
abbrev pub row : ℕ → ℕ → ℕ
row cid i = cid * num_max_cache + i

-- What `slab_pop_one_cache` and `slab_free_small` do to a cache: the entry goes on the stack of its
-- bank. A write behind the row is `none`.
unfoldable pub cache_push : Cache → ℕ → CacheEntry → Option Cache
cache_push cache cid entry = do
  let ncached = get_or cache.ncached cid 0
  assert (ltb ncached num_max_cache)
  some (record cache {
    bm = if ncached == 0 then cache_bitmap_flip cache.bm cid else cache.bm;
    avail = set cache.avail (row cid ncached) entry;
    ncached = set cache.ncached cid (ncached + 1);
  })

-- the inner `while` of `nvalloc_malloc_to`, from the entry at `n` down: the number that is left, and
-- `none` for -1
unfoldable pub drop_sb : List CacheEntry → ℕ → ℕ → Option (Option ℕ)
drop_sb avail now zero = do
  entry ← get_elem? avail (row now 0)
  some (if entry.is_sb then none else some 0)
drop_sb avail now (suc n) =
    let rest = drop_sb avail now n in
    get_elem? avail (row now (suc n)) >>= λ entry. if entry.is_sb then rest else some (some (suc n))

-- the rest of a round of `nvalloc_malloc_to`, with `n + 1` blocks in the bank: the topmost is marked
-- in its slab and returned
unfoldable pub take_top : Cache → Marks → ℕ → ℕ → Option (ℕ × Cache × Marks)
unfolding meta_set dmeta_set_state
take_top cache marks now n = do
  entry ← get_elem? cache.avail (row now n)
  some (
    entry.ret,
    record cache {
      ncached = set cache.ncached now n;
      bm = if n == 0 then cache_bitmap_flip cache.bm now else cache.bm;
      now = now;
    },
    dmeta_set_state (meta_set marks entry.metas entry.index) entry.dmeta meta_alloced,
  )

-- what a round of the loop of `nvalloc_malloc_to` ends in: a block, another round, or the block of the entry
-- before the row of a bank, of which the count is -1 then, where the cache has 0
pub data Round : Type 0 where
  returned : ℕ → Cache → Marks → Round
  continued : Cache → Round
  underran : ℕ → Cache → Marks → Round

-- the entry `avail[now][-1]`: the last of the row before, or `front` in front of the first
unfoldable pub entry_before : CacheEntry → Cache → ℕ → Option CacheEntry
entry_before front cache now =
    if now == 0 then some front else get_elem? cache.avail (row now 0 - 1)

-- a round of the loop; for a bank left with no block the count becomes -1, and the entry before the row is
-- read. `front` is what the memory in front of all rows holds.
unfoldable pub malloc_round : CacheEntry → Cache → Marks → Option Round
unfolding drop_sb take_top entry_before
malloc_round front cache marks = do
  now ← cache_bitmap_findnxt cache.bm cache.now
  left ← drop_sb cache.avail now (get_or cache.ncached now 0)
  elim left [
    | none ↦ some (
        continued
          (record cache { ncached = set cache.ncached now 0; bm = cache_bitmap_flip cache.bm now }))
    | some zero ↦ entry_before front cache now >>= λ entry. some (
        underran entry.ret (record cache { ncached = set cache.ncached now 0; now = now })
          (dmeta_set_state (meta_set marks entry.metas entry.index) entry.dmeta meta_alloced))
    | some (suc n) ↦
        take_top (record cache { ncached = set cache.ncached now (suc n) }) marks now n
        >>= λ (ret, cache', marks'). some (returned ret cache' marks')
  ]
