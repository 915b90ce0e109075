-- ===== src/Bitmap.antt =====
-- include/nvalloc/internal/bitmap.h: the array of words in which a slab keeps its free blocks (a
-- set bit is a free block), and in which `extents_t` keeps its size classes that are not empty.
pub mod View
pub mod Search
use nvalloc.Prelude.{
  ℕ, suc, zero, ◌+◌, ◌-◌, ◌*◌, ◌/◌, ◌%◌, Bool, true, false, Option, none, some, List, [], ◌∷◌,
  if◌then◌else◌, ltb, ◌==◌, assert, ◌>>=◌, ◌>>◌, get_or, set,
}
use nvalloc.Word.{Word, shift_one, word_or, word_and, word_xor, negate, shift_right, ffsl, popcount}

-- `bitmap_t *` with the words that it points to
abbrev pub Bitmap : Type 0
Bitmap = List Word

-- `bitmap_header_s`
pub record BitmapHeader : Type 0 where
  pub nbits : ℕ
  pub cur : ℕ

-- the first set bit from `min_bit` on; the assertion fails if there is none
unfoldable pub bitmap_ffu : Word → ℕ → Option ℕ
bitmap_ffu bm min_bit =
    let tmp = shift_right bm min_bit in
    if ffsl tmp == 0 then none else some (ffsl tmp - 1 + min_bit)

-- the `while` of `bitmap_sfu`, at word `i`, with the words from there on
unfoldable pub sfu_scan : ℕ → ℕ → Bitmap → Option (ℕ × ℕ × Word)
sfu_scan num i [] = none
sfu_scan num i (g ∷ gs) =
    let rest = sfu_scan num (i + 1) gs in
    if ffsl g == 0 then (assert (ltb (i + 1) num) >> rest) else some (i, ffsl g, g)

-- the first set bit, and the bitmap with that bit cleared if `do_set`
unfoldable pub bitmap_sfu : ℕ → ℕ → Bitmap → Bool → Option (ℕ × Bitmap)
unfolding sfu_scan
bitmap_sfu num nbits bitmap do_set = do
  (i, bit, g) ← sfu_scan num 0 bitmap
  some (
    bit - 1 + i * 64,
    if do_set then set bitmap i (word_xor g (word_and g (negate g))) else bitmap,
  )

unfoldable pub bitmap_unset_bits : Bitmap → ℕ → Bitmap
bitmap_unset_bits bitmap index =
    let group_index = index / 64 in
    let bit_index = index % 64 in
    set bitmap group_index (word_or (get_or bitmap group_index []) (shift_one bit_index))

unfoldable pub bitmap_set_bits : Bitmap → ℕ → Bitmap
bitmap_set_bits bitmap index =
    let group_index = index / 64 in
    let bit_index = index % 64 in
    set bitmap group_index (word_xor (get_or bitmap group_index []) (shift_one bit_index))

-- the sum of the loop of `get_bitmap_num`
unfoldable pub popcounts : Bitmap → ℕ
popcounts [] = 0
popcounts (w ∷ ws) = popcount w + popcounts ws

-- how many of the bits of `num` words are clear
unfoldable pub get_bitmap_num : Bitmap → ℕ → ℕ
unfolding popcounts
get_bitmap_num bitmap num = 64 * num - popcounts bitmap
