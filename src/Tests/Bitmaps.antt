-- ===== src/Tests/Bitmaps.antt =====
-- Runs of the bitmap and of the interleaved mappings.
use nvalloc.Prelude.{◌+◌, ◌*◌, ◌≡◌, refl, true, false, some, [], ◌∷◌, replicate, set, length}
use nvalloc.Bitmap.{Bitmap, bitmap_sfu}
use nvalloc.Bitmap.View.{bits, AreWords}
use nvalloc.Bitmap.Search.{bitmap_sfu-first_one}
use nvalloc.Interleave.{bid_to_mid}

-- two words: the first 65 blocks are taken, all but block 65 of the second word's first three free
abbrev bitmap : Bitmap
bitmap = replicate 64 false ∷ (false ∷ true ∷ false ∷ replicate 61 true) ∷ []

bitmap-AreWords : AreWords bitmap
bitmap-AreWords = (refl, (refl, tt))

sfu_run :
    bitmap_sfu 2 66 bitmap true
    ≡ some (65, replicate 64 false ∷ (false ∷ false ∷ false ∷ replicate 61 true) ∷ [])
unfolding bitmap_sfu
sfu_run = refl

bitmap_sfu-first_one_example :
    (bm' : Bitmap) × (bitmap_sfu 2 66 bitmap true ≡ some (65, bm'))
    × (bits bm' ≡ set (bits bitmap) 65 false)
    × AreWords bm'
    × (length bm' ≡ 2)
bitmap_sfu-first_one_example = bitmap_sfu-first_one 66 bitmap 65 bitmap-AreWords refl

bid_to_mid_run : bid_to_mid 4000 ≡ 3072 + 4 * 512 + 154
unfolding bid_to_mid
bid_to_mid_run = refl
