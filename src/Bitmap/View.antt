-- ===== src/Bitmap/View.antt =====
-- A bitmap as one sequence of bits: bit `i` is bit `i % 64` of word `i / 64`.
use nvalloc.Prelude.{
  ℕ, zero, suc, ◌+◌, ◌*◌, ◌/◌, ◌%◌, ◌<◌, ◌≡◌, refl, sym, ap, ap₂, ◌∙◌, Bool, true, false, not, List,
  [], ◌∷◌, ◌++◌, arith, length, get_or, set, length-append, length-set, get_or-append_left,
  get_or-append_right, set-append_left, set-append_right, ones, zeros, ones-append, ones-add-zeros,
}
use nvalloc.Word.{Word, IsWord}
use nvalloc.Word.Laws.{word_or-shift_one, word_xor-shift_one}
use nvalloc.Bitmap.{Bitmap, bitmap_unset_bits, bitmap_set_bits, popcounts, get_bitmap_num}

abbrev pub bits : Bitmap → List Bool
bits [] = []
bits (w ∷ ws) = w ++ bits ws

abbrev pub AreWords : Bitmap → Type 0
AreWords [] = Unit
AreWords (w ∷ ws) = IsWord w × AreWords ws

pub length-bits : (ws : Bitmap) → AreWords ws → length (bits ws) ≡ 64 * length ws
length-bits [] h = refl
length-bits (w ∷ ws) (h, hs) = omega (arith, length-append w (bits ws), length-bits ws hs)

pub IsWord-get_or : (ws : Bitmap) (g : ℕ) → AreWords ws → g < length ws → IsWord (get_or ws g [])
IsWord-get_or [] g h lt = absurd (omega arith)
IsWord-get_or (w ∷ ws) zero (h, hs) lt = h
IsWord-get_or (w ∷ ws) (suc g) (h, hs) lt = IsWord-get_or ws g hs (omega arith)

pub AreWords-set : (ws : Bitmap) (g : ℕ) (w : Word) → AreWords ws → IsWord w → AreWords (set ws g w)
AreWords-set [] g w h hw = tt
AreWords-set (v ∷ ws) zero w (h, hs) hw = (hw, hs)
AreWords-set (v ∷ ws) (suc g) w (h, hs) hw = (h, AreWords-set ws g w hs hw)

pub get_or-bits :
    (ws : Bitmap) (g b : ℕ) (d : Bool)
    → AreWords ws
    → g < length ws
    → b < 64
    → get_or (bits ws) (g * 64 + b) d ≡ get_or (get_or ws g []) b d
get_or-bits [] g b d h lt lb = absurd (omega arith)
get_or-bits (w ∷ ws) zero b d (h, hs) lt lb =
    ap (λ k. get_or (w ++ bits ws) k d) (omega arith)
    ∙ get_or-append_left w (bits ws) b d (omega arith)
get_or-bits (w ∷ ws) (suc g) b d (h, hs) lt lb =
    ap (λ k. get_or (w ++ bits ws) k d) (omega arith)
    ∙ get_or-append_right w (bits ws) (g * 64 + b) d
    ∙ get_or-bits ws g b d hs (omega arith) lb

pub bits-set :
    (ws : Bitmap) (g b : ℕ) (v : Bool)
    → AreWords ws
    → g < length ws
    → b < 64
    → bits (set ws g (set (get_or ws g []) b v)) ≡ set (bits ws) (g * 64 + b) v
bits-set [] g b v h lt lb = absurd (omega arith)
bits-set (w ∷ ws) zero b v (h, hs) lt lb =
    sym (
      ap (λ k. set (w ++ bits ws) k v) (omega arith)
      ∙ set-append_left w (bits ws) b v (omega arith))
bits-set (w ∷ ws) (suc g) b v (h, hs) lt lb =
    ap (λ l. w ++ l) (bits-set ws g b v hs (omega arith) lb)
    ∙ sym (
        ap (λ k. set (w ++ bits ws) k v) (omega arith)
        ∙ set-append_right w (bits ws) (g * 64 + b) v)

-- the two operations on one bit, in terms of the sequence
module _ (bm : Bitmap) (index : ℕ) (words : AreWords bm) (lt : index < 64 * length bm) where
  -- the word of the bit stands in the array
  group_in_range : index / 64 < length bm
  group_in_range = omega arith

  word : IsWord (get_or bm (index / 64) [])
  word = IsWord-get_or bm (index / 64) words group_in_range

  -- Freeing a block sets its bit, and no other bit changes.
  pub bits-bitmap_unset_bits : bits (bitmap_unset_bits bm index) ≡ set (bits bm) index true
  unfolding bitmap_unset_bits
  bits-bitmap_unset_bits = rw (word_or-shift_one (get_or bm (index / 64) []) (index % 64) word) (
      bits-set bm (index / 64) (index % 64) true words group_in_range (omega arith)
      ∙ ap (λ k. set (bits bm) k true) (omega arith))

  -- `bitmap_set_bits` toggles the bit of the block, so that a free block is taken and one in use is
  -- freed; no other bit changes.
  pub bits-bitmap_set_bits :
      bits (bitmap_set_bits bm index) ≡ set (bits bm) index (not (get_or (bits bm) index false))
  unfolding bitmap_set_bits
  bits-bitmap_set_bits = rw (word_xor-shift_one (get_or bm (index / 64) []) (index % 64) word) (
      bits-set bm (index / 64) (index % 64) _ words group_in_range (omega arith)
      ∙ ap₂ (λ k b. set (bits bm) k (not b)) (omega arith) flipped)
    where
      flipped : get_or (get_or bm (index / 64) []) (index % 64) false ≡ get_or (bits bm) index false
      flipped =
          sym (get_or-bits bm (index / 64) (index % 64) false words group_in_range (omega arith))
          ∙ ap (λ k. get_or (bits bm) k false) (omega arith)

  pub bitmap_unset_bits-AreWords : AreWords (bitmap_unset_bits bm index)
  unfolding bitmap_unset_bits
  bitmap_unset_bits-AreWords =
      rw (word_or-shift_one (get_or bm (index / 64) []) (index % 64) word) (
        AreWords-set bm (index / 64) _ words
          (length-set (get_or bm (index / 64) []) (index % 64) true ∙ word))

  pub bitmap_set_bits-AreWords : AreWords (bitmap_set_bits bm index)
  unfolding bitmap_set_bits
  bitmap_set_bits-AreWords = rw (word_xor-shift_one (get_or bm (index / 64) []) (index % 64) word) (
      AreWords-set bm (index / 64) _ words
        (length-set (get_or bm (index / 64) []) (index % 64) _ ∙ word))

  pub length-bitmap_unset_bits : length (bitmap_unset_bits bm index) ≡ length bm
  unfolding bitmap_unset_bits
  length-bitmap_unset_bits = length-set bm (index / 64) _

popcounts-ones : (ws : Bitmap) → popcounts ws ≡ ones (bits ws)
unfolding popcounts
popcounts-ones [] = refl
popcounts-ones (w ∷ ws) = omega (arith, popcounts-ones ws, ones-append w (bits ws))

-- `get_bitmap_num` counts the clear bits of the bitmap, which are the blocks in use.
pub get_bitmap_num-zeros :
    (bm : Bitmap) → AreWords bm → get_bitmap_num bm (length bm) ≡ zeros (bits bm)
unfolding get_bitmap_num
get_bitmap_num-zeros bm words =
    omega (arith, popcounts-ones bm, ones-add-zeros (bits bm), length-bits bm words)
