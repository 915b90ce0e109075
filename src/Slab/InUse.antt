-- ===== src/Slab/InUse.antt =====
-- The blocks that `slab_morphing` lists are as many as are in use.
use nvalloc.Prelude.{
  ℕ, zero, suc, ◌+◌, ◌≤◌, ◌≡◌, inl, inr, refl, ap, ◌∙◌, true, false, List, [], ◌∷◌, map, arith,
  length, length-append, set, length-set, ones, zeros, ones-add-zeros, zeros-append,
  zeros-set-false, first_one, first_one-get, first_one-none, Option-cases,
}
use nvalloc.Word.{Word, word_not, word_xor, word_and, negate}
use nvalloc.Word.Laws.{clear_lowest}
use nvalloc.Bitmap.{Bitmap}
use nvalloc.Bitmap.View.{bits, AreWords}
use nvalloc.Slab.Morph.{word_blocks, blocks_in_use, sb_row, sb_rows}

-- with enough fuel each set bit is listed once
length-word_blocks :
    (fuel : ℕ) (x : Word) (i : ℕ) → ones x ≤ fuel → length (word_blocks fuel x i) ≡ ones x
unfolding word_blocks
length-word_blocks zero x i le = omega (arith, le)
length-word_blocks (suc fuel) x i le = elim (Option-cases (first_one x)) [
  | inl e ↦ rw (e, word_blocks) (omega (arith, first_one-none x e, ones-add-zeros x))
  | inr (k, e) ↦
      let cleared : Word = word_xor x (word_and x (negate x)) in
      let fewer : suc (ones cleared) ≡ ones x = omega (
        arith,
        ap ones (clear_lowest x k e),
        zeros-set-false x k (first_one-get x k e),
        ones-add-zeros x,
        ones-add-zeros (set x k false),
        length-set x k false,
      ) in
      rw (e, word_blocks)
        (omega (arith, length-word_blocks fuel cleared i (omega (arith, fewer)), fewer))
]

ones-word_not : (w : Word) → ones (word_not w) ≡ zeros w
ones-word_not [] = refl
ones-word_not (true ∷ w) = omega (arith, ones-word_not w)
ones-word_not (false ∷ w) = omega (arith, ones-word_not w)

length-blocks_in_use :
    (bm : Bitmap) (i : ℕ) → AreWords bm → length (blocks_in_use bm i) ≡ zeros (bits bm)
unfolding blocks_in_use
length-blocks_in_use [] i words = refl
length-blocks_in_use (w ∷ ws) i (h, hs) = omega (
  arith,
  length-append (word_blocks 64 (word_not w) i) (blocks_in_use ws (i + 1)),
  length-word_blocks 64 (word_not w) i (omega (arith, ones-word_not w, ones-add-zeros w, h)),
  ones-word_not w,
  length-blocks_in_use ws (i + 1) hs,
  zeros-append w (bits ws),
)

length-sb_row : (xs : List ℕ) → length (map sb_row xs) ≡ length xs
length-sb_row [] = refl
length-sb_row (x ∷ xs) = ap suc (length-sb_row xs)

-- The index table of a slab that changes its class gets a row for each block that is in use, as the
-- assertion after its loop states.
pub length-sb_rows : (bm : Bitmap) → AreWords bm → length (sb_rows bm) ≡ zeros (bits bm)
unfolding sb_rows
length-sb_rows bm words = length-sb_row (blocks_in_use bm 0) ∙ length-blocks_in_use bm 0 words
