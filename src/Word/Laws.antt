-- ===== src/Word/Laws.antt =====
-- What the word operations of the bitmaps do to single bits.
use nvalloc.Prelude.{
  ℕ, zero, suc, ◌≡◌, refl, ap, Bool, true, false, not, some, [], ◌∷◌, arith, length, get_or, set,
  first_one, first_one-false,
}
use nvalloc.Word.{
  Word, width, IsWord, all_zeros, all_ones, shift_one, word_or, word_and, word_xor, word_not,
  negate, zip_with,
}

word_and-negate : (bs : Word) → word_and bs (word_not bs) ≡ all_zeros (length bs)
word_and-negate [] = refl
word_and-negate (true ∷ bs) = ap (λ l. false ∷ l) (word_and-negate bs)
word_and-negate (false ∷ bs) = ap (λ l. false ∷ l) (word_and-negate bs)

word_xor-all_zeros : (bs : Word) → word_xor bs (all_zeros (length bs)) ≡ bs
word_xor-all_zeros [] = refl
word_xor-all_zeros (true ∷ bs) = ap (λ l. true ∷ l) (word_xor-all_zeros bs)
word_xor-all_zeros (false ∷ bs) = ap (λ l. false ∷ l) (word_xor-all_zeros bs)

-- `g ^ (g & -g)` clears the lowest set bit.
pub clear_lowest :
    (g : Word) (i : ℕ) → first_one g ≡ some i → word_xor g (word_and g (negate g)) ≡ set g i false
clear_lowest [] i h = cc
clear_lowest (true ∷ bs) zero h =
    ap (λ l. false ∷ l) (rw (word_and-negate bs) (word_xor-all_zeros bs))
clear_lowest (true ∷ bs) (suc i) h = ground arith
clear_lowest (false ∷ bs) zero h = ground (arith, (first_one-false bs h).2)
clear_lowest (false ∷ bs) (suc i) h =
    let (k, e, q) = first_one-false bs h in
    ap (λ l. false ∷ l) (clear_lowest bs i (ground (arith, e, q)))

word_or-all_zeros : (bs : Word) → word_or bs (all_zeros (length bs)) ≡ bs
word_or-all_zeros [] = refl
word_or-all_zeros (true ∷ bs) = ap (λ l. true ∷ l) (word_or-all_zeros bs)
word_or-all_zeros (false ∷ bs) = ap (λ l. false ∷ l) (word_or-all_zeros bs)

or_zeros : (n : ℕ) (w : Word) → length w ≡ n → word_or w (all_zeros n) ≡ w
or_zeros n w h = rw (← h) (word_or-all_zeros w)

xor_zeros : (n : ℕ) (w : Word) → length w ≡ n → word_xor w (all_zeros n) ≡ w
xor_zeros n w h = rw (← h) (word_xor-all_zeros w)

or_one :
    (n : ℕ) (w : Word) (k : ℕ) → length w ≡ n → word_or w (set (all_zeros n) k true) ≡ set w k true
or_one zero [] k h = refl
or_one zero (b ∷ bs) k h = absurd (omega arith)
or_one (suc n) [] k h = absurd (omega arith)
or_one (suc n) (true ∷ bs) zero h = ap (λ l. true ∷ l) (or_zeros n bs (omega arith))
or_one (suc n) (false ∷ bs) zero h = ap (λ l. true ∷ l) (or_zeros n bs (omega arith))
or_one (suc n) (true ∷ bs) (suc k) h = ap (λ l. true ∷ l) (or_one n bs k (omega arith))
or_one (suc n) (false ∷ bs) (suc k) h = ap (λ l. false ∷ l) (or_one n bs k (omega arith))

xor_one :
    (n : ℕ) (w : Word) (k : ℕ)
    → length w ≡ n
    → word_xor w (set (all_zeros n) k true) ≡ set w k (not (get_or w k false))
xor_one zero [] k h = refl
xor_one zero (b ∷ bs) k h = absurd (omega arith)
xor_one (suc n) [] k h = absurd (omega arith)
xor_one (suc n) (true ∷ bs) zero h = ap (λ l. false ∷ l) (xor_zeros n bs (omega arith))
xor_one (suc n) (false ∷ bs) zero h = ap (λ l. true ∷ l) (xor_zeros n bs (omega arith))
xor_one (suc n) (true ∷ bs) (suc k) h = ap (λ l. true ∷ l) (xor_one n bs k (omega arith))
xor_one (suc n) (false ∷ bs) (suc k) h = ap (λ l. false ∷ l) (xor_one n bs k (omega arith))

-- `w | (1ULL << k)` sets bit `k`, and `w ^ (1ULL << k)` flips it.
pub word_or-shift_one : (w : Word) (k : ℕ) → IsWord w → word_or w (shift_one k) ≡ set w k true
word_or-shift_one w k h = or_one width w k h

pub word_xor-shift_one :
    (w : Word) (k : ℕ) → IsWord w → word_xor w (shift_one k) ≡ set w k (not (get_or w k false))
word_xor-shift_one w k h = xor_one width w k h

length-zip_with :
    (f : Bool → Bool → Bool) (xs ys : Word)
    → length xs ≡ length ys
    → length (zip_with f xs ys) ≡ length xs
length-zip_with f [] ys h = refl
length-zip_with f (x ∷ xs) [] h = absurd (omega arith)
length-zip_with f (x ∷ xs) (y ∷ ys) h = ap suc (length-zip_with f xs ys (omega arith))

word_and-all_ones : (bs : Word) → word_and bs (all_ones (length bs)) ≡ bs
word_and-all_ones [] = refl
word_and-all_ones (true ∷ bs) = ap (λ l. true ∷ l) (word_and-all_ones bs)
word_and-all_ones (false ∷ bs) = ap (λ l. false ∷ l) (word_and-all_ones bs)

word_not-all_zeros : (n : ℕ) → word_not (all_zeros n) ≡ all_ones n
word_not-all_zeros zero = refl
word_not-all_zeros (suc n) = ap (λ l. true ∷ l) (word_not-all_zeros n)

and_zeros : (n : ℕ) (w : Word) → length w ≡ n → word_and w (word_not (all_zeros n)) ≡ w
and_zeros n w h = rw (word_not-all_zeros n, ← h) (word_and-all_ones w)

and_not_one :
    (n : ℕ) (w : Word) (k : ℕ)
    → length w ≡ n
    → word_and w (word_not (set (all_zeros n) k true)) ≡ set w k false
and_not_one zero [] k h = refl
and_not_one zero (b ∷ bs) k h = absurd (omega arith)
and_not_one (suc n) [] k h = absurd (omega arith)
and_not_one (suc n) (true ∷ bs) zero h = ap (λ l. false ∷ l) (and_zeros n bs (omega arith))
and_not_one (suc n) (false ∷ bs) zero h = ap (λ l. false ∷ l) (and_zeros n bs (omega arith))
and_not_one (suc n) (true ∷ bs) (suc k) h = ap (λ l. true ∷ l) (and_not_one n bs k (omega arith))
and_not_one (suc n) (false ∷ bs) (suc k) h = ap (λ l. false ∷ l) (and_not_one n bs k (omega arith))

-- `w & ~(1ULL << k)` clears bit `k`.
pub word_and-shift_one :
    (w : Word) (k : ℕ) → IsWord w → word_and w (word_not (shift_one k)) ≡ set w k false
word_and-shift_one w k h = and_not_one width w k h
