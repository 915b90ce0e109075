-- ===== src/Word.antt =====
-- A 64-bit machine word as its bits, the lowest first, with the operations and the compiler
-- builtins that include/nvalloc/internal/bitmap.h and src/tcache.c apply to such words.
pub mod Laws
use nvalloc.Prelude.{
  ℕ, suc, ◌+◌, ◌≡◌, Bool, true, false, not, ◌&&◌, ◌||◌, xor, none, some, List, [], ◌∷◌, ◌++◌, map,
  min, length, set, drop, replicate, ones, first_one,
}

abbrev pub Word : Type 0
Word = List Bool

abbrev pub width : ℕ
width = 64

abbrev pub IsWord : Word → Type 0
IsWord w = length w ≡ width

-- `0xff…` and 0, of any width
abbrev pub all_ones : ℕ → Word
all_ones n = replicate n true

abbrev pub all_zeros : ℕ → Word
all_zeros n = replicate n false

-- `1ULL << k`
abbrev pub shift_one : ℕ → Word
shift_one k = set (all_zeros width) k true

abbrev pub zip_with : (Bool → Bool → Bool) → Word → Word → Word
zip_with f [] ys = []
zip_with f (x ∷ xs) [] = []
zip_with f (x ∷ xs) (y ∷ ys) = f x y ∷ zip_with f xs ys

abbrev pub word_or : Word → Word → Word
word_or = zip_with ◌||◌

abbrev pub word_and : Word → Word → Word
word_and = zip_with ◌&&◌

abbrev pub word_xor : Word → Word → Word
word_xor = zip_with xor

-- `~w`
abbrev pub word_not : Word → Word
word_not w = map not w

-- `w + 1`, the carry out of the highest bit lost
abbrev pub increment : Word → Word
increment [] = []
increment (false ∷ bs) = true ∷ bs
increment (true ∷ bs) = false ∷ increment bs

-- `-w` in two's complement
abbrev pub negate : Word → Word
negate w = increment (word_not w)

-- `w >> k`
abbrev pub shift_right : Word → ℕ → Word
shift_right w k = drop k w ++ all_zeros (min k (length w))

-- `__builtin_ffsl`: one more than the index of the lowest set bit, and 0 if there is none
abbrev pub ffsl : Word → ℕ
ffsl w = elim (first_one w) [ none ↦ 0 | some i ↦ suc i ]

-- `__builtin_popcountll`
abbrev pub popcount : Word → ℕ
popcount w = ones w
