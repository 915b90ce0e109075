-- ===== src/Cache/Turn.antt =====
-- The choice of the next bank.
use nvalloc.Prelude.{
  ℕ, suc, ◌+◌, ◌-◌, ◌≤◌, ◌<◌, ◌≡◌, inl, inr, sym, ap, ◌∙◌, true, false, some, none, arith, get_or,
  first_one, first_one-get, first_one-below, first_one-of_get, Option-cases, Bool-cases, leb,
}
use mathlib.Core.Bool.{false≢true}
use nvalloc.Word.{Word, shift_right}
use nvalloc.Bitmap.Search.{get_or-shift_right}
use nvalloc.Cache.{cache_bitmap_findnxt}

-- The bit `r` is set, and it is the first set one in the order `now + 1`, `now + 2`, ..., 0, 1, ...
pub data IsNext (bm : Word) (now r : ℕ) : Type 0 where
  above :
      get_or bm r false ≡ true
      → now < r
      → ((j : ℕ) → now < j → j < r → get_or bm j false ≡ false)
      → IsNext bm now r
  around :
      get_or bm r false ≡ true
      → r ≤ now
      → ((j : ℕ) → now < j → get_or bm j false ≡ false)
      → ((j : ℕ) → j < r → get_or bm j false ≡ false)
      → IsNext bm now r

-- where the search fails no bit is set
none_clear : (bs : Word) → first_one bs ≡ none → (j : ℕ) → get_or bs j false ≡ false
none_clear bs e j = elim (Bool-cases (get_or bs j false)) [
  | inl h ↦ let (i, q, le) = first_one-of_get bs j h in ground (arith, e, q)
  | inr h ↦ h
]

-- a bit above `now` is one of the shifted word
shifted_bit :
    (bm : Word) (now j : ℕ)
    → now < j
    → get_or bm j false ≡ get_or (shift_right bm (now + 1)) (j - (now + 1)) false
shifted_bit bm now j lt =
    ap (λ n. get_or bm n false) (omega arith)
    ∙ sym (get_or-shift_right bm (now + 1) (j - (now + 1)))

found_above :
    (bm : Word) (now i : ℕ)
    → first_one (shift_right bm (now + 1)) ≡ some i
    → IsNext bm now (suc i + now)
found_above bm now i e =
    above
      (ap (λ n. get_or bm n false) (omega arith)
        ∙ sym (get_or-shift_right bm (now + 1) i)
        ∙ first_one-get (shift_right bm (now + 1)) i e)
      (omega arith)
      (λ j lt lt'.
        shifted_bit bm now j lt
        ∙ first_one-below (shift_right bm (now + 1)) i (j - (now + 1)) e (omega arith))

-- the only bits that are set stand at `now` or below
found_around :
    (bm : Word) (now r : ℕ)
    → first_one (shift_right bm (now + 1)) ≡ none
    → first_one bm ≡ some r
    → IsNext bm now r
found_around bm now r e q =
    around (first_one-get bm r q) le clear (λ j lt. first_one-below bm r j q lt)
  where
    clear : (j : ℕ) → now < j → get_or bm j false ≡ false
    clear j lt = shifted_bit bm now j lt ∙ none_clear (shift_right bm (now + 1)) e (j - (now + 1))

    le : r ≤ now
    le = elim (Bool-cases (leb r now)) [
      | inl h ↦ ground arith
      | inr h ↦ absurd (false≢true (sym (clear r (ground arith)) ∙ first_one-get bm r q))
    ]

-- When a bank has a block, `cache_bitmap_findnxt` returns the next one that has, in turn.
pub cache_bitmap_findnxt-IsNext :
    (bm : Word) (now k : ℕ)
    → get_or bm k false ≡ true
    → (r : ℕ) × (cache_bitmap_findnxt bm now ≡ some r) × IsNext bm now r
unfolding cache_bitmap_findnxt
cache_bitmap_findnxt-IsNext bm now k set =
    elim (Option-cases (first_one (shift_right bm (now + 1)))) [
      | inr (i, e) ↦ (suc i + now, ground (arith, e), found_above bm now i e)
      | inl e ↦
          let (r, q, le) = first_one-of_get bm k set in
          (r, ground (arith, e, q), found_around bm now r e q)
    ]
