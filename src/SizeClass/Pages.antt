-- ===== src/SizeClass/Pages.antt =====
-- The classes of `psizeclasses` by the pages of an extent: the class that a request takes and the
-- class under which a free extent is kept.
use nvalloc.Prelude.{
  none, ℕ, zero, suc, ◌-◌, ◌≤◌, ◌<◌, ◌≡◌, refl, ap, Bool, true, false, ◌&&◌, some, List, [], ◌∷◌,
  arith, get_or, le→leb, lt→ltb, ltb,
}
use native.Mathlib.Decide.{dec_le, ℕ_discrete}
use native.Mathlib.Nat.{le_trans, le_of_eq}
use nvalloc.SizeClass.Table.{
  class_pages, max_psz, max_psz_idx, psizeclass_lookup, get_psizeclass, npages_by_idx,
}
use nvalloc.SizeClass.Lookup.{IsFirstFit, psizeclass_lookup-IsFirstFit, psizeclass_lookup-beyond}

-- the pages of the largest class, and its index
abbrev pub most_pages : ℕ
most_pages = 98304

abbrev pub last_class : ℕ
last_class = 61

-- the entries of a list up to the `n`-th rise, from above `lo` on
abbrev rises : ℕ → ℕ → List ℕ → Bool
rises lo n [] = false
rises lo zero (x ∷ xs) = ltb lo x
rises lo (suc n) (x ∷ xs) = ltb lo x && rises x n xs

rises-above : (lo n : ℕ) (xs : List ℕ) (i : ℕ) → rises lo n xs ≡ true → i ≤ n → lo < get_or xs i 0
rises-above lo n [] i h le = absurd (ground arith)
rises-above lo zero (x ∷ xs) zero h le = ground arith
rises-above lo (suc n) (x ∷ xs) zero h le = ground arith
rises-above lo zero (x ∷ xs) (suc i) h le = absurd (omega arith)
rises-above lo (suc n) (x ∷ xs) (suc i) h le = ground (arith, rises-above x n xs i)

rises-lt :
    (lo n : ℕ) (xs : List ℕ) (i j : ℕ)
    → rises lo n xs ≡ true
    → i < j
    → j ≤ n
    → get_or xs i 0 < get_or xs j 0
rises-lt lo n [] i j h le lt = absurd (ground arith)
rises-lt lo zero (x ∷ xs) i j h le lt = absurd (omega arith)
rises-lt lo (suc n) (x ∷ xs) i zero h le lt = absurd (omega arith)
rises-lt lo (suc n) (x ∷ xs) zero (suc j) h le lt = ground (arith, rises-above x n xs j)
rises-lt lo (suc n) (x ∷ xs) (suc i) (suc j) h le lt = ground (arith, rises-lt x n xs i j)

-- Each class up to the last has more pages than those before it.
pub npages_by_idx-lt : (i j : ℕ) → i < j → j ≤ last_class → npages_by_idx i < npages_by_idx j
unfolding npages_by_idx
npages_by_idx-lt i j lt le = rises-lt 0 61 class_pages i j refl lt le

pub npages_by_idx-le : (i j : ℕ) → i ≤ j → j ≤ last_class → npages_by_idx i ≤ npages_by_idx j
npages_by_idx-le i j le last = elim (ℕ_discrete i j) [
  | yes e ↦ le_of_eq (ap npages_by_idx e)
  | no ne ↦ omega (arith, npages_by_idx-lt i j (omega arith) last)
]

pub npages_by_idx-last : npages_by_idx last_class ≡ most_pages
unfolding npages_by_idx
npages_by_idx-last = refl

-- A request of pages that some class has takes the first class that has them.
pub record IsClass (npages k : ℕ) : Type 0 where
  pub result : get_psizeclass npages ≡ some k
  pub last : k ≤ last_class
  pub fits : npages ≤ npages_by_idx k
  pub before : (i : ℕ) → i < k → npages_by_idx i < npages

module _ (npages : ℕ) (pos : 0 < npages) (le : npages ≤ most_pages) where
  lookup_first : IsFirstFit class_pages 0 npages (psizeclass_lookup npages)
  lookup_first = psizeclass_lookup-IsFirstFit npages le

  fits_at : (k : ℕ) → psizeclass_lookup npages ≡ k → npages ≤ npages_by_idx k
  unfolding npages_by_idx
  fits_at k e = le_trans lookup_first.fits (le_of_eq (ap (λ t. get_or class_pages t 0) (same e)))
    where
      same : psizeclass_lookup npages ≡ k → psizeclass_lookup npages - 0 ≡ k
      same q = omega arith

  -- the entry behind the last class has no page
  lookup_last : psizeclass_lookup npages ≤ last_class
  unfolding npages_by_idx
  lookup_last = elim (dec_le (psizeclass_lookup npages) last_class) [
    | yes h ↦ h
    | no h ↦ absurd (omega (arith, fits_at 62 (omega (arith, lookup_first.within))))
  ]

  pub get_psizeclass-IsClass : IsClass npages (psizeclass_lookup npages)
  unfolding get_psizeclass npages_by_idx
  get_psizeclass-IsClass = record {
    result = rw (
      le→leb npages max_psz (omega arith),
      lt→ltb (psizeclass_lookup npages) max_psz_idx (omega (arith, lookup_last)),
    );
    last = lookup_last;
    fits = fits_at (psizeclass_lookup npages) refl;
    before = λ i lt. lookup_first.before i (omega arith);
  }

-- With a page more than the largest class has, the class is 0.
pub get_psizeclass-beyond :
    (npages : ℕ) → most_pages < npages → npages ≤ max_psz → get_psizeclass npages ≡ some 0
unfolding get_psizeclass
get_psizeclass-beyond npages gt le =
    let (e, _) = psizeclass_lookup-beyond npages gt in rw (le→leb npages max_psz le, e)

-- The assertion on the number of pages.
pub get_psizeclass-fails : (npages : ℕ) → max_psz < npages → get_psizeclass npages ≡ none
unfolding get_psizeclass
get_psizeclass-fails npages gt = ground arith
