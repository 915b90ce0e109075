-- ===== src/SizeClass/Lookup.antt =====
-- What the lookup tables hold after `sizeclass_boot`: for each size the first class that fits it.
use nvalloc.Prelude.{
  ℕ, zero, suc, ◌+◌, ◌-◌, ◌≤◌, ◌<◌, ◌≡◌, refl, ap, ◌∙◌, Bool, true, false, ◌&&◌, Option, none, some,
  inl, inr, List, [], ◌∷◌, arith, length, get_or, if◌then◌else◌, leb, ◌==◌, Bool-cases, leb→le,
  le→leb,
}
use nvalloc.SizeClass.{Fill, fill_to, fill_classes, no_entries}
use nvalloc.SizeClass.Table.{max_sz, bitsizes, class_pages, sizeclass_lookup, psizeclass_lookup}

-- The `while` loop fills the entries from `next` up to `limit`, and no other.
fill_to_entry :
    (fuel limit idx : ℕ) (f : Fill) (j : ℕ)
    → limit < f.next + fuel
    → (fill_to fuel limit idx f).entry j ≡ (if leb f.next j && leb j limit then idx else f.entry j)
unfolding fill_to
fill_to_entry zero limit idx f j h = ground arith
fill_to_entry (suc fuel) limit idx f j h = ground (
  arith,
  fill_to_entry fuel limit idx
      (record { next = f.next + 1; entry = λ k. if k == f.next then idx else f.entry k }) j,
)

fill_to_next :
    (fuel limit idx : ℕ) (f : Fill)
    → limit < f.next + fuel
    → (fill_to fuel limit idx f).next ≡ (if leb f.next limit then limit + 1 else f.next)
unfolding fill_to
fill_to_next zero limit idx f h = ground arith
fill_to_next (suc fuel) limit idx f h = ground (
  arith,
  fill_to_next fuel limit idx
      (record { next = f.next + 1; entry = λ k. if k == f.next then idx else f.entry k }),
)

-- the first class, from `idx` on, whose limit is not below `j`
abbrev pub first_fit : List ℕ → ℕ → ℕ → Option ℕ
first_fit [] idx j = none
first_fit (limit ∷ limits) idx j = if leb j limit then some idx else first_fit limits (idx + 1) j

abbrev pub or_else : Option ℕ → ℕ → ℕ
or_else none d = d
or_else (some k) d = k

fill_classes_entry :
    (limits : List ℕ) (idx : ℕ) (f : Fill) (j : ℕ)
    → (fill_classes limits idx f).entry j
      ≡ (if leb f.next j then or_else (first_fit limits idx j) (f.entry j) else f.entry j)
unfolding fill_classes
fill_classes_entry [] idx f j = ground arith
fill_classes_entry (limit ∷ limits) idx f j = ground (
  arith,
  fill_classes_entry limits (idx + 1) (fill_to (limit + 1) limit idx f) j,
  fill_to_entry (limit + 1) limit idx f j,
  fill_to_next (limit + 1) limit idx f,
)

-- `first_fit` returns a class that fits, and none before it does.
pub record IsFirstFit (limits : List ℕ) (idx j k : ℕ) : Type 0 where
  pub from : idx ≤ k
  pub within : k < idx + length limits
  pub fits : j ≤ get_or limits (k - idx) 0
  pub before : (i : ℕ) → idx + i < k → get_or limits i 0 < j

first_fit-IsFirstFit :
    (limits : List ℕ) (idx j k : ℕ) → first_fit limits idx j ≡ some k → IsFirstFit limits idx j k
first_fit-IsFirstFit [] idx j k h = cc
first_fit-IsFirstFit (limit ∷ limits) idx j k h = elim (Bool-cases (leb j limit)) [
  | inl e ↦
      let same : k ≡ idx = ground arith in
      record {
        from = omega (arith, same);
        within = omega (arith, same);
        fits = rw (at_index limits (k - idx) 0 (omega (arith, same))) (leb→le j limit e);
        before = λ i lt. absurd (omega (arith, same));
      }
  | inr e ↦
      let r = first_fit-IsFirstFit limits (idx + 1) j k (rw e at h) in
      record {
        from = omega (arith, r.from);
        within = omega (arith, r.within);
        fits = rw (at_index limits (k - idx) (suc (k - (idx + 1))) (omega (arith, r.from))) r.fits;
        before = below e r.before;
      }
]
  where
    at_index : (ls : List ℕ) (m n : ℕ) → m ≡ n → get_or (limit ∷ ls) m 0 ≡ get_or (limit ∷ ls) n 0
    at_index ls m n e = ap (λ t. get_or (limit ∷ ls) t 0) e

    below :
        leb j limit ≡ false
        → ((i : ℕ) → idx + 1 + i < k → get_or limits i 0 < j)
        → (i : ℕ) → idx + i < k
        → get_or (limit ∷ limits) i 0 < j
    below e ih zero lt = ground arith
    below e ih (suc i) lt = ih i (omega arith)

first_fit-of_get :
    (limits : List ℕ) (idx i j : ℕ)
    → j ≤ get_or limits i 0
    → i < length limits
    → (k : ℕ) × (first_fit limits idx j ≡ some k)
first_fit-of_get [] idx i j h lt = absurd (omega arith)
first_fit-of_get (limit ∷ limits) idx zero j h lt = (idx, ground arith)
first_fit-of_get (limit ∷ limits) idx (suc i) j h lt = elim (Bool-cases (leb j limit)) [
  | inl e ↦ (idx, rw e)
  | inr e ↦ let (k, q) = first_fit-of_get limits (idx + 1) i j h (omega arith) in (k, rw (e, q))
]

-- The tables of `sizeclass_boot` hold the first class that fits, where any does, and else 0.
module _ (limits : List ℕ) (idx j : ℕ) where
  fill_classes-IsFirstFit :
      (i : ℕ)
      → j ≤ get_or limits i 0
      → i < length limits
      → IsFirstFit limits idx j ((fill_classes limits idx no_entries).entry j)
  fill_classes-IsFirstFit i h lt =
      let (k, e) = first_fit-of_get limits idx i j h lt in
      rw (fill_classes_entry limits idx no_entries j, e, le→leb 0 j (omega arith))
        (first_fit-IsFirstFit limits idx j k e)

  fill_classes-beyond :
      first_fit limits idx j ≡ none → (fill_classes limits idx no_entries).entry j ≡ 0
  fill_classes-beyond e =
      fill_classes_entry limits idx no_entries j ∙ rw (e, le→leb 0 j (omega arith))

abbrev all_le : ℕ → List ℕ → Bool
all_le m [] = true
all_le m (l ∷ ls) = leb l m && all_le m ls

first_fit-none :
    (m : ℕ) (limits : List ℕ) (idx j : ℕ)
    → all_le m limits ≡ true
    → m < j
    → first_fit limits idx j ≡ none
first_fit-none m [] idx j h lt = refl
first_fit-none m (l ∷ ls) idx j h lt = ground (arith, first_fit-none m ls (idx + 1) j)

-- For every size up to `MAX_SZ` the table has a class of `sizeclasses`, whose blocks hold the size
-- while those of every class before it do not.
pub sizeclass_lookup-IsFirstFit :
    (size : ℕ) → size ≤ max_sz → IsFirstFit bitsizes 1 size (sizeclass_lookup size)
unfolding sizeclass_lookup
sizeclass_lookup-IsFirstFit size h = fill_classes-IsFirstFit bitsizes 1 size 38 h (omega arith)

-- For every count of pages up to that of the largest class the table has the first class of
-- `psizeclasses` that holds it.
pub psizeclass_lookup-IsFirstFit :
    (npages : ℕ) → npages ≤ 98304 → IsFirstFit class_pages 0 npages (psizeclass_lookup npages)
unfolding psizeclass_lookup
psizeclass_lookup-IsFirstFit npages h =
    fill_classes-IsFirstFit class_pages 0 npages 61 h (omega arith)

-- For more pages than the largest class has, the entry is 0, and that class has one page.
pub psizeclass_lookup-beyond :
    (npages : ℕ)
    → 98304 < npages
    → (psizeclass_lookup npages ≡ 0) × (get_or class_pages (psizeclass_lookup npages) 0 ≡ 1)
unfolding psizeclass_lookup
psizeclass_lookup-beyond npages h =
    let e =
      fill_classes-beyond class_pages 0 npages (first_fit-none 98304 class_pages 0 npages refl h) in
    (e, rw e)
