-- ===== src/SizeClass/Table.antt =====
-- The two tables of include/nvalloc/internal/sizeclass.h.
use nvalloc.Prelude.{ℕ, Option, some, List, [], ◌∷◌, ◌++◌, map, ltb, leb, assert, ◌>>◌, get_or}
use nvalloc.SizeClass.{PsizeClass, ScRow, sc, row_size, psize_class, fill_classes, no_entries}

abbrev pub max_sz : ℕ
max_sz = 14336

abbrev pub max_sz_idx : ℕ
max_sz_idx = 40

abbrev pub max_psz : ℕ
max_psz = 196608

abbrev pub max_psz_idx : ℕ
max_psz_idx = 63

-- the index that a slab's extent has in place of a page class
abbrev pub slab_scind : ℕ
slab_scind = 65

-- `SIZE_CLASSES`; class `i + 1` of `sizeclasses` is row `i`
abbrev pub size_classes : List ScRow
size_classes =
    sc 0 3 3 0
    ∷ sc 1 3 3 1
    ∷ sc 2 3 3 2
    ∷ sc 3 3 3 3
    ∷ sc 4 5 3 1
    ∷ sc 5 5 3 2
    ∷ sc 6 5 3 3
    ∷ sc 7 5 3 4
    ∷ sc 8 6 4 1
    ∷ sc 9 6 4 2
    ∷ sc 10 6 4 3
    ∷ sc 11 6 4 4
    ∷ sc 12 7 5 1
    ∷ sc 13 7 5 2
    ∷ sc 14 7 5 3
    ∷ sc 15 7 5 4
    ∷ sc 16 8 6 1
    ∷ sc 17 8 6 2
    ∷ sc 18 8 6 3
    ∷ sc 19 8 6 4
    ∷ sc 20 9 7 1
    ∷ sc 21 9 7 2
    ∷ sc 22 9 7 3
    ∷ sc 23 9 7 4
    ∷ sc 24 10 8 1
    ∷ sc 25 10 8 2
    ∷ sc 26 10 8 3
    ∷ sc 27 10 8 4
    ∷ sc 28 11 9 1
    ∷ sc 29 11 9 2
    ∷ sc 30 11 9 3
    ∷ sc 31 11 9 4
    ∷ sc 32 12 10 1
    ∷ sc 33 12 10 2
    ∷ sc 34 12 10 3
    ∷ sc 35 12 10 4
    ∷ sc 36 13 11 1
    ∷ sc 37 13 11 2
    ∷ sc 38 13 11 3
    ∷ []

-- `PSIZE_CLASSES`
abbrev pub psize_classes : List ScRow
psize_classes =
    sc 31 11 9 4
    ∷ sc 35 12 10 4
    ∷ sc 37 13 11 2
    ∷ sc 39 13 11 4
    ∷ sc 40 14 12 1
    ∷ sc 41 14 12 2
    ∷ sc 42 14 12 3
    ∷ sc 43 14 12 4
    ∷ sc 44 15 13 1
    ∷ sc 45 15 13 2
    ∷ sc 46 15 13 3
    ∷ sc 47 15 13 4
    ∷ sc 48 16 14 1
    ∷ sc 49 16 14 2
    ∷ sc 50 16 14 3
    ∷ sc 51 16 14 4
    ∷ sc 52 17 15 1
    ∷ sc 53 17 15 2
    ∷ sc 54 17 15 3
    ∷ sc 55 17 15 4
    ∷ sc 56 18 16 1
    ∷ sc 57 18 16 2
    ∷ sc 58 18 16 3
    ∷ sc 59 18 16 4
    ∷ sc 60 19 17 1
    ∷ sc 61 19 17 2
    ∷ sc 62 19 17 3
    ∷ sc 63 19 17 4
    ∷ sc 64 20 18 1
    ∷ sc 65 20 18 2
    ∷ sc 66 20 18 3
    ∷ sc 67 20 18 4
    ∷ sc 68 21 19 1
    ∷ sc 69 21 19 2
    ∷ sc 70 21 19 3
    ∷ sc 71 21 19 4
    ∷ sc 72 22 20 1
    ∷ sc 73 22 20 2
    ∷ sc 74 22 20 3
    ∷ sc 75 22 20 4
    ∷ sc 76 23 21 1
    ∷ sc 77 23 21 2
    ∷ sc 78 23 21 3
    ∷ sc 79 23 21 4
    ∷ sc 80 24 22 1
    ∷ sc 81 24 22 2
    ∷ sc 82 24 22 3
    ∷ sc 83 24 22 4
    ∷ sc 84 25 23 1
    ∷ sc 85 25 23 2
    ∷ sc 86 25 23 3
    ∷ sc 87 25 23 4
    ∷ sc 88 26 24 1
    ∷ sc 89 26 24 2
    ∷ sc 90 26 24 3
    ∷ sc 91 26 24 4
    ∷ sc 92 27 25 1
    ∷ sc 93 27 25 2
    ∷ sc 94 27 25 3
    ∷ sc 95 27 25 4
    ∷ sc 96 28 26 1
    ∷ sc 97 28 26 2
    ∷ []

abbrev pub bitsizes : List ℕ
bitsizes = map row_size size_classes

-- `psizeclasses` has one entry more than the table has rows, and that entry is zero.
abbrev pub psizeclasses : List PsizeClass
psizeclasses = map psize_class psize_classes ++ record { size = 0; npages = 0 } ∷ []

-- the number of pages of every entry of `psizeclasses`
abbrev pub class_pages : List ℕ
class_pages = map PsizeClass.npages psizeclasses

-- the first two loops of `sizeclass_boot`
unfoldable pub sizeclass_lookup : ℕ → ℕ
unfolding fill_classes
sizeclass_lookup = (fill_classes bitsizes 1 no_entries).entry

unfoldable pub psizeclass_lookup : ℕ → ℕ
unfolding fill_classes
psizeclass_lookup = (fill_classes class_pages 0 no_entries).entry

-- the smallest class that has `npages` pages
unfoldable pub get_psizeclass : ℕ → Option ℕ
get_psizeclass npages = do
  assert (leb npages max_psz)
  assert (ltb (psizeclass_lookup npages) max_psz_idx)
  some (psizeclass_lookup npages)

-- `get_psizeclass_by_idx(idx)->npages`
unfoldable pub npages_by_idx : ℕ → ℕ
npages_by_idx idx = get_or class_pages idx 0
