-- ===== src/SizeClass.antt =====
-- include/nvalloc/internal/sizeclass.h and src/sizeclass.c: the size classes, their lookup tables,
-- and the layout of a slab of each class.
pub mod Table
pub mod Lookup
pub mod Layout
pub mod Boot
pub mod Pages
use nvalloc.Prelude.{
  ℕ, zero, suc, ◌+◌, ◌-◌, ◌*◌, ◌/◌, ◌%◌, ◌^◌, Bool, true, false, Option, none, some, List, [], ◌∷◌,
  map, if◌then◌else◌, ltb, leb, ◌==◌, get_or,
}
use nvalloc.Machine.{cacheline_size, nbanks, page_size, slab_size, round_up}

-- `sizeclass_s`
pub record SizeClass : Type 0 where
  pub moffset : ℕ
  pub roffset : ℕ
  pub nbits : ℕ
  pub n_bitmaps : ℕ
  pub bitsize : ℕ
  pub toffset : ℕ

-- `psizeclass_s`
pub record PsizeClass : Type 0 where
  pub size : ℕ
  pub npages : ℕ

-- the columns of a row of `SIZE_CLASSES` and `PSIZE_CLASSES` that the macro `SC` uses
pub record ScRow : Type 0 where
  pub index : ℕ
  pub lg_grp : ℕ
  pub lg_delta : ℕ
  pub ndelta : ℕ

abbrev pub sc : ℕ → ℕ → ℕ → ℕ → ScRow
sc i g d n = record { index = i; lg_grp = g; lg_delta = d; ndelta = n }

-- `(1U << lg_grp) + (ndelta << lg_delta)`
abbrev pub row_size : ScRow → ℕ
row_size r = 2 ^ r.lg_grp + r.ndelta * 2 ^ r.lg_delta

-- `SIZE_CLASS_bin_yes` and `SIZE_CLASS_bin_no`
abbrev pub bin_class : ScRow → SizeClass
bin_class r = record {
  moffset = 0;
  roffset = 0;
  nbits = 0;
  n_bitmaps = 0;
  bitsize = row_size r;
  toffset = 0;
}

abbrev pub psize_class : ScRow → PsizeClass
psize_class r = record { size = row_size r; npages = row_size r / page_size }

-- a lookup table, all zero before `sizeclass_boot`, and the entry at which the loop stands
pub record Fill : Type 0 where
  pub next : ℕ
  pub entry : ℕ → ℕ

abbrev pub write : (ℕ → ℕ) → ℕ → ℕ → ℕ → ℕ
write t i v j = if j == i then v else t j

-- the inner `while` loop, which writes the class at each size up to the limit, for `fuel` rounds
unfoldable pub fill_to : ℕ → ℕ → ℕ → Fill → Fill
fill_to zero limit idx f = f
fill_to (suc fuel) limit idx f =
    let rest =
      fill_to fuel limit idx (record { next = f.next + 1; entry = write f.entry f.next idx }) in
    if leb f.next limit then rest else f

-- the loop over the classes, of which the first has index `idx`; `limit + 1` rounds are enough
unfoldable pub fill_classes : List ℕ → ℕ → Fill → Fill
unfolding fill_to
fill_classes [] idx f = f
fill_classes (limit ∷ limits) idx f =
    fill_classes limits (idx + 1) (fill_to (limit + 1) limit idx f)

abbrev pub no_entries : Fill
no_entries = record { next = 0; entry = λ _. 0 }

-- `ceil(n / 8.0)` and `ceil(n / 64.0)`, exact in a `double` for every 32-bit `n`
abbrev pub ceil_div : ℕ → ℕ → ℕ
ceil_div n d = (n + (d - 1)) / d

unfoldable pub get_meta_size : ℕ → ℕ
unfolding round_up
get_meta_size nbits = round_up (ceil_div nbits 8) (cacheline_size * nbanks)

-- `sizeof(slab_t)`: two `sizeclass_t` of 20 bytes and a `uint8_t`, aligned to 4 bytes
abbrev pub sizeof_slab : ℕ
sizeof_slab = 44

abbrev pub head_size : ℕ
head_size = 64

-- `for (;; nbits--)`: the first number of blocks, from `nbits` down, with which the slab has room
-- for `overhead nbits` further bytes; `none` if the count would become negative
unfoldable pub fit_blocks : ℕ → (ℕ → ℕ) → ℕ → Option ℕ
fit_blocks bitsize overhead zero = if leb (0 * bitsize + overhead 0) slab_size then some 0 else none
fit_blocks bitsize overhead (suc n) =
    let rest = fit_blocks bitsize overhead n in
    if leb (suc n * bitsize + overhead (suc n)) slab_size then some (suc n) else rest

-- the body of the last loop of `sizeclass_boot`, which fills in a class
unfoldable pub boot_class : SizeClass → Option SizeClass
unfolding fit_blocks
boot_class c =
    elim (fit_blocks c.bitsize (λ n. head_size + get_meta_size n) (slab_size / c.bitsize + 1)) [
      | none ↦ none
      | some n ↦ some (record c {
        nbits = n;
        moffset = head_size;
        toffset = 0;
        roffset = head_size + get_meta_size n;
        n_bitmaps = ceil_div n 64 % 2 ^ 8;
      })
    ]

-- the last loop of `sizeclass_boot`, with the global `meta_size`
unfoldable pub boot_classes : List SizeClass → ℕ → Option (List SizeClass × ℕ)
unfolding boot_class
boot_classes [] meta_size = some ([], meta_size)
boot_classes (c ∷ cs) meta_size = elim (boot_class c) [
  | none ↦ none
  | some c' ↦
      let tmp = get_meta_size (c'.nbits + 1) in
      elim (boot_classes cs (if ltb meta_size tmp then tmp else meta_size)) [
        | none ↦ none
        | some (cs', m) ↦ some (c' ∷ cs', m)
      ]
]

-- `sizeclass_reset`: the class with room for an index table of `table_size` bytes
unfoldable pub sizeclass_reset : ℕ → SizeClass → ℕ → Option SizeClass
unfolding fit_blocks
sizeclass_reset meta_size c table_size =
    elim (fit_blocks c.bitsize (λ _. head_size + meta_size + table_size)
      (slab_size / c.bitsize + 1)) [
        | none ↦ none
        | some n ↦ some (record c {
          nbits = n;
          toffset = c.moffset + meta_size;
          roffset = c.moffset + meta_size + table_size;
          n_bitmaps = ceil_div n 64 % 2 ^ 8;
        })
      ]
