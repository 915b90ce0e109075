-- ===== src/Tests/Classes.antt =====
-- Runs of the size classes.
use nvalloc.Prelude.{ℕ, sym, ◌∙◌, ◌≤◌, ◌≡◌, refl, some, List, map, arith}
use mathlib.Core.Path.{subst}
use mathlib.Core.Option.{some-injective}
use nvalloc.SizeClass.{SizeClass, boot_class, boot_classes, get_meta_size, bin_class}
use nvalloc.SizeClass.Table.{bitsizes, size_classes, sizeclass_lookup}
use nvalloc.SizeClass.Lookup.{IsFirstFit, sizeclass_lookup-IsFirstFit}
use nvalloc.SizeClass.Layout.{IsLaidOut, boot_class-IsLaidOut, IsReset}
use nvalloc.SizeClass.Boot.{AllLaidOut, boot_classes-AllLaidOut}

sizeclass_lookup-IsFirstFit_example : IsFirstFit bitsizes 1 100 (sizeclass_lookup 100)
sizeclass_lookup-IsFirstFit_example = sizeclass_lookup-IsFirstFit 100 (omega arith)

-- the class of 64 bytes, as the table gives it and as `sizeclass_boot` leaves it
abbrev class64 : SizeClass
class64 = record { moffset = 0; roffset = 0; nbits = 0; n_bitmaps = 0; bitsize = 64; toffset = 0 }

abbrev booted64 : SizeClass
booted64 = record {
  moffset = 64;
  roffset = 448;
  nbits = 1017;
  n_bitmaps = 16;
  bitsize = 64;
  toffset = 0;
}

boot_class_run : boot_class class64 ≡ some booted64
unfolding boot_class get_meta_size
boot_class_run = refl

booted64-IsLaidOut : IsLaidOut booted64
booted64-IsLaidOut = laid (boot_class-IsLaidOut class64 (omega arith))
  where
    laid :
        (c : SizeClass) × (boot_class class64 ≡ some c) × IsLaidOut c × (c.bitsize ≡ 64)
        → IsLaidOut booted64
    laid (c, e, l, q) = subst IsLaidOut (some-injective _ _ (sym e ∙ boot_class_run)) l

boot_classes-AllLaidOut_example :
    (classes : List SizeClass) × (meta_size : ℕ) × (boot_classes (map bin_class size_classes) 0
      ≡ some (classes, meta_size))
    × AllLaidOut meta_size classes
    × (map SizeClass.bitsize classes ≡ map SizeClass.bitsize (map bin_class size_classes))
boot_classes-AllLaidOut_example =
    boot_classes-AllLaidOut (map bin_class size_classes) 0 (omega arith)

get_meta_size-1018 : get_meta_size 1018 ≤ 1152
unfolding get_meta_size
get_meta_size-1018 = omega arith

-- the class of 64 bytes in a slab that keeps a table of one cache line
abbrev reset64 : SizeClass
reset64 = record {
  moffset = 64;
  roffset = 1280;
  nbits = 1004;
  n_bitmaps = 16;
  bitsize = 64;
  toffset = 1216;
}

reset64-IsReset : IsReset 1152 64 booted64 reset64
reset64-IsReset = record {
  marks = refl;
  table = refl;
  within = omega arith;
  same_size = refl;
  same_header = refl;
  bitmaps = omega arith;
  fewer = omega arith;
}
