-- ===== src/SizeClass/Boot.antt =====
-- `sizeclass_boot` as a whole: the loop over the classes, and what it gives on the table.
use nvalloc.Prelude.{
  ℕ, ◌+◌, ◌/◌, ◌≤◌, ◌<◌, ◌≡◌, refl, Option, some, List, [], ◌∷◌, map, arith, if◌then◌else◌, ltb,
}
use nvalloc.Interleave.{bid_to_mid}
use nvalloc.SizeClass.{SizeClass, bin_class, boot_classes, get_meta_size}
use nvalloc.SizeClass.Layout.{IsReset, IsLaidOut, boot_class-IsLaidOut, bid_to_mid-lt-get_meta_size}
use nvalloc.SizeClass.Table.{size_classes}

abbrev pub AllLargeEnough : List SizeClass → Type 0
AllLargeEnough [] = Unit
AllLargeEnough (c ∷ cs) = (8 ≤ c.bitsize) × AllLargeEnough cs

abbrev pub AllLaidOut : ℕ → List SizeClass → Type 0
AllLaidOut meta_size [] = Unit
AllLaidOut meta_size (c ∷ cs) =
    (IsLaidOut c × (get_meta_size (c.nbits + 1) ≤ meta_size)) × AllLaidOut meta_size cs

abbrev zero_class : SizeClass
zero_class = record { moffset = 0; roffset = 0; nbits = 0; n_bitmaps = 0; bitsize = 0; toffset = 0 }

-- what the loop leaves behind, started with `cs` and the global at `meta`
record Booted (cs : List SizeClass) (meta : ℕ) : Type 0 where
  classes : List SizeClass
  meta_size : ℕ
  result : boot_classes cs meta ≡ some (classes, meta_size)
  grows : meta ≤ meta_size
  all : AllLaidOut meta_size classes
  sizes : map SizeClass.bitsize classes ≡ map SizeClass.bitsize cs

boot_classes-Booted : (cs : List SizeClass) (meta : ℕ) → AllLargeEnough cs → Booted cs meta
unfolding boot_classes
boot_classes-Booted [] meta h = record {
  classes = [];
  meta_size = meta;
  result = refl;
  grows = omega arith;
  all = tt;
  sizes = refl;
}
boot_classes-Booted (c ∷ cs) meta (h, hs) =
    let (c', e, laid, same) = boot_class-IsLaidOut c h in
    let tmp : ℕ = get_meta_size (c'.nbits + 1) in
    let meta' : ℕ = if ltb meta tmp then tmp else meta in
    let r = boot_classes-Booted cs meta' hs in
    let up : (meta ≤ meta') × (tmp ≤ meta') = ground arith in
    record {
      classes = c' ∷ r.classes;
      meta_size = r.meta_size;
      result = rw (e, boot_classes, r.result);
      grows = omega (arith, r.grows, up);
      all = ((laid, omega (arith, r.grows, up)), r.all);
      sizes = rw (same, r.sizes);
    }

-- the last loop of `sizeclass_boot`, on the table, with the global `meta_size` at 0
unfoldable pub sizeclass_boot : Option (List SizeClass × ℕ)
unfolding boot_classes
sizeclass_boot = boot_classes (map bin_class size_classes) 0

-- The loop of `sizeclass_boot` lays out every class of a table without sizes below 8, keeps the
-- sizes, and leaves in `meta_size` room for the marks of one block more than any class has.
pub boot_classes-AllLaidOut :
    (cs : List SizeClass) (meta : ℕ)
    → AllLargeEnough cs
    → (classes : List SizeClass) × (meta_size : ℕ) × (boot_classes cs meta
        ≡ some (classes, meta_size))
      × AllLaidOut meta_size classes
      × (map SizeClass.bitsize classes ≡ map SizeClass.bitsize cs)
boot_classes-AllLaidOut cs meta h =
    let r = boot_classes-Booted cs meta h in (r.classes, r.meta_size, r.result, r.all, r.sizes)

-- In a slab with an index table the mark of every block, and of one block more, lies between the
-- header and the table.
pub reset_marks :
    (meta_size table_size : ℕ) (c c' : SizeClass) (bid : ℕ)
    → IsLaidOut c
    → get_meta_size (c.nbits + 1) ≤ meta_size
    → IsReset meta_size table_size c c'
    → bid ≤ c'.nbits
    → c'.moffset + bid_to_mid bid / 8 < c'.toffset
reset_marks meta_size table_size c c' bid laid enough reset le = omega (
  arith,
  laid.bounded,
  reset.marks,
  bid_to_mid-lt-get_meta_size (c.nbits + 1) bid (omega (arith, laid.bounded))
      (omega (arith, reset.fewer)),
)
