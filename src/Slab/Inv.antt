-- ===== src/Slab/Inv.antt =====
-- The invariant of a slab's volatile part: the bitmap marks the free blocks, and the header counts
-- those in use.
use mathlib.Core.Path.{subst}
use nvalloc.Prelude.{
  ℕ, zero, suc, ◌+◌, ◌-◌, ◌*◌, ◌^◌, ◌≤◌, ◌<◌, ◌≡◌, inl, inr, refl, sym, ap, ◌∙◌, true, false, some,
  arith, length, length-replicate, get_or, set, zeros, replicate, zeros-append, zeros-set-false,
  zeros-set-true, first_one, first_one-le-zeros, first_one-none, Option-cases,
}
use nvalloc.Word.{all_ones, width}
use nvalloc.Bitmap.{Bitmap, BitmapHeader}
use nvalloc.Bitmap.View.{bits, AreWords, length-bits}
use nvalloc.SizeClass.{SizeClass}
use nvalloc.Slab.{VSlab, vslab_init}

pub record IsVSlab (v : VSlab) : Type 0 where
  pub words : AreWords v.bitmap
  pub shape : length v.bitmap ≡ v.sc.n_bitmaps
  pub count : v.bitmap_header.nbits ≡ zeros (bits v.bitmap)
  pub room : v.sc.nbits ≤ v.sc.n_bitmaps * 64
  pub small : v.sc.nbits < 2 ^ 16
  pub size : 0 < v.sc.bitsize
  pub header : v.bitmap_header.nbits < 2 ^ 16

all_free :
    (n : ℕ)
    → (AreWords (replicate n (all_ones width))) × (zeros (bits (replicate n (all_ones width))) ≡ 0)
all_free zero = (tt, refl)
all_free (suc n) =
    let (words, none_used) = all_free n in
    (
      (refl, words),
      omega (arith, zeros-append (all_ones width) (bits (replicate n (all_ones width))), none_used),
    )

-- A new slab satisfies it, with all blocks free.
pub vslab_init-IsVSlab :
    (v : VSlab) (dmeta : ℕ) (sc : SizeClass)
    → sc.nbits ≤ sc.n_bitmaps * 64
    → sc.nbits < 2 ^ 16
    → 0 < sc.bitsize
    → IsVSlab (vslab_init v dmeta sc)
unfolding vslab_init
vslab_init-IsVSlab v dmeta sc room small size = record {
  words = (all_free sc.n_bitmaps).0;
  shape = length-replicate sc.n_bitmaps (all_ones width);
  count = sym ((all_free sc.n_bitmaps).1);
  room = room;
  small = small;
  size = size;
  header = omega arith;
}

-- While fewer blocks are in use than the class has, one of the class is free, and the first free
-- one is no farther than as many as are in use.
pub free_block :
    (v : VSlab)
    → IsVSlab v
    → v.bitmap_header.nbits < v.sc.nbits
    → (k : ℕ) × (first_one (bits v.bitmap) ≡ some k) × (k < v.sc.nbits)
free_block v is less = elim (Option-cases (first_one (bits v.bitmap))) [
  | inr (k, e) ↦ (k, e, omega (arith, first_one-le-zeros (bits v.bitmap) k e, is.count))
  | inl e ↦ absurd (
      omega (
        arith,
        first_one-none (bits v.bitmap) e,
        length-bits v.bitmap is.words,
        is.count,
        is.room,
        is.shape,
      ))
]

-- Taking a free block keeps it, and counts the block.
pub taken-IsVSlab :
    (v : VSlab) (k : ℕ) (bm : Bitmap)
    → IsVSlab v
    → get_or (bits v.bitmap) k false ≡ true
    → AreWords bm
    → length bm ≡ length v.bitmap
    → v.bitmap_header.nbits < v.sc.nbits
    → bits bm ≡ set (bits v.bitmap) k false
    → IsVSlab (record v {
      bitmap = bm;
      bitmap_header = record { cur = v.bitmap_header.cur; nbits = v.bitmap_header.nbits + 1 };
    })
taken-IsVSlab v k bm is free words len less e = record {
  words = words;
  shape = len ∙ is.shape;
  count = omega (arith, ap zeros e, zeros-set-false (bits v.bitmap) k free, is.count);
  room = is.room;
  small = is.small;
  size = is.size;
  header = omega (arith, is.small);
}

-- So does freeing one in use.
pub freed-IsVSlab :
    (v : VSlab) (k : ℕ) (bm : Bitmap)
    → IsVSlab v
    → get_or (bits v.bitmap) k true ≡ false
    → AreWords bm
    → length bm ≡ length v.bitmap
    → bits bm ≡ set (bits v.bitmap) k true
    → IsVSlab (record v {
      bitmap = bm;
      bitmap_header = record { cur = v.bitmap_header.cur; nbits = v.bitmap_header.nbits - 1 };
    })
freed-IsVSlab v k bm is used words len e = record {
  words = words;
  shape = len ∙ is.shape;
  count = omega (arith, ap zeros e, zeros-set-true (bits v.bitmap) k used, is.count);
  room = is.room;
  small = is.small;
  size = is.size;
  header = omega (arith, is.header);
}

-- It depends on the bitmap, its header and the class alone.
pub IsVSlab-same :
    (v v' : VSlab)
    → v'.bitmap ≡ v.bitmap
    → v'.bitmap_header ≡ v.bitmap_header
    → v'.sc ≡ v.sc
    → IsVSlab v
    → IsVSlab v'
IsVSlab-same v v' bitmap header sc is = record {
  words = subst AreWords (sym bitmap) is.words;
  shape = ap length bitmap ∙ is.shape ∙ ap SizeClass.n_bitmaps (sym sc);
  count = ap BitmapHeader.nbits header ∙ is.count ∙ ap (λ b. zeros (bits b)) (sym bitmap);
  room = subst (λ (c : SizeClass). c.nbits ≤ c.n_bitmaps * 64) (sym sc) is.room;
  small = subst (λ (c : SizeClass). c.nbits < 2 ^ 16) (sym sc) is.small;
  size = subst (λ (c : SizeClass). 0 < c.bitsize) (sym sc) is.size;
  header = subst (λ (h : BitmapHeader). h.nbits < 2 ^ 16) (sym header) is.header;
}
