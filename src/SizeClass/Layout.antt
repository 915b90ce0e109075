-- ===== src/SizeClass/Layout.antt =====
-- The layout that `sizeclass_boot` and `sizeclass_reset` give a slab: header, marks, index table
-- and blocks follow one another and fit `SLAB_SIZE`, with as many blocks as can be.
use nvalloc.Prelude.{
  ℕ, zero, suc, ◌+◌, ◌*◌, ◌/◌, ◌%◌, ◌^◌, ◌≤◌, ◌<◌, ◌≡◌, refl, some, arith, inl, inr, Bool-cases,
  leb, leb→le,
}
use native.Mathlib.Decide.{dec_le}
use native.Mathlib.Nat.{div-lt_iff_lt-mul, lt-div-mul-add, le_trans, le_of_eq}
use nvalloc.Machine.{slab_size, cacheline_size, round_up}
use nvalloc.Interleave.{bid_to_mid}
use nvalloc.SizeClass.{
  SizeClass, sizeof_slab, head_size, get_meta_size, fit_blocks, boot_class, sizeclass_reset,
  ceil_div,
}

head_size-eq : round_up sizeof_slab cacheline_size ≡ head_size
unfolding round_up
head_size-eq = refl

-- what the loop over `nbits` has found when it stops
record IsBest (bitsize : ℕ) (overhead : ℕ → ℕ) (start n : ℕ) : Type 0 where
  le : n ≤ start
  fits : n * bitsize + overhead n ≤ slab_size
  best : (m : ℕ) → n < m → m ≤ start → slab_size < m * bitsize + overhead m

module _ (bitsize : ℕ) (overhead : ℕ → ℕ) where
  fit_blocks-IsBest :
      (start n : ℕ) → fit_blocks bitsize overhead start ≡ some n → IsBest bitsize overhead start n
  unfolding fit_blocks
  fit_blocks-IsBest zero n h =
      let same : n ≡ 0 = ground arith in
      record {
        le = omega arith;
        fits = rw same (ground arith);
        best = λ m p q. absurd (omega arith);
      }
  fit_blocks-IsBest (suc s) n h =
      elim (Bool-cases (leb (suc s * bitsize + overhead (suc s)) slab_size)) [
        | inl e ↦
            let same : n ≡ suc s = ground arith in
            record {
              le = omega arith;
              fits = rw same (leb→le _ _ e);
              best = λ m p q. absurd (omega arith);
            }
        | inr e ↦
            let r = fit_blocks-IsBest s n (rw e at h) in
            record {
              le = omega (arith, r.le);
              fits = r.fits;
              best = λ m p q. elim (dec_le m s) [
                | yes below ↦ r.best m p below
                | no above ↦ let same : m ≡ suc s = omega arith in rw same (ground arith)
              ];
            }
      ]

  fit_blocks_total :
      (start : ℕ) → overhead 0 ≤ slab_size → (n : ℕ) × (fit_blocks bitsize overhead start ≡ some n)
  unfolding fit_blocks
  fit_blocks_total zero h = (0, ground arith)
  fit_blocks_total (suc s) h =
      elim (Bool-cases (leb (suc s * bitsize + overhead (suc s)) slab_size)) [
        | inl e ↦ (suc s, rw e)
        | inr e ↦ let (n, q) = fit_blocks_total s h in (n, rw (e, q))
      ]

-- The marks of `n` blocks take whole groups of six cache lines, and no more than needed.
get_meta_size-eq : (n : ℕ) → n < 2 ^ 32 → get_meta_size n ≡ ((n + 7) / 8 + 383) / 384 * 384
unfolding get_meta_size
get_meta_size-eq n h = ground arith

-- The mark of each of `n` blocks lies in the bytes that `get_meta_size` gives them.
pub bid_to_mid-lt-get_meta_size :
    (n bid : ℕ) → n < 2 ^ 32 → bid < n → bid_to_mid bid / 8 < get_meta_size n
unfolding bid_to_mid
bid_to_mid-lt-get_meta_size n bid h lt = omega (arith, get_meta_size-eq n h)

-- What `sizeclass_boot` establishes of a class.
pub record IsLaidOut (c : SizeClass) : Type 0 where
  pub header : c.moffset ≡ head_size
  pub marks : c.roffset ≡ c.moffset + get_meta_size c.nbits
  pub within : c.roffset + c.nbits * c.bitsize ≤ slab_size
  pub most : (m : ℕ) → c.nbits < m → slab_size < head_size + get_meta_size m + m * c.bitsize
  pub bitmaps : c.nbits ≤ c.n_bitmaps * 64
  pub bitmaps_tight : c.n_bitmaps * 64 < c.nbits + 64
  pub bounded : c.nbits ≤ 8193

-- The loop starts below 8194 blocks, and with more blocks than the slab can hold.
start_small : (b : ℕ) → 8 ≤ b → slab_size / b + 1 ≤ 8193
start_small b h = omega (arith, (div-lt_iff_lt-mul {x = slab_size} {y = 8193} h').1 (omega arith))
  where
    h' : 0 < b
    h' = omega arith

start_large : (b m : ℕ) → 8 ≤ b → slab_size / b + 1 < m → slab_size < m * b
start_large b m h lt =
    le_trans (lt-div-mul-add {a = slab_size} {b = b} (omega arith))
      (le_trans (le_of_eq {m = (slab_size / b + 1) * b} (omega arith)) (grind arith))

-- `sizeclass_boot` lays out every class of at least 8 bytes: its loop stops, with the largest
-- number of blocks that fit the slab behind header and marks, and no field is truncated.
pub boot_class-IsLaidOut :
    (c : SizeClass)
    → 8 ≤ c.bitsize
    → (c' : SizeClass) × (boot_class c ≡ some c') × IsLaidOut c' × (c'.bitsize ≡ c.bitsize)
unfolding boot_class
boot_class-IsLaidOut c h =
    let start : ℕ = slab_size / c.bitsize + 1 in
    let overhead : ℕ → ℕ = λ n. head_size + get_meta_size n in
    let (n, e) =
      fit_blocks_total c.bitsize overhead start (omega (arith, get_meta_size-eq 0 (omega arith))) in
    let r = fit_blocks-IsBest c.bitsize overhead start n e in
    let small : n ≤ 8193 = le_trans r.le (start_small c.bitsize h) in
    (
      record c {
        nbits = n;
        moffset = head_size;
        toffset = 0;
        roffset = head_size + get_meta_size n;
        n_bitmaps = ceil_div n 64 % 2 ^ 8;
      },
      rw (e, boot_class),
      record {
        header = refl;
        marks = refl;
        within = omega (arith, r.fits);
        most = λ m lt. elim (dec_le m start) [
          | yes le ↦ omega (arith, r.best m lt le)
          | no gt ↦ omega (arith, start_large c.bitsize m h (omega arith))
        ];
        bitmaps = omega arith;
        bitmaps_tight = omega arith;
        bounded = small;
      },
      refl,
    )

-- What `sizeclass_reset` establishes of the class of a slab that is to hold an index table.
pub record IsReset (meta_size table_size : ℕ) (c c' : SizeClass) : Type 0 where
  pub marks : c'.toffset ≡ c'.moffset + meta_size
  pub table : c'.roffset ≡ c'.toffset + table_size
  pub within : c'.roffset + c'.nbits * c'.bitsize ≤ slab_size
  pub same_size : c'.bitsize ≡ c.bitsize
  pub same_header : c'.moffset ≡ c.moffset
  pub bitmaps : c'.nbits ≤ c'.n_bitmaps * 64
  pub fewer : c'.nbits ≤ c.nbits

-- With room for the table `sizeclass_reset` stops, the parts fit the slab one behind the other, and
-- the slab has no more blocks than one of that class without a table, when `meta_size` is enough for
-- the marks of one block more than that has.
pub sizeclass_reset-IsReset :
    (meta_size table_size : ℕ) (c : SizeClass)
    → IsLaidOut c
    → 8 ≤ c.bitsize
    → get_meta_size (c.nbits + 1) ≤ meta_size
    → head_size + meta_size + table_size ≤ slab_size
    → (c' : SizeClass) × (sizeclass_reset meta_size c table_size ≡ some c')
      × IsReset meta_size table_size c c'
unfolding sizeclass_reset
sizeclass_reset-IsReset meta_size table_size c laid h enough room =
    let start : ℕ = slab_size / c.bitsize + 1 in
    let overhead : ℕ → ℕ = λ _. head_size + meta_size + table_size in
    let (n, e) = fit_blocks_total c.bitsize overhead start room in
    let r = fit_blocks-IsBest c.bitsize overhead start n e in
    let small : n ≤ 8193 = le_trans r.le (start_small c.bitsize h) in
    let fits : n * c.bitsize + (head_size + meta_size + table_size) ≤ slab_size = r.fits in
    (
      record c {
        nbits = n;
        toffset = c.moffset + meta_size;
        roffset = c.moffset + meta_size + table_size;
        n_bitmaps = ceil_div n 64 % 2 ^ 8;
      },
      rw (e, sizeclass_reset),
      record {
        marks = refl;
        table = refl;
        within = omega (arith, laid.header);
        same_size = refl;
        same_header = refl;
        bitmaps = omega arith;
        fewer = elim (dec_le n c.nbits) [
          | yes le ↦ le
          | no gt ↦ absurd (no_more n (omega arith) fits)
        ];
      },
    )
  where
    no_more :
        (n : ℕ) → c.nbits < n → n * c.bitsize + (head_size + meta_size + table_size) ≤ slab_size → ⊥
    no_more n lt fits =
        let over = laid.most (c.nbits + 1) (omega arith) in
        let le : (c.nbits + 1) * c.bitsize ≤ n * c.bitsize = grind arith in omega (arith, over, le)
