-- ===== src/Extents/Start.antt =====
-- `extents_init` establishes the invariant.
use nvalloc.Prelude.{
  ℕ, zero, suc, ◌+◌, ◌≡◌, refl, sym, ap, ◌∙◌, Bool, true, false, not, some, [], ◌∷◌, arith,
  replicate, length-replicate, get_elem?, get_or, get_or-set, if◌then◌else◌, ◌==◌,
}
use nvalloc.Word.{width, all_zeros}
use nvalloc.Bitmap.{Bitmap, bitmap_unset_bits}
use nvalloc.Bitmap.View.{
  bits, AreWords, bits-bitmap_unset_bits, bitmap_unset_bits-AreWords, length-bitmap_unset_bits,
}
use nvalloc.Bitmap.Search.{get_or-zeros}
use nvalloc.SizeClass.Table.{max_psz_idx}
use nvalloc.Containers.{ExtentHeap, ExtentList}
use nvalloc.Extents.{Extents, Store, ExtentState, extents_init}
use nvalloc.Extents.Inv.{In, IsExtents}

abbrev clear : Bitmap
clear = all_zeros width ∷ []

clear-AreWords : AreWords clear
clear-AreWords = (refl, tt)

get_elem-replicate {ℓ} :
    {A : Type ℓ} (n : ℕ) (a v : A) (i : ℕ) → get_elem? (replicate n a) i ≡ some v → a ≡ v
get_elem-replicate zero a v i h = cc
get_elem-replicate (suc n) a v zero h = cc
get_elem-replicate (suc n) a v (suc i) h = get_elem-replicate n a v i h

-- only the guard is marked
bits_start :
    (i : ℕ)
    → get_or (bits (bitmap_unset_bits clear max_psz_idx)) i false
      ≡ (if max_psz_idx == i then true else false)
bits_start i = rw (bits-bitmap_unset_bits clear max_psz_idx clear-AreWords (omega arith)) (
    get_or-set (bits clear) max_psz_idx i true false (omega arith)
    ∙ ap (λ b. if max_psz_idx == i then true else b) (get_or-zeros width i))

module _ {heap : ExtentHeap} {list : ExtentList} (store : Store) (state : ExtentState)
    (delay_coalesce : Bool) where
  abbrev x : Extents heap list
  x = extents_init heap list state delay_coalesce

  pub extents_init-IsExtents : IsExtents store x
  unfolding extents_init
  extents_init-IsExtents = record {
    one_word = length-bitmap_unset_bits clear max_psz_idx clear-AreWords (omega arith);
    words = bitmap_unset_bits-AreWords clear max_psz_idx clear-AreWords (omega arith);
    all_heaps = length-replicate (max_psz_idx + 1) heap.new;
    guard = bits_start max_psz_idx;
    bit = λ i h lt at.
        bits_start i
        ∙ ground (arith, lt)
        ∙ sym (
            ap not (
              ap heap.empty (sym (get_elem-replicate (max_psz_idx + 1) heap.new h i at))
              ∙ heap.empty-new));
    kept = λ i e m. absurd (nothing i e m);
    once = λ i e m. absurd (nothing i e m);
    listed = λ e pos. absurd (ground (arith, list.items-new));
    counted = rw list.items-new refl;
    bounded = omega arith;
  }
    where
      nothing : (i e : ℕ) → In x i e → ⊥
      nothing i e m =
          let same = get_elem-replicate (max_psz_idx + 1) heap.new m.heap_of i m.at in
          cc (same, heap.empty-new, heap.empty-has heap.new e heap.empty-new, m.member)
