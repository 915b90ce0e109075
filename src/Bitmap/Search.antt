-- ===== src/Bitmap/Search.antt =====
-- The searches of the bitmap: `bitmap_sfu` takes the first free block of a slab, `bitmap_ffu` the
-- first size class from a given one on.
use Prim.Native.Nat.add
use nvalloc.Prelude.{
  ℕ, zero, suc, ◌+◌, ◌-◌, ◌*◌, ◌≤◌, ◌<◌, ◌≡◌, refl, sym, ap, ap₂, ◌∙◌, Bool, true, false, none,
  some, inl, inr, [], ◌∷◌, ◌++◌, arith, length, get_or, set, drop, length-set, Option-cases,
  first_one, first_one-lt, first_one-append_some, first_one-append_none, first_one-append_nothing,
  first_one-get, first_one-below, first_one-of_get,
}
use nvalloc.Word.{Word, IsWord, shift_right, all_zeros}
use nvalloc.Word.Laws.{clear_lowest}
use nvalloc.Bitmap.{Bitmap, sfu_scan, bitmap_sfu, bitmap_ffu}
use nvalloc.Bitmap.View.{bits, AreWords, length-bits, IsWord-get_or, bits-set, AreWords-set}

-- where the first set bit of a bitmap stands: in its first word, or behind it
data FirstIn (w : Word) (ws : Bitmap) (k : ℕ) : Type 0 where
  here : first_one w ≡ some k → k < 64 → FirstIn w ws k
  later : (j : ℕ) → first_one w ≡ none → first_one (bits ws) ≡ some j → k ≡ 64 + j → FirstIn w ws k

first_in :
    (w : Word) (ws : Bitmap) (k : ℕ)
    → IsWord w
    → first_one (bits (w ∷ ws)) ≡ some k
    → FirstIn w ws k
first_in w ws k h e = elim (Option-cases (first_one w)) [
  | inr (b, q) ↦
      let same : b ≡ k = ground (arith, first_one-append_some w (bits ws) b q) in
      here (rw (← same) q) (omega (arith, first_one-lt w b q, same))
  | inl q ↦ elim (Option-cases (first_one (bits ws))) [
    | inl r ↦ ground (arith, first_one-append_nothing w (bits ws) q r)
    | inr (j, r) ↦ later j q r (ground (arith, first_one-append_none w (bits ws) j q r))
  ]
]

-- The scan stops at the word of the first set bit.
record Scanned (num i : ℕ) (ws : Bitmap) (k : ℕ) : Type 0 where
  group : ℕ
  bit : ℕ
  split : k ≡ group * 64 + bit
  small : bit < 64
  inside : group < length ws
  found : sfu_scan num i ws ≡ some (i + group, suc bit, get_or ws group [])
  first : first_one (get_or ws group []) ≡ some bit

scan_here :
    (num i : ℕ) (w : Word) (ws : Bitmap) (k : ℕ)
    → first_one w ≡ some k
    → k < 64
    → Scanned num i (w ∷ ws) k
unfolding sfu_scan
scan_here num i w ws k f lt = record {
  group = 0;
  bit = k;
  split = omega arith;
  small = lt;
  inside = omega arith;
  found = ground arith;
  first = f;
}

scan_later :
    (num i : ℕ) (w : Word) (ws : Bitmap) (j : ℕ)
    → first_one w ≡ none
    → i + 1 < num
    → Scanned num (i + 1) ws j
    → Scanned num i (w ∷ ws) (64 + j)
unfolding sfu_scan
scan_later num i w ws j f lt r = record {
  group = suc r.group;
  bit = r.bit;
  split = omega (arith, r.split);
  small = r.small;
  inside = omega (arith, r.inside);
  found = ground (arith, r.found);
  first = r.first;
}

sfu_scan-Scanned :
    (num i : ℕ) (ws : Bitmap) (k : ℕ)
    → AreWords ws
    → i + length ws ≡ num
    → first_one (bits ws) ≡ some k
    → Scanned num i ws k
sfu_scan-Scanned num i [] k h e q = cc
sfu_scan-Scanned num i (w ∷ ws) k (h, hs) e q =
    step (first_in w ws k h q) (sfu_scan-Scanned num (i + 1) ws)
  where
    step :
        FirstIn w ws k
        → ((j : ℕ)
            → AreWords ws
            → i + 1 + length ws ≡ num
            → first_one (bits ws) ≡ some j
            → Scanned num (i + 1) ws j)
        → Scanned num i (w ∷ ws) k
    step (here f lt) ih = scan_here num i w ws k f lt
    step (later j f r s) ih = rw s (
        scan_later num i w ws j f (omega (arith, first_one-lt (bits ws) j r, length-bits ws hs))
          (ih j hs (omega arith) r))

-- When a block is free, `bitmap_sfu` returns the first free one, and the bitmap in which that
-- block alone has been taken.
pub bitmap_sfu-first_one :
    (nbits : ℕ) (bm : Bitmap) (k : ℕ)
    → AreWords bm
    → first_one (bits bm) ≡ some k
    → (bm' : Bitmap) × (bitmap_sfu (length bm) nbits bm true ≡ some (k, bm'))
      × (bits bm' ≡ set (bits bm) k false)
      × AreWords bm'
      × (length bm' ≡ length bm)
unfolding bitmap_sfu
bitmap_sfu-first_one nbits bm k words first =
    let r = sfu_scan-Scanned (length bm) 0 bm k words (omega arith) first in
    let w : Word = get_or bm r.group [] in
    let w' : Word = set w r.bit false in
    (
      set bm r.group w',
      rw (r.found, clear_lowest w r.bit r.first)
          (ap₂ (λ n g. some (n, set bm g w')) (omega (arith, r.split)) (omega arith)),
      bits-set bm r.group r.bit false words r.inside r.small
          ∙ ap (λ n. set (bits bm) n false) (omega (arith, r.split)),
      AreWords-set bm r.group w' words
          (length-set w r.bit false ∙ IsWord-get_or bm r.group words r.inside),
      length-set bm r.group w',
    )

sfu_scan-none : (num i : ℕ) (ws : Bitmap) → first_one (bits ws) ≡ none → sfu_scan num i ws ≡ none
unfolding sfu_scan
sfu_scan-none num i [] e = refl
sfu_scan-none num i (w ∷ ws) e = elim (Option-cases (first_one w)) [
  | inr (b, q) ↦ ground (arith, first_one-append_some w (bits ws) b q)
  | inl q ↦ elim (Option-cases (first_one (bits ws))) [
    | inl r ↦ ground (arith, sfu_scan-none num (i + 1) ws r)
    | inr (j, r) ↦ ground (arith, first_one-append_none w (bits ws) j q r)
  ]
]

-- When no block is free the search runs off the array: the assertion on `i` fails.
pub bitmap_sfu-none :
    (num nbits : ℕ) (bm : Bitmap) (do_set : Bool)
    → first_one (bits bm) ≡ none
    → bitmap_sfu num nbits bm do_set ≡ none
unfolding bitmap_sfu
bitmap_sfu-none num nbits bm do_set e = rw (sfu_scan-none num 0 bm e)

get_or-drop : (n : ℕ) (bs : Word) (j : ℕ) → get_or (drop n bs) j false ≡ get_or bs (n + j) false
get_or-drop zero bs j = rw add.zero
get_or-drop (suc n) [] j = refl
get_or-drop (suc n) (b ∷ bs) j = rw add.suc (get_or-drop n bs j)

-- bits above a shifted word are clear
pub get_or-zeros : (n : ℕ) (j : ℕ) → get_or (all_zeros n) j false ≡ false
get_or-zeros zero j = refl
get_or-zeros (suc n) zero = refl
get_or-zeros (suc n) (suc j) = get_or-zeros n j

get_or-append_zeros : (bs : Word) (n j : ℕ) → get_or (bs ++ all_zeros n) j false ≡ get_or bs j false
get_or-append_zeros [] n j = get_or-zeros n j
get_or-append_zeros (b ∷ bs) n zero = refl
get_or-append_zeros (b ∷ bs) n (suc j) = get_or-append_zeros bs n j

-- `bm >> k` has bit `k + j` of `bm` at `j`.
pub get_or-shift_right :
    (bm : Word) (k j : ℕ) → get_or (shift_right bm k) j false ≡ get_or bm (k + j) false
get_or-shift_right bm k j = get_or-append_zeros (drop k bm) _ j ∙ get_or-drop k bm j

-- What `bitmap_ffu` returns is set, is not below `min_bit`, and none between them is set.
pub bitmap_ffu-first :
    (bm : Word) (min_bit k : ℕ)
    → bitmap_ffu bm min_bit ≡ some k
    → (get_or bm k false ≡ true)
      × (min_bit ≤ k)
      × ((j : ℕ) → min_bit ≤ j → j < k → get_or bm j false ≡ false)
unfolding bitmap_ffu
bitmap_ffu-first bm min_bit k h = elim (Option-cases (first_one (shift_right bm min_bit))) [
  | inl e ↦ ground arith
  | inr (i, e) ↦
      let at : i + min_bit ≡ k = ground arith in
      let here = first_one-get (shift_right bm min_bit) i e in
      (
        ap (λ n. get_or bm n false) (omega (arith, at))
            ∙ sym (get_or-shift_right bm min_bit i)
            ∙ here,
        omega (arith, at),
        λ j le lt.
            ap (λ n. get_or bm n false) (omega (arith, at))
            ∙ sym (get_or-shift_right bm min_bit (j - min_bit))
            ∙ first_one-below (shift_right bm min_bit) i (j - min_bit) e (omega (arith, at)),
      )
]

-- It returns wherever a bit from `min_bit` on is set.
pub bitmap_ffu_total :
    (bm : Word) (min_bit k : ℕ)
    → min_bit ≤ k
    → get_or bm k false ≡ true
    → (i : ℕ) × (bitmap_ffu bm min_bit ≡ some i) × (i ≤ k)
unfolding bitmap_ffu
bitmap_ffu_total bm min_bit k le h =
    let (i, e, q) = first_one-of_get (shift_right bm min_bit) (k - min_bit) shifted in
    (i + min_bit, ground (arith, e), omega (arith, q))
  where
    shifted : get_or (shift_right bm min_bit) (k - min_bit) false ≡ true
    shifted =
        get_or-shift_right bm min_bit (k - min_bit) ∙ ap (λ n. get_or bm n false) (omega arith) ∙ h
