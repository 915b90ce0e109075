-- ===== src/Extents/Floor.antt =====
-- The class under which an extent is kept: the largest one with no more pages than the extent.
use nvalloc.Prelude.{zero, suc, ◌≢◌, ℕ, ◌+◌, ◌-◌, ◌^◌, ◌≤◌, ◌<◌, ◌≡◌, some, none, arith}
use native.Mathlib.Decide.{dec_le, ℕ_discrete}
use nvalloc.SizeClass.Table.{max_psz_idx, max_psz, psizeclass_lookup, get_psizeclass, npages_by_idx}
use nvalloc.SizeClass.Pages.{
  npages_by_idx-lt, npages_by_idx-le, npages_by_idx-last, most_pages, last_class, IsClass,
  get_psizeclass-IsClass, get_psizeclass-beyond, get_psizeclass-fails,
}
use nvalloc.Extents.{get_psizeclass_floor}

-- Class `i` has no more than `npages` pages, and any class behind it has more.
pub record IsNearest (npages i : ℕ) : Type 0 where
  pub result : get_psizeclass_floor npages ≡ some i
  pub last : i ≤ last_class
  pub le : npages_by_idx i ≤ npages
  pub next : i < last_class → npages < npages_by_idx (i + 1)

-- The first class has one page.
class_pos : (npages k : ℕ) → 1 < npages → npages ≤ npages_by_idx k → 0 < k
unfolding npages_by_idx
class_pos npages zero lt h = absurd (omega arith)
class_pos npages (suc k) lt h = omega arith

module _ (npages k : ℕ) (pos : 0 < npages) (this : IsClass npages k) where
  -- A page more is of the same class.
  floor_before :
      get_psizeclass (npages + 1) ≡ some k → npages + 1 ≤ npages_by_idx k → IsNearest npages (k - 1)
  unfolding get_psizeclass_floor
  floor_before more fits =
      let k_pos : 0 < k = class_pos (npages + 1) k (omega arith) fits in
      let same : k - 1 + 1 ≡ k = omega arith in
      record {
        result = rw (this.result, more) (ground arith);
        last = omega (arith, this.last);
        le = omega (arith, this.before (k - 1) (omega arith));
        next = λ lt. rw same (omega arith);
      }

  -- A page more is of a class `k'` behind it, or of no class.
  floor_here :
      (k' : ℕ)
      → get_psizeclass (npages + 1) ≡ some k'
      → k ≢ k'
      → npages_by_idx k ≤ npages
      → IsNearest npages k
  unfolding get_psizeclass_floor
  floor_here k' more ne le = record {
    result = rw (this.result, more) (ground arith);
    last = this.last;
    le = le;
    next = λ lt. omega (arith, npages_by_idx-lt k (k + 1) (omega arith) (omega arith), this.fits);
  }

-- An extent of at least one page and no more than the largest class has gets the class that has
-- no more pages than it while the next has more.
pub get_psizeclass_floor-IsNearest :
    (npages : ℕ) → 0 < npages → npages ≤ most_pages → (i : ℕ) × IsNearest npages i
get_psizeclass_floor-IsNearest npages pos le =
    let k = psizeclass_lookup npages in
    let this : IsClass npages k = get_psizeclass-IsClass npages pos le in
    elim (dec_le (npages + 1) most_pages) [
      | yes below ↦
          let k' = psizeclass_lookup (npages + 1) in
          let more : IsClass (npages + 1) k' =
            get_psizeclass-IsClass (npages + 1) (omega arith) below in
          elim (ℕ_discrete k k') [
            | yes e ↦
                let more' : IsClass (npages + 1) k = rw e more in
                (k - 1, floor_before npages k pos this more'.result more'.fits)
            | no ne ↦
                let lt : k < k' = elim (dec_le k' k) [
                  | yes ge ↦ absurd (omega (arith, this.before k' (omega arith), more.fits))
                  | no gt ↦ omega arith
                ] in
                (
                  k,
                  floor_here npages k pos this k' more.result ne (omega (arith, more.before k lt)),
                )
          ]
      | no above ↦
          let k_pos = class_pos npages k (omega arith) this.fits in
          (
            k,
            floor_here npages k pos this 0
                (get_psizeclass-beyond (npages + 1) (omega arith) (omega arith)) (λ e. omega arith)
                (omega (
                  arith,
                  npages_by_idx-le k last_class this.last (omega arith),
                  npages_by_idx-last,
                )),
          )
    ]

-- With more pages than the largest class has, and fewer than `MAX_PSZ`, the class is the
-- largest value of a `pszind_t`, as the subtraction wraps around.
pub get_psizeclass_floor-beyond :
    (npages : ℕ)
    → most_pages < npages
    → npages < max_psz
    → get_psizeclass_floor npages ≡ some (2 ^ 32 - 1)
unfolding get_psizeclass_floor
get_psizeclass_floor-beyond npages gt lt = rw (
  get_psizeclass-beyond npages gt (omega arith),
  get_psizeclass-beyond (npages + 1) (omega arith) (omega arith),
)

-- The assertion on the number of pages.
get_psizeclass_floor-fails : (npages : ℕ) → max_psz ≤ npages → get_psizeclass_floor npages ≡ none
unfolding get_psizeclass_floor
get_psizeclass_floor-fails npages ge = elim (dec_le npages max_psz) [
  | yes le ↦ rw (
    get_psizeclass-beyond npages (omega arith) le,
    get_psizeclass-fails (npages + 1) (omega arith),
  )
  | no gt ↦ rw (get_psizeclass-fails npages (omega arith))
]

-- An extent that has a class is no smaller than the class, and no larger than the last class.
pub get_psizeclass_floor-le :
    (npages i : ℕ)
    → 0 < npages
    → get_psizeclass_floor npages ≡ some i
    → i ≤ max_psz_idx
    → (npages ≤ most_pages) × IsNearest npages i
get_psizeclass_floor-le npages i pos e lt = elim (dec_le npages most_pages) [
  | yes le ↦
      let (k, f) = get_psizeclass_floor-IsNearest npages pos le in
      let same : i ≡ k = cc (e, f.result) in (le, rw same f)
  | no gt ↦ elim (dec_le max_psz npages) [
    | yes ge ↦ cc (e, get_psizeclass_floor-fails npages ge)
    | no below ↦
        let same : i ≡ 2 ^ 32 - 1 =
          cc (e, get_psizeclass_floor-beyond npages (omega arith) (omega arith)) in
        absurd (omega arith)
  ]
]
