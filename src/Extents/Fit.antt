-- ===== src/Extents/Fit.antt =====
-- `extents_best_fit_locked` ends, gives an extent that has the pages, from the first class that has
-- any, and fails only where no class has any.
use nvalloc.Prelude.{
  ℕ, ◌+◌, ◌*◌, ◌≤◌, ◌<◌, ◌≡◌, sym, ap, ◌∙◌, true, false, not, ◌&&◌, Option, some, none, [], arith,
  ltb, get_elem?, get_or, inl, inr, ◌⊎◌, Bool-cases, get_elem_total, lt→ltb,
}
use native.Mathlib.Decide.{dec_le, dec_lt}
use nvalloc.Bitmap.{bitmap_ffu}
use nvalloc.Bitmap.View.{bits, get_or-bits}
use nvalloc.Bitmap.Search.{bitmap_ffu-first, bitmap_ffu_total}
use nvalloc.SizeClass.Table.{max_psz_idx, psizeclass_lookup, npages_by_idx}
use nvalloc.SizeClass.Pages.{most_pages, IsClass, get_psizeclass-IsClass, npages_by_idx-le}
use nvalloc.Containers.{ExtentHeap, ExtentList}
use nvalloc.Extents.{Extents, Store, best_fit_from, extents_best_fit_locked}
use nvalloc.Extents.Inv.{pages_of, In, In-IsNearest, IsExtents}

module _ {heap : ExtentHeap} {list : ExtentList} (store : Store) (x : Extents heap list)
    (is : IsExtents store x) where
  -- no class from `from` up to `to` has an extent
  abbrev pub NoneIn : ℕ → ℕ → Type 0
  NoneIn from to = (j e : ℕ) → from ≤ j → j < to → ¬ In x j e

  -- the word that is searched
  bit_at : (j : ℕ) → j < 64 → get_or (get_or x.bitmap 0 []) j false ≡ get_or (bits x.bitmap) j false
  bit_at j lt =
      sym (get_or-bits x.bitmap 0 j false is.words (omega (arith, is.one_word)) lt)
      ∙ ap (λ k. get_or (bits x.bitmap) k false) (plain j)
    where
      plain : (k : ℕ) → 0 * 64 + k ≡ k
      plain k = omega arith

  bit_of :
      (j : ℕ) (h : heap.Heap)
      → j < max_psz_idx
      → get_elem? x.heaps j ≡ some h
      → get_or (get_or x.bitmap 0 []) j false ≡ not (heap.empty h)
  bit_of j h lt at = bit_at j (omega arith) ∙ is.bit j h lt at

  -- what a search from class `pind` finds: a class with an extent, or the guard
  record Found (pind i : ℕ) : Type 0 where
    result : bitmap_ffu (get_or x.bitmap 0 []) pind ≡ some i
    from : pind ≤ i
    within : i ≤ max_psz_idx
    skipped : NoneIn pind i
    first :
        i < max_psz_idx → (h : heap.Heap) × (get_elem? x.heaps i ≡ some h) × (heap.empty h ≡ false)

  heap_at : (i : ℕ) → i ≤ max_psz_idx → (h : heap.Heap) × (get_elem? x.heaps i ≡ some h)
  heap_at i le = get_elem_total x.heaps i (omega (arith, is.all_heaps))

  unmarked :
      (j e : ℕ) → In x j e → get_or (get_or x.bitmap 0 []) j false ≡ false → j < max_psz_idx → ⊥
  unmarked j e m clear lt = elim (Bool-cases (heap.empty m.heap_of)) [
    | inl q ↦ cc (heap.empty-has m.heap_of e q, m.member)
    | inr q ↦ cc (bit_of j m.heap_of lt m.at, q, clear)
  ]

  marked :
      (j : ℕ) (h : heap.Heap)
      → j < max_psz_idx
      → get_elem? x.heaps j ≡ some h
      → get_or (get_or x.bitmap 0 []) j false ≡ true
      → heap.empty h ≡ false
  marked j h lt at on = elim (Bool-cases (heap.empty h)) [
    | inl q ↦ cc (bit_of j h lt at, q, on)
    | inr q ↦ q
  ]

  search_from : (pind : ℕ) → pind ≤ max_psz_idx → (i : ℕ) × Found pind i
  search_from pind le =
      let w = get_or x.bitmap 0 [] in
      let (i, e, within) =
        bitmap_ffu_total w pind max_psz_idx le (bit_at max_psz_idx (omega arith) ∙ is.guard) in
      let (set_i, from, clear) = bitmap_ffu-first w pind i e in
      (
        i,
        record {
          result = e;
          from = from;
          within = within;
          skipped = λ j e' ge lt m. unmarked j e' m (clear j ge lt) (omega arith);
          first = λ lt. let (h, at) = heap_at i within in (h, at, marked i h lt at set_i);
        },
      )

  -- The extent that a request of `npages` pages gets, or why it gets none: no class that has them
  -- has an extent, or, where merging is delayed, the first that has one is more than 32 times as
  -- large.
  pub data IsBestFit (npages : ℕ) : Option ℕ → Type 0 where
    fit :
        (i e : ℕ)
        → In x i e
        → npages ≤ pages_of store e
        → NoneIn (psizeclass_lookup npages) i
        → IsBestFit npages (some e)
    no_class : NoneIn (psizeclass_lookup npages) max_psz_idx → IsBestFit npages none
    too_large :
        (i e : ℕ)
        → In x i e
        → x.delay_coalesce ≡ true
        → npages * 32 < npages_by_idx i
        → NoneIn (psizeclass_lookup npages) i
        → IsBestFit npages none

  -- the first round of the loop, at a class that has an extent
  fit_at :
      (npages : ℕ)
      → IsClass npages (psizeclass_lookup npages)
      → (i : ℕ) → Found (psizeclass_lookup npages) i
      → i < max_psz_idx
      → (r : Option ℕ) × (extents_best_fit_locked heap list x npages ≡ some r) × IsBestFit npages r
  unfolding extents_best_fit_locked best_fit_from
  fit_at npages class i found lt =
      let below : ltb i max_psz_idx ≡ true = lt→ltb i max_psz_idx lt in
      let (h, at, filled) = found.first lt in
      let (e, at_e) = heap.first-empty h filled in
      let m : In x i e = record { heap_of = h; at = at; member = heap.has-first h e at_e } in
      let (_, f) = In-IsNearest store x is i e m in
      elim (Bool-cases (x.delay_coalesce && ltb (npages * 32) (npages_by_idx i))) [
        | inl q ↦ (
          none,
          rw (class.result, found.result, below, at, filled, q),
          too_large i e m (ground (arith, q)) (ground (arith, q)) found.skipped,
        )
        | inr q ↦
            let enough : npages ≤ pages_of store e = omega (
              arith,
              class.fits,
              npages_by_idx-le (psizeclass_lookup npages) i found.from f.last,
              f.le,
            ) in
            (
              some e,
              rw (class.result, found.result, below, at, filled, q, at_e),
              fit i e m enough found.skipped,
            )
      ]

  -- For a number of pages that some class has, the search ends with an extent that has them,
  -- while no class before its own that has them holds any; or with none, as `IsBestFit` says.
  pub extents_best_fit_locked-IsBestFit :
      (npages : ℕ)
      → 0 < npages
      → npages ≤ most_pages
      → (r : Option ℕ) × (extents_best_fit_locked heap list x npages ≡ some r) × IsBestFit npages r
  unfolding extents_best_fit_locked best_fit_from
  extents_best_fit_locked-IsBestFit npages pos le =
      let pind = psizeclass_lookup npages in
      let class : IsClass npages pind = get_psizeclass-IsClass npages pos le in
      let (i, found) = search_from pind (omega (arith, class.last)) in
      elim (dec_lt i max_psz_idx) [
        | no ge ↦
            let same : i ≡ max_psz_idx = omega (arith, found.within) in
            (none, rw (class.result, found.result, same), no_class (rw (← same) found.skipped))
        | yes lt ↦ fit_at npages class i found lt
      ]

  -- A request gets an extent whenever some class that has its pages holds one, where merging is
  -- not delayed or that class has no more than 32 times the pages.
  pub extents_best_fit_locked-some :
      (npages j e : ℕ)
      → 0 < npages
      → npages ≤ most_pages
      → (x.delay_coalesce ≡ false) ⊎ (npages_by_idx j ≤ npages * 32)
      → In x j e
      → npages ≤ npages_by_idx j
      → (e' : ℕ) × (extents_best_fit_locked heap list x npages ≡ some (some e'))
  extents_best_fit_locked-some npages j e pos le now m enough =
      let (r, q, b) = extents_best_fit_locked-IsBestFit npages pos le in outcome r q b
    where
      class : IsClass npages (psizeclass_lookup npages)
      class = get_psizeclass-IsClass npages pos le

      behind : psizeclass_lookup npages ≤ j
      behind = elim (dec_le (psizeclass_lookup npages) j) [
        | yes h ↦ h
        | no h ↦ absurd (omega (arith, class.before j (omega arith)))
      ]

      inside : j < max_psz_idx
      inside = let (_, f) = In-IsNearest store x is j e m in omega (arith, f.last)

      outcome :
          (r : Option ℕ)
          → extents_best_fit_locked heap list x npages ≡ some r
          → IsBestFit npages r
          → (e' : ℕ) × (extents_best_fit_locked heap list x npages ≡ some (some e'))
      outcome _ q (IsBestFit.fit i e' m' fits skipped) = (e', q)
      outcome _ q (IsBestFit.no_class clear) = absurd (clear j e behind inside m)
      outcome _ q (IsBestFit.too_large i e' m' late large skipped) = elim (dec_le i j) [
        | no after ↦ absurd (skipped j e behind (omega arith) m)
        | yes before ↦ elim now [
          | inl never ↦ cc
          | inr small ↦
              let (_, f) = In-IsNearest store x is j e m in
              absurd (omega (arith, npages_by_idx-le i j before f.last))
        ]
      ]
