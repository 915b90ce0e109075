-- ===== src/Extents.antt =====
-- src/extent.c and include/nvalloc/internal/extent.h: the extents of an arena. An extent is a range
-- of pages; an `extents_t` keeps those of one state that are not in use, in a heap for each class of
-- `psizeclasses` and in the order in which they came. An extent is known by the address of its
-- `extent_t`, and `Store` has what stands there.
pub mod Floor
pub mod Inv
pub mod Start
pub mod Insert
pub mod Remove
pub mod Fit
pub mod Extract
use nvalloc.Prelude.{
  ℕ, zero, suc, ◌+◌, ◌-◌, ◌*◌, ◌/◌, ◌%◌, ◌^◌, Bool, true, false, not, ◌&&◌, Option, none, some,
  List, [], ◌∷◌, if◌then◌else◌, ltb, leb, ◌==◌, ◌>>=◌, ◌>>◌, assert, get_elem?, get_or, set,
  replicate, update,
}
use nvalloc.Word.{Word, width, all_zeros}
use nvalloc.Bitmap.{Bitmap, bitmap_ffu, bitmap_set_bits, bitmap_unset_bits}
use nvalloc.Machine.{page_size, u64_mod}
use nvalloc.SizeClass.Table.{max_psz_idx, get_psizeclass, npages_by_idx}
use nvalloc.Containers.{ExtentHeap, ExtentList}

-- `extent_state_t`
pub data ExtentState : Type 0 where
  active : ExtentState
  dirty : ExtentState
  muzzy : ExtentState

abbrev pub same_state : ExtentState → ExtentState → Bool
same_state active active = true
same_state dirty dirty = true
same_state muzzy muzzy = true
same_state a b = false

-- `extent_s`, but for the links of the containers that it is in
pub record Extent : Type 0 where
  pub e_addr : ℕ
  pub size : ℕ
  pub szind : ℕ
  pub state : ExtentState
  pub arena : ℕ
  pub slab : Bool
  pub log : ℕ

abbrev pub Store : Type 0
Store = ℕ → Extent

abbrev pub extent_state_set : Store → ℕ → ExtentState → Store
extent_state_set store e state = update store e (record (store e) { state = state })

-- The largest class that has no more pages than the extent. A `pszind_t` has 32 bits.
unfoldable pub get_psizeclass_floor : ℕ → Option ℕ
get_psizeclass_floor npages = do
  pind ← get_psizeclass npages
  ppind ← get_psizeclass (npages + 1)
  some (if pind == ppind then (pind + 2 ^ 32 - 1) % 2 ^ 32 else pind)

module _ (heap : ExtentHeap) (list : ExtentList) where
  -- `extents_s`, but for its mutex and its statistics
  pub record Extents : Type 0 where
    pub heaps : List heap.Heap
    pub bitmap : Bitmap
    pub lru : list.Ring
    pub npages : ℕ
    pub state : ExtentState
    pub delay_coalesce : Bool

  -- Marking class `MAX_PSZ_IDX` as not empty ends every search of the bitmap.
  unfoldable pub extents_init : ExtentState → Bool → Extents
  extents_init state delay_coalesce = record {
    heaps = replicate (max_psz_idx + 1) heap.new;
    bitmap = bitmap_unset_bits (all_zeros width ∷ []) max_psz_idx;
    lru = list.new;
    npages = 0;
    state = state;
    delay_coalesce = delay_coalesce;
  }

  -- the `for` of `extents_best_fit_locked`, at class `i`
  unfoldable pub best_fit_from : ℕ → Extents → ℕ → ℕ → Option ℕ → Option (Option ℕ)
  best_fit_from zero extents npages i ret = none
  best_fit_from (suc fuel) extents npages i ret =
      let next : Option (Option ℕ) = (do
        j ← bitmap_ffu (get_or extents.bitmap 0 []) (i + 1)
        best_fit_from fuel extents npages j ret) in
      let body : Option (Option ℕ) = (do
        h ← get_elem? extents.heaps i
        assert (not (heap.empty h))
        if extents.delay_coalesce && ltb (npages * 32) (npages_by_idx i)
            then some ret
            else elim ret [
              | none ↦ some (heap.first h)
              | some e ↦ (if i == max_psz_idx - 1 then some (some e) else next)
            ]) in
      if ltb i max_psz_idx then body else some ret

  unfoldable pub extents_best_fit_locked : Extents → ℕ → Option (Option ℕ)
  extents_best_fit_locked extents npages = do
    pind ← get_psizeclass npages
    i ← bitmap_ffu (get_or extents.bitmap 0 []) pind
    best_fit_from (max_psz_idx + 1) extents npages i none

  -- with `NVALLOC_BESTFIT`
  unfoldable pub extents_fit_locked : Extents → ℕ → Option (Option ℕ)
  extents_fit_locked extents npages = extents_best_fit_locked extents npages

  module _ (store : Store) (extents : Extents) (extent : ℕ) where
    unfoldable pub extents_insert_locked : Option Extents
    extents_insert_locked = do
      assert (same_state (store extent).state extents.state)
      assert (not (store extent).slab)
      let size = (store extent).size
      assert (not (size == 0))
      assert (size % page_size == 0)
      pind ← get_psizeclass_floor (size / page_size)
      h ← get_elem? extents.heaps pind
      let bitmap = if heap.empty h then bitmap_unset_bits extents.bitmap pind else extents.bitmap
      some (record extents {
        bitmap = bitmap;
        heaps = set extents.heaps pind (heap.insert (store extent).e_addr extent h);
        lru = list.append extent extents.lru;
        npages = (extents.npages + size / page_size) % u64_mod;
      })

    unfoldable pub extents_remove_locked : Option Extents
    extents_remove_locked = do
      assert (same_state (store extent).state extents.state)
      let size = (store extent).size
      pind ← get_psizeclass_floor (size / page_size)
      h ← get_elem? extents.heaps pind
      let h' = heap.remove extent h
      let bitmap = if heap.empty h' then bitmap_set_bits extents.bitmap pind else extents.bitmap
      some (record extents {
        heaps = set extents.heaps pind h';
        bitmap = bitmap;
        lru = list.remove extent extents.lru;
        npages = (extents.npages + u64_mod - size / page_size) % u64_mod;
      })

    -- `arena` is the one whose extents these are
    unfoldable pub extent_activate_locked : ℕ → Option (Store × Extents)
    extent_activate_locked arena = do
      assert ((store extent).arena == arena)
      assert (same_state (store extent).state extents.state)
      extents' ← extents_remove_locked
      some (extent_state_set store extent active, extents')

  unfoldable pub extent_deactivate_locked : Store → Extents → ℕ → ℕ → Option (Store × Extents)
  extent_deactivate_locked store extents extent arena = do
    assert ((store extent).arena == arena)
    assert (same_state (store extent).state active)
    let store' = extent_state_set store extent extents.state
    extents' ← extents_insert_locked store' extents extent
    some (store', extents')

  -- the extent that the best fit gives, taken out of those not in use
  unfoldable pub extent_recycle_extract :
      Store → Extents → ℕ → ℕ → Option (Option ℕ × Store × Extents)
  extent_recycle_extract store extents npages arena = do
    fit ← extents_fit_locked extents npages
    elim fit [
      | none ↦ some (none, store, extents)
      | some e ↦ extent_activate_locked store extents e arena >>= λ (s, x). some (some e, s, x)
    ]
