-- ===== src/Recycle/Cut.antt =====
-- `extent_recycle_split` for an extent in use that is no slab: it is cut to the pages asked for, and
-- what is left of it goes to the others.
use nvalloc.Prelude.{
  [], ◌∷◌, ℕ, ◌+◌, ◌-◌, ◌*◌, ◌/◌, ◌≤◌, ◌<◌, ◌≡◌, ◌≢◌, refl, sym, ap, ◌∙◌, Bool, true, false, ◌||◌,
  some, arith, if◌then◌else◌, ◌==◌, leb, le→leb, update, update_other, update_self,
}
use native.Mathlib.Decide.{dec_le}
use nvalloc.Machine.{page_size}
use nvalloc.SizeClass.Table.{max_psz_idx}
use nvalloc.Log.{null}
use nvalloc.Containers.{ExtentHeap, ExtentList, ExtentTree}
use nvalloc.Extents.{Extent, ExtentState, same_state, extent_state_set}
use nvalloc.Extents.Inv.{pages_of, times, times-append, In, IsExtents}
use nvalloc.Extents.Extract.{IsExtents-update, IsUnkept, extent_deactivate_locked-Inserted}
use nvalloc.Space.{Space}
use nvalloc.Space.Split.{HasRoom, Halved, extent_split_impl-Halved, part_b}
use nvalloc.Recycle.{
  World, extent_at, rtree_szind_slab_update, extent_split_interior, extent_recycle_split,
}

if_some {ℓ} :
    {A : Type ℓ} (b : Bool) (x y : A) → (if b then some x else some y) ≡ some (if b then x else y)
if_some true x y = refl
if_some false x y = refl

or_true : (b : Bool) → (b || true) ≡ true
or_true true = refl
or_true false = refl

module _ {heap : ExtentHeap} {list : ExtentList} {tree : ExtentTree} (room : HasRoom tree)
    (w : World heap list tree) (t arena npages szind e : ℕ) where
  -- the extent `e`, which was in use, has `npages` pages now, and the rest of it is among those not
  -- in use
  pub record Trimmed (w' : World heap list tree) : Type 0 where
    pub result :
        extent_recycle_split heap list tree w (some t) arena null npages false szind e ≡ some w'
    pub exact : (extent_at heap list tree w' e).size ≡ npages * page_size
    pub addr : (extent_at heap list tree w' e).e_addr ≡ (extent_at heap list tree w e).e_addr
    pub class : (extent_at heap list tree w' e).szind ≡ szind
    pub active : (extent_at heap list tree w' e).state ≡ ExtentState.active
    pub inv : IsExtents w'.space.store w'.extents
    pub gone : times e (list.items w'.extents.lru) ≡ 0
    pub pages : w'.extents.npages + npages ≡ w.extents.npages + pages_of w.space.store e
    pub rest :
        npages < pages_of w.space.store e
        → (i : ℕ) × In w'.extents i t
          × ((extent_at heap list tree w' t).e_addr
              ≡ (extent_at heap list tree w e).e_addr + npages * page_size)
          × (pages_of w'.space.store t + npages ≡ pages_of w.space.store e)

  module _ (pos : 0 < npages) (le : npages ≤ pages_of w.space.store e)
      (is : IsExtents w.space.store w.extents) (loose : IsUnkept w.space.store w.extents arena e)
      (fresh : times t (list.items w.extents.lru) ≡ 0) (ne : e ≢ t) where
    abbrev old : Extent
    old = w.space.store e

    fits : leb (npages * page_size) old.size ≡ true
    fits = le→leb (npages * page_size) old.size (omega (arith, loose.size_whole))

    whole-Trimmed : pages_of w.space.store e ≡ npages → (w' : World heap list tree) × Trimmed w'
    unfolding extent_recycle_split extent_split_interior rtree_szind_slab_update
    whole-Trimmed same =
        let size_is : old.size ≡ npages * page_size = omega (arith, loose.size_whole) in
        let nothing : (old.size - npages * page_size == 0) ≡ true = ground (arith, size_is) in
        let in_use : (szind == max_psz_idx || same_state old.state ExtentState.active) ≡ true =
          rw loose.active (or_true (szind == max_psz_idx)) in
        let set_e = update_self w.space.store e (record old { szind = szind }) in
        let updated =
          tree.write w.space.rtree old.e_addr
            (record (tree.read w.space.rtree old.e_addr) { szind = szind; slab = false }) in
        let left : Space tree = record {
          store = update w.space.store e (record old { szind = szind });
          rtree = if szind == max_psz_idx then w.space.rtree else updated;
        } in
        (
          record { space = left; extents = w.extents },
          record {
            result =
                rw (fits, nothing, in_use, if_some (szind == max_psz_idx) w.space.rtree updated);
            exact = ap Extent.size set_e ∙ size_is;
            addr = ap Extent.e_addr set_e;
            class = ap Extent.szind set_e;
            active = ap Extent.state set_e ∙ loose.active;
            inv = IsExtents-update w.space.store w.extents e _ is loose.absent;
            gone = loose.absent;
            pages = omega (arith, same);
            rest = λ lt. absurd (omega (arith, same));
          },
        )

    -- what `extent_split_impl` leaves
    module _ (lt : npages < pages_of w.space.store e) (s : Space tree)
        (split : Halved tree w.space t arena e
          (npages * page_size)
          szind
          false
          (old.size - npages * page_size)
          max_psz_idx
          false
          null
          null
          s) where
      abbrev rest_of : Extent
      rest_of =
          part_b tree w.space t arena e (npages * page_size) szind false
            (old.size - npages * page_size) max_psz_idx false null null

      at_e : s.store e ≡ record old { size = npages * page_size; szind = szind }
      at_e = rw split.store (update_self (update w.space.store t rest_of) e _)

      at_t : s.store t ≡ rest_of
      at_t = rw split.store (
          update_other (update w.space.store t rest_of) e _ t ne
          ∙ update_self w.space.store t rest_of)

      is_after : IsExtents s.store w.extents
      is_after = rw split.store (
          IsExtents-update (update w.space.store t rest_of) w.extents e _
            (IsExtents-update w.space.store w.extents t rest_of is fresh) loose.absent)

      pages_t : pages_of s.store t + npages ≡ pages_of w.space.store e
      pages_t = rw at_t (omega (arith, loose.size_whole))

      loose_t : IsUnkept s.store w.extents arena t
      loose_t = record {
        own = ap Extent.arena at_t;
        active = ap Extent.state at_t ∙ loose.active;
        slab_not = ap Extent.slab at_t;
        size_pos = rw at_t (omega (arith, loose.size_whole));
        size_whole = rw at_t (omega (arith, loose.size_whole));
        not_large = omega (arith, pages_t, loose.not_large);
        absent = fresh;
        room = omega (arith, pages_t, loose.room);
      }

    cut-Trimmed : npages < pages_of w.space.store e → (w' : World heap list tree) × Trimmed w'
    unfolding extent_recycle_split extent_split_interior
    cut-Trimmed lt =
        let (s, split) =
          extent_split_impl-Halved tree w.space t arena e (npages * page_size) szind false
            (old.size - npages * page_size) max_psz_idx false null null room
            (omega (arith, loose.size_whole)) refl refl in
        let (i, y, q, ins) =
          extent_deactivate_locked-Inserted s.store w.extents arena t (is_after lt s split)
            (loose_t lt s split) in
        let some_left : (old.size - npages * page_size == 0) ≡ false =
          ground (arith, loose.size_whole) in
        let keep_e : extent_state_set s.store t w.extents.state e
            ≡ record old { size = npages * page_size; szind = szind } =
          update_other s.store t _ e (λ same. ne (sym same)) ∙ at_e lt s split in
        let keep_t : extent_state_set s.store t w.extents.state t
            ≡ record (s.store t) { state = w.extents.state } =
          update_self s.store t (record (s.store t) { state = w.extents.state }) in
        let left : Space tree = record s { store = extent_state_set s.store t w.extents.state } in
        let p_t : pages_of left.store t ≡ pages_of s.store t =
          ap (λ k. k.size / page_size) keep_t in
        (
          record { space = left; extents = y },
          record {
            result = rw (fits, some_left, split.result, q);
            exact = ap Extent.size keep_e;
            addr = ap Extent.e_addr keep_e;
            class = ap Extent.szind keep_e;
            active = ap Extent.state keep_e ∙ loose.active;
            inv = ins.inv;
            gone = rw ins.last (
                ground
                  (arith, ne, loose.absent, times-append e (list.items w.extents.lru) (t ∷ [])));
            pages = omega (arith, ins.pages, p_t, pages_t lt s split);
            rest = λ _. (
              i,
              ins.added,
              ap Extent.e_addr keep_t ∙ ap Extent.e_addr (at_t lt s split),
              omega (arith, p_t, pages_t lt s split),
            );
          },
        )

    pub recycle_split-Trimmed : (w' : World heap list tree) × Trimmed w'
    recycle_split-Trimmed = elim (dec_le (pages_of w.space.store e) npages) [
      | yes ge ↦ whole-Trimmed (omega arith)
      | no gt ↦ cut-Trimmed (omega arith)
    ]
