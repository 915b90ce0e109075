-- ===== src/Recycle/Loose.antt =====
-- The steps of `extents_dalloc` of a slab before its extent is kept: it is taken out of the tree, and its
-- neighbours are left alone.
use nvalloc.Prelude.{
  ℕ, suc, ◌+◌, ◌/◌, ◌%◌, ◌<◌, ◌≤◌, ◌≡◌, refl, sym, ap, ap₂, ◌∙◌, Bool, true, false, ◌⊎◌, inl, inr,
  Bool-cases, some, arith, ◌==◌, update, update_ap, update_self,
}
use mathlib.Core.Path.{subst}
use nvalloc.Machine.{page_size, u64_mod}
use nvalloc.SizeClass.Table.{max_psz_idx}
use nvalloc.SizeClass.Pages.{most_pages}
use nvalloc.Log.{null}
use nvalloc.Containers.{ExtentHeap, ExtentList, ExtentTree}
use nvalloc.Extents.{
  Extent, ExtentState, Extents, same_state, extent_state_set, extent_deactivate_locked,
}
use nvalloc.Extents.Inv.{pages_of, times, IsExtents}
use nvalloc.Extents.Extract.{IsUnkept, IsExtents-update}
use nvalloc.Space.{
  Space, inner_pages, leaf_elms_found, extent_past_get, extent_before_get, extent_last_get,
}
use nvalloc.Space.Split.{at_end}
use nvalloc.Space.Register.{among, among-le}
use nvalloc.Space.Deregister.{among-lt, Leads, IsListed, Deregistered}
use nvalloc.Recycle.{World}
use nvalloc.Recycle.Coalesce.{extent_lock_from_addr, coalesce_large, extent_record, extents_dalloc}
use nvalloc.Recycle.Oldest.{joins, try_coalesce-apart}

abbrev without_slab : Extent → Extent
without_slab extent = record extent { slab = false }

-- a page outside an extent is none of its pages
pub outside :
    (e : Extent) (p : ℕ)
    → 0 < e.size
    → e.size % page_size ≡ 0
    → ((p < e.e_addr) ⊎ (e.e_addr + e.size ≤ p))
    → (at_end e p ≡ false) × (among (inner_pages e) (e.e_addr + page_size) p ≡ false)
outside e p pos whole out =
    let first : (e.e_addr == p) ≡ false = ground (arith, pos, out) in
    let last : (extent_last_get e == p) ≡ false = ground (arith, pos, whole, out) in
    (
      rw (first, last) refl,
      elim (Bool-cases (among (inner_pages e) (e.e_addr + page_size) p)) [
        | inr no_page ↦ no_page
        | inl page ↦
            let le = among-le (inner_pages e) (e.e_addr + page_size) p page in
            let lt = among-lt (inner_pages e) (e.e_addr + page_size) p page in
            absurd (elim out [ inl below ↦ omega arith | inr above ↦ omega (arith, pos, whole) ])
      ],
    )

module _ {heap : ExtentHeap} {list : ExtentList} {tree : ExtentTree} (w : World heap list tree)
    (arena e : ℕ) where
  abbrev old : Extent
  old = w.space.store e

  -- a slab in use, whose neighbours cannot be merged with it; `extents` are dirty and merged late
  pub record IsSlab : Type 0 where
    pub is : IsExtents w.space.store w.extents
    pub dirty : w.extents.state ≡ ExtentState.dirty
    pub delayed : w.extents.delay_coalesce ≡ true
    pub listed : IsListed tree w.space e
    pub own : old.arena ≡ arena
    pub active : old.state ≡ ExtentState.active
    pub real : page_size ≤ old.e_addr
    pub size_pos : 0 < old.size
    pub size_whole : old.size % page_size ≡ 0
    pub not_large : pages_of w.space.store e ≤ most_pages
    pub absent : times e (list.items w.extents.lru) ≡ 0
    pub room : w.extents.npages + pages_of w.space.store e < u64_mod
    pub past :
        joins w arena
          (extent_lock_from_addr heap list tree w.space.rtree (extent_past_get old) true)
        ≡ false
    pub before :
        joins w arena
          (extent_lock_from_addr heap list tree w.space.rtree (extent_before_get old) true)
        ≡ false

  module _ (slab : IsSlab) where
    -- the memory when the class was taken away
    abbrev pub reset : Space tree
    reset = record w.space { store = update w.space.store e (record old { szind = max_psz_idx }) }

    pub at_reset : reset.store e ≡ record old { szind = max_psz_idx }
    at_reset = update_self w.space.store e _

    pub reset-IsListed : IsListed tree reset e
    reset-IsListed = record {
      slab = ap Extent.slab at_reset ∙ slab.listed.slab;
      ends = ap (leaf_elms_found tree w.space.rtree) at_reset ∙ slab.listed.ends;
      inner =
          subst (λ v. Leads tree w.space.rtree (inner_pages v) (v.e_addr + page_size))
            (sym at_reset) slab.listed.inner;
    }

    -- the tree without the slab
    module _ (s : Space tree) (d : Deregistered tree reset e s) where
      abbrev pub given : World heap list tree
      given = record {
        space = record s { store = update s.store e (record (s.store e) { slab = false }) };
        extents = record w.extents { state = ExtentState.dirty; delay_coalesce = true };
      }

      abbrev loose_slab : Extent
      loose_slab = record old { szind = max_psz_idx; slab = false }

      pub at_given : given.space.store e ≡ loose_slab
      at_given = update_self s.store e _ ∙ ap without_slab (ap (λ f. f e) d.store ∙ at_reset)

      pub read_end :
          (p : ℕ)
          → at_end old p ≡ true
          → tree.read s.rtree p ≡ record { extent = e; szind = max_psz_idx; slab = true }
      read_end p here =
          let here' : at_end (reset.store e) p ≡ true = ap (λ v. at_end v p) at_reset ∙ here in
          d.read p
          ∙ rw here' (ap (λ v. record { extent = e; szind = v.szind; slab = true }) at_reset)

      lock_outside :
          (p : ℕ)
          → ((p < old.e_addr) ⊎ (old.e_addr + old.size ≤ p))
          → extent_lock_from_addr heap list tree s.rtree p true
            ≡ extent_lock_from_addr heap list tree w.space.rtree p true
      unfolding extent_lock_from_addr
      lock_outside p out =
          let (no_end, no_page) = outside old p slab.size_pos slab.size_whole out in
          let no_end' : at_end (reset.store e) p ≡ false = ap (λ v. at_end v p) at_reset ∙ no_end in
          let no_page' : among (inner_pages (reset.store e)) ((reset.store e).e_addr + page_size) p
              ≡ false =
            ap (λ v. among (inner_pages v) (v.e_addr + page_size) p) at_reset ∙ no_page in
          let same : tree.read s.rtree p ≡ tree.read w.space.rtree p =
            d.read p ∙ rw (no_end', no_page') refl in
          rw (same, d.found p) refl

      same_joins : (o : ℕ) → joins given arena o ≡ joins w arena o
      same_joins o =
          let same_arena : (given.space.store o).arena ≡ (w.space.store o).arena =
            update_ap Extent.arena s.store e _ o refl
            ∙ ap (λ f. Extent.arena (f o)) d.store
            ∙ update_ap Extent.arena w.space.store e _ o refl in
          let same_state_of : (given.space.store o).state ≡ (w.space.store o).state =
            update_ap Extent.state s.store e _ o refl
            ∙ ap (λ f. Extent.state (f o)) d.store
            ∙ update_ap Extent.state w.space.store e _ o refl in
          rw (same_arena, same_state_of, slab.dirty) refl

      apart :
          (get : Extent → ℕ)
          → get loose_slab ≡ get old
          → ((get old < old.e_addr) ⊎ (old.e_addr + old.size ≤ get old))
          → joins w arena (extent_lock_from_addr heap list tree w.space.rtree (get old) true)
            ≡ false
          → joins given arena
              (extent_lock_from_addr heap list tree s.rtree (get (given.space.store e)) true)
            ≡ false
      apart get same out alone =
          same_joins _
          ∙ ap (λ p. joins w arena (extent_lock_from_addr heap list tree s.rtree p true))
              (ap get at_given ∙ same)
          ∙ ap (joins w arena) (lock_outside (get old) out)
          ∙ alone

      same_extents : IsExtents w.space.store given.extents
      same_extents =
          subst
            (λ k. IsExtents w.space.store (record w.extents { state = k.0; delay_coalesce = k.1 }))
            (ap₂ both slab.dirty slab.delayed) slab.is
        where
          both : ExtentState → Bool → ExtentState × Bool
          both state delay = (state, delay)

      pub given-IsExtents : IsExtents given.space.store given.extents
      given-IsExtents =
          subst (λ f. IsExtents (update f e (record (f e) { slab = false })) given.extents)
            (sym d.store)
            (IsExtents-update reset.store given.extents e _
              (IsExtents-update w.space.store given.extents e _ same_extents slab.absent)
              slab.absent)

      pub pages_given : pages_of given.space.store e ≡ pages_of w.space.store e
      pages_given = ap (λ v. v.size / page_size) at_given

      pub loose : IsUnkept given.space.store given.extents arena e
      loose = record {
        own = ap Extent.arena at_given ∙ slab.own;
        active = ap Extent.state at_given ∙ slab.active;
        slab_not = ap Extent.slab at_given;
        size_pos = rw at_given slab.size_pos;
        size_whole = rw at_given slab.size_whole;
        not_large = omega (arith, pages_given, slab.not_large);
        absent = slab.absent;
        room = omega (arith, pages_given, slab.room);
      }

      alone :
          (fuel : ℕ)
          → coalesce_large heap list tree (suc fuel) (suc fuel) given arena e ≡ some (e, given)
      unfolding coalesce_large
      alone fuel =
          let active : same_state (given.space.store e).state ExtentState.active ≡ true =
            rw (loose.active) refl in
          rw
            (
              active,
              try_coalesce-apart fuel given arena e true loose.own loose.active
                  (apart extent_past_get refl (inr (omega arith)) slab.past)
                  (apart extent_before_get refl (inl (omega (arith, slab.real))) slab.before),
            )
            refl

      leads : ((tree.read s.rtree old.e_addr).extent == e) ≡ true
      leads = rw (read_end old.e_addr (ground arith)) (ground arith)

      pub recorded :
          (fuel : ℕ) (y : Extents heap list)
          → extent_deactivate_locked heap list given.space.store given.extents e arena
            ≡ some (extent_state_set given.space.store e ExtentState.dirty, y)
          → extents_dalloc heap list tree (suc fuel) w arena e
            ≡ some (record {
              space = record s { store = extent_state_set given.space.store e ExtentState.dirty };
              extents = y;
            })
      unfolding extents_dalloc extent_record
      recorded fuel y q =
          let not_null : (old.e_addr == null) ≡ false = ground (arith, slab.real) in
          let not_empty : (old.size == 0) ≡ false = ground (arith, slab.size_pos) in
          let not_muzzy : same_state w.extents.state ExtentState.muzzy ≡ false =
            rw slab.dirty refl in
          rw
            (
              not_null,
              not_empty,
              not_muzzy,
              d.result,
              slab.listed.slab,
              leads,
              slab.delayed,
              alone fuel,
              q,
            )
            refl
