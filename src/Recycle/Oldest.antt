-- ===== src/Recycle/Oldest.antt =====
-- `extents_evict` with delayed merging, for extents that cannot be merged with their neighbours: the
-- oldest one is taken.
use nvalloc.Prelude.{
  ℕ, suc, ◌+◌, ◌≡◌, refl, sym, ap, ◌∙◌, inl, inr, Bool, true, false, not, ◌&&◌, some, Option, arith,
  leb, ◌==◌, Bool-cases, update, update_ap, update_self, update_other,
}
use mathlib.Core.Path.{fun_ext, subst}
use native.Mathlib.Decide.{ℕ_discrete}
use nvalloc.Log.{null}
use nvalloc.Containers.{ExtentHeap, ExtentList, ExtentTree, delete}
use nvalloc.Extents.{Extent, ExtentState, Extents, same_state}
use nvalloc.Extents.Inv.{pages_of, In, In-IsNearest, IsExtents}
use nvalloc.Extents.Remove.{Removed, extents_remove_locked-Removed}
use nvalloc.Extents.Extract.{IsExtents-update}
use nvalloc.Space.{extent_past_get, extent_before_get}
use nvalloc.Recycle.{World, write_extent}
use nvalloc.Recycle.Coalesce.{
  extent_lock_from_addr, extent_can_coalesce, join, extent_try_coalesce_impl,
}
use nvalloc.Recycle.Evict.{extent_try_delayed_coalesce, evicted, evict_delayed, extents_evict}

module _ {heap : ExtentHeap} {list : ExtentList} {tree : ExtentTree} where
  -- an extent that may be merged with an active one of the arena
  abbrev pub joins : World heap list tree → ℕ → ℕ → Bool
  joins w arena o =
      not (o == null)
      && (((w.space.store o).arena == arena) && same_state (w.space.store o).state w.extents.state)

  -- neither neighbour of `e` can be merged with it
  pub record IsSingle (w : World heap list tree) (arena e : ℕ) : Type 0 where
    pub past :
        joins w arena (
          extent_lock_from_addr heap list tree w.space.rtree
            (extent_past_get (w.space.store e))
            false)
        ≡ false
    pub before :
        joins w arena (
          extent_lock_from_addr heap list tree w.space.rtree
            (extent_before_get (w.space.store e))
            false)
        ≡ false

  join-none :
      (w : World heap list tree) (arena inner outer : ℕ) (forward : Bool)
      → (w.space.store inner).arena ≡ arena
      → (w.space.store inner).state ≡ ExtentState.active
      → joins w arena outer ≡ false
      → join heap list tree w arena inner outer forward ≡ some (false, w)
  unfolding join extent_can_coalesce
  join-none w arena inner outer forward own active apart =
      let own_ok : ((w.space.store inner).arena == arena) ≡ true = ground (arith, own) in
      let state_ok : same_state (w.space.store inner).state ExtentState.active ≡ true =
        rw active refl in
      elim (Bool-cases (outer == null)) [
        | inl e ↦ rw e refl
        | inr e ↦ elim (Bool-cases ((w.space.store outer).arena == arena)) [
          | inl q ↦
              let other : same_state (w.space.store outer).state w.extents.state ≡ false =
                ground (arith, apart, e, q) in
              rw (e, own_ok, q, state_ok, other) refl
          | inr q ↦ rw (e, own_ok, q) refl
        ]
      ]

  -- An active extent without such neighbours is left alone.
  pub try_coalesce-apart :
      (fuel : ℕ) (w : World heap list tree) (arena e : ℕ) (inactive_only : Bool)
      → (w.space.store e).arena ≡ arena
      → (w.space.store e).state ≡ ExtentState.active
      → joins w arena (
          extent_lock_from_addr heap list tree w.space.rtree
            (extent_past_get (w.space.store e))
            inactive_only)
        ≡ false
      → joins w arena (
          extent_lock_from_addr heap list tree w.space.rtree
            (extent_before_get (w.space.store e))
            inactive_only)
        ≡ false
      → extent_try_coalesce_impl heap list tree (suc fuel) w arena e inactive_only
        ≡ some (false, e, w)
  unfolding extent_try_coalesce_impl
  try_coalesce-apart fuel w arena e inactive_only own active past before =
      rw (join-none w arena e _ true own active past, join-none w arena e _ false own active before)
        refl

  try_coalesce-none :
      (fuel : ℕ) (w : World heap list tree) (arena e : ℕ)
      → (w.space.store e).arena ≡ arena
      → (w.space.store e).state ≡ ExtentState.active
      → IsSingle w arena e
      → extent_try_coalesce_impl heap list tree (suc fuel) w arena e false ≡ some (false, e, w)
  try_coalesce-none fuel w arena e own active single =
      try_coalesce-apart fuel w arena e false own active single.past single.before

  -- What neighbours the extents have depends on where they lie alone, and none that is not of the
  -- state can be merged: so extents stay single when one gets another state.
  module _ (w : World heap list tree) (arena e : ℕ) (state : ExtentState) (x : Extents heap list)
      (same : x.state ≡ w.extents.state) (other : same_state state x.state ≡ false) where
    abbrev changed : World heap list tree
    changed = record {
      space = record w.space {
        store = update w.space.store e (record (w.space.store e) { state = state });
      };
      extents = x;
    }

    joins-changed : (o : ℕ) → joins w arena o ≡ false → joins changed arena o ≡ false
    joins-changed o apart = elim (Bool-cases (e == o)) [
      | inl q ↦ rw (q, other) (and_false (not (o == null)) ((w.space.store e).arena == arena))
      | inr q ↦ rw (q, same) apart
    ]
      where
        and_false : (a b : Bool) → (a && (b && false)) ≡ false
        and_false true true = refl
        and_false true false = refl
        and_false false b = refl

    pub IsSingle-changed : (o : ℕ) → IsSingle w arena o → IsSingle changed arena o
    IsSingle-changed o single =
        let v : Extent = record (w.space.store e) { state = state } in
        let lock = extent_lock_from_addr heap list tree w.space.rtree in
        record {
          past =
              ap (λ a. joins changed arena (lock a false))
                (update_ap extent_past_get w.space.store e v o refl)
              ∙ joins-changed _ single.past;
          before =
              ap (λ a. joins changed arena (lock a false))
                (update_ap extent_before_get w.space.store e v o refl)
              ∙ joins-changed _ single.before;
        }

  -- what taking the extent `e` does
  pub record Evicted (rounds fuel : ℕ) (w : World heap list tree) (memory_b memory_c : Option ℕ)
      (arena npages_min e : ℕ) (w' : World heap list tree) : Type 0 where
    pub result :
        extents_evict heap list tree rounds fuel w memory_b memory_c arena npages_min
        ≡ some (some e, w')
    pub store :
        (o : ℕ)
        → w'.space.store o
          ≡ update w.space.store e (record (w.space.store e) { state = ExtentState.active }) o
    pub inv : IsExtents w'.space.store w'.extents
    pub others : (j o : ℕ) → In w'.extents j o → In w.extents j o
    pub rest : list.items w'.extents.lru ≡ delete e (list.items w.extents.lru)
    pub pages : w'.extents.npages + pages_of w.space.store e ≡ w.extents.npages
    pub same_state : w'.extents.state ≡ w.extents.state
    pub same_delay : w'.extents.delay_coalesce ≡ w.extents.delay_coalesce
    pub single : (o : ℕ) → IsSingle w arena o → IsSingle w' arena o

  module _ (w : World heap list tree) (arena i e : ℕ) (is : IsExtents w.space.store w.extents)
      (dirty : w.extents.state ≡ ExtentState.dirty) (delayed : w.extents.delay_coalesce ≡ true)
      (m : In w.extents i e) (own : (w.space.store e).arena ≡ arena) (single : IsSingle w arena e)
      (x' : Extents heap list) (r : Removed w.space.store w.extents e i x') where
    abbrev active_e : Extent
    active_e = record (w.space.store e) { state = ExtentState.active }

    abbrev removed : World heap list tree
    removed = record w { extents = x' }

    abbrev first : World heap list tree
    first = write_extent heap list tree removed e active_e

    at_first : first.space.store e ≡ active_e
    at_first = update_self w.space.store e active_e

    not_dirty : same_state ExtentState.active x'.state ≡ false
    not_dirty = rw (r.state, dirty) refl

    first_alone :
        (fuel : ℕ)
        → extent_try_coalesce_impl heap list tree (suc fuel) first arena e false
          ≡ some (false, e, first)
    first_alone fuel =
        try_coalesce-none fuel first arena e (ap Extent.arena at_first ∙ own)
          (ap Extent.state at_first)
          (IsSingle-changed w arena e ExtentState.active x' r.state not_dirty e single)

    abbrev second : World heap list tree
    second = write_extent heap list tree first e (record (first.space.store e) { state = x'.state })

    abbrev third : World heap list tree
    third =
        write_extent heap list tree second e
          (record (second.space.store e) { state = ExtentState.active })

    delayed_alone :
        (fuel : ℕ)
        → extent_try_delayed_coalesce heap list tree (suc fuel) removed arena e
          ≡ some (true, second)
    unfolding extent_try_delayed_coalesce
    delayed_alone fuel = rw (first_alone fuel) refl

    oldest_after : evicted heap list tree second e ≡ some (some e, third)
    unfolding evicted
    oldest_after =
        let dirty_now : same_state x'.state ExtentState.active ≡ false = rw (r.state, dirty) refl in
        rw dirty_now refl

    at_third : third.space.store e ≡ active_e
    at_third =
        update_self second.space.store e _
        ∙ ap (λ (v : Extent). record v { state = ExtentState.active })
            (update_self first.space.store e _
              ∙ ap (λ (v : Extent). record v { state = x'.state }) at_first)

    store_third : (o : ℕ) → third.space.store o ≡ update w.space.store e active_e o
    store_third o = elim (ℕ_discrete e o) [
      | yes q ↦ rw (← q) (at_third ∙ sym at_first)
      | no ne ↦ update_other second.space.store e _ o ne ∙ update_other first.space.store e _ o ne
    ]

    inv_third : IsExtents third.space.store x'
    inv_third =
        IsExtents-update second.space.store x' e _
          (IsExtents-update first.space.store x' e _
            (IsExtents-update w.space.store x' e active_e r.inv r.gone) r.gone)
          r.gone

    evict_result :
        (rounds fuel npages_min : ℕ)
        → list.first w.extents.lru ≡ some e
        → leb w.extents.npages npages_min ≡ false
        → evict_delayed heap list tree (suc rounds) (suc fuel) w arena npages_min
          ≡ some (some e, third)
    unfolding evict_delayed
    evict_result rounds fuel npages_min oldest many =
        rw (oldest, many, r.result, delayed_alone fuel, oldest_after, evict_delayed) refl

    third-Evicted :
        (rounds fuel npages_min : ℕ) (memory_b memory_c : Option ℕ)
        → list.first w.extents.lru ≡ some e
        → leb w.extents.npages npages_min ≡ false
        → Evicted (suc rounds) (suc fuel) w memory_b memory_c arena npages_min e third
    unfolding extents_evict
    third-Evicted rounds fuel npages_min memory_b memory_c oldest many = record {
      result = simp delayed (evict_result rounds fuel npages_min oldest many);
      store = store_third;
      inv = inv_third;
      others = λ j o k. (r.no_more j o k).1;
      rest = r.rest;
      pages = r.pages;
      same_state = r.state;
      same_delay = r.delay;
      single = λ o alone.
          subst (λ f. IsSingle (record removed { space = record w.space { store = f } }) arena o)
            (sym (fun_ext store_third))
            (IsSingle-changed w arena e ExtentState.active x' r.state not_dirty o alone);
    }

  -- When there are more dirty pages than may stay and no extent can be merged with the oldest one, that
  -- one is taken: it is in use and no other extent changes.
  pub extents_evict-Evicted :
      (rounds fuel : ℕ) (w : World heap list tree) (memory_b memory_c : Option ℕ)
      (arena npages_min i e : ℕ)
      → IsExtents w.space.store w.extents
      → w.extents.state ≡ ExtentState.dirty
      → w.extents.delay_coalesce ≡ true
      → In w.extents i e
      → (w.space.store e).arena ≡ arena
      → IsSingle w arena e
      → list.first w.extents.lru ≡ some e
      → leb w.extents.npages npages_min ≡ false
      → (w' : World heap list tree) × Evicted
          (suc rounds)
          (suc fuel)
          w
          memory_b
          memory_c
          arena
          npages_min
          e
          w'
  extents_evict-Evicted rounds fuel w memory_b memory_c arena npages_min i e is dirty delayed m own
        single oldest many =
      let (_, f) = In-IsNearest w.space.store w.extents is i e m in
      let (x', r) =
        extents_remove_locked-Removed w.space.store w.extents e i is m (omega (arith, f.last)) in
      (
        _,
        third-Evicted w arena i e is dirty delayed m own single x' r rounds fuel npages_min memory_b
            memory_c oldest many,
      )
