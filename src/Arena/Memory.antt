-- ===== src/Arena/Memory.antt =====
-- New memory: what a call gets lies inside one chunk, behind all that was handed out from it before,
-- and what is left of the chunk before is kept as an extent where it has the pages of a class.
use nvalloc.Prelude.{
  ℕ, ◌+◌, ◌-◌, ◌*◌, ◌/◌, ◌%◌, ◌≤◌, ◌<◌, ◌≡◌, ◌≢◌, refl, ap, true, false, some, arith, if◌then◌else◌,
  ltb, lt→ltb, ◌==◌, update, update_self, inl, inr, ◌⊎◌,
}
use native.Mathlib.Decide.{dec_le, ℕ_discrete}
use nvalloc.Machine.{page_size, chunk_size, u64_mod}
use nvalloc.SizeClass.Table.{psizeclass_lookup, npages_by_idx}
use nvalloc.SizeClass.Pages.{IsClass, get_psizeclass-IsClass}
use nvalloc.Log.{null}
use nvalloc.Containers.{ExtentHeap, ExtentList, ExtentTree}
use nvalloc.Extents.{Extent, ExtentState, extent_state_set}
use nvalloc.Extents.Inv.{pages_of, times, IsExtents}
use nvalloc.Extents.Extract.{IsExtents-update, IsUnkept, extent_deactivate_locked-Inserted}
use nvalloc.Space.{Space, extent_init}
use nvalloc.Space.Split.{HasRoom}
use nvalloc.Space.Register.{extent_register-RegisteredPlain}
use nvalloc.Recycle.{extent_alloc_with_old_addr}
use nvalloc.Arena.{
  Arena, no_new_memory, arena_evict_new_memory_locked, arena_get_new_memory_locked,
  arena_activate_new_memory,
}

-- the pages of a chunk
abbrev pub chunk_pages : ℕ
chunk_pages = chunk_size / page_size

module _ {heap : ExtentHeap} {list : ExtentList} {tree : ExtentTree} where
  -- what is left of the chunk is there, and the dirty extents agree
  pub record IsArena (a : Arena heap list tree) : Type 0 where
    pub mapped : a.memory_new ≢ null
    pub within : a.npage_new ≤ chunk_pages
    pub dirty : IsExtents a.space.store a.extents_dirty

  module _ (a : Arena heap list tree) (t : ℕ) where
    pub record Evicted (a' : Arena heap list tree) : Type 0 where
      pub result : arena_evict_new_memory_locked heap list tree a (some t) ≡ some a'
      pub unmapped : a'.memory_new ≡ null
      pub empty : a'.npage_new ≡ 0
      pub dirty : IsExtents a'.space.store a'.extents_dirty
      pub kept :
          a'.extents_dirty.npages
          ≡ a.extents_dirty.npages
            + (if npages_by_idx (psizeclass_lookup a.npage_new) == a.npage_new
                then a.npage_new
                else 0)

    module _ (room : HasRoom tree) (is : IsArena a)
        (fresh : times t (list.items a.extents_dirty.lru) ≡ 0)
        (fits : a.extents_dirty.npages + chunk_pages < u64_mod) where
      mapped_ok : (a.memory_new == null) ≡ false
      mapped_ok = ground (arith, is.mapped)

      class : 0 < a.npage_new → IsClass a.npage_new (psizeclass_lookup a.npage_new)
      class pos = get_psizeclass-IsClass a.npage_new pos (omega (arith, is.within))

      -- the extent that is made of what is left
      abbrev rest_of : Extent
      rest_of =
          extent_init (a.space.store t) a.self a.memory_new (a.npage_new * page_size) false
            (psizeclass_lookup a.npage_new) ExtentState.active

      abbrev made_space : Space tree
      made_space = record a.space { store = update a.space.store t rest_of }

      at_t : update a.space.store t rest_of t ≡ rest_of
      at_t = update_self a.space.store t rest_of

      empty-Evicted : a.npage_new ≡ 0 → (a' : Arena heap list tree) × Evicted a'
      unfolding arena_evict_new_memory_locked
      empty-Evicted none_left = (
        no_new_memory heap list tree a,
        record {
          result = rw (mapped_ok, none_left);
          unmapped = refl;
          empty = refl;
          dirty = is.dirty;
          kept = ground (arith, none_left);
        },
      )

      odd-Evicted :
          0 < a.npage_new
          → npages_by_idx (psizeclass_lookup a.npage_new) ≢ a.npage_new
          → (a' : Arena heap list tree) × Evicted a'
      unfolding arena_evict_new_memory_locked
      odd-Evicted pos odd =
          let some_left : (a.npage_new == 0) ≡ false = ground (arith, pos) in
          let no_class : (npages_by_idx (psizeclass_lookup a.npage_new) == a.npage_new) ≡ false =
            ground (arith, odd) in
          let c = class pos in
          (
            no_new_memory heap list tree a,
            record {
              result = rw (mapped_ok, some_left, c.result, no_class);
              unmapped = refl;
              empty = refl;
              dirty = is.dirty;
              kept = rw no_class (omega arith);
            },
          )

      kept-Evicted :
          0 < a.npage_new
          → npages_by_idx (psizeclass_lookup a.npage_new) ≡ a.npage_new
          → (a' : Arena heap list tree) × Evicted a'
      unfolding arena_evict_new_memory_locked extent_alloc_with_old_addr
      kept-Evicted pos even =
          let some_left : (a.npage_new == 0) ≡ false = ground (arith, pos) in
          let is_class : (npages_by_idx (psizeclass_lookup a.npage_new) == a.npage_new) ≡ true =
            ground (arith, even) in
          let c = class pos in
          let (s, r) =
            extent_register-RegisteredPlain tree room made_space t (ap Extent.slab at_t) in
          let dirty_s : IsExtents s.store a.extents_dirty =
            rw r.store (IsExtents-update a.space.store a.extents_dirty t rest_of is.dirty fresh) in
          let at_s : s.store t ≡ rest_of = rw r.store at_t in
          let p_t : pages_of s.store t ≡ a.npage_new = rw at_s (omega arith) in
          let loose : IsUnkept s.store a.extents_dirty a.self t = record {
            own = ap Extent.arena at_s;
            active = ap Extent.state at_s;
            slab_not = ap Extent.slab at_s;
            size_pos = rw at_s (omega (arith, pos));
            size_whole = rw at_s (omega arith);
            not_large = omega (arith, p_t, is.within);
            absent = fresh;
            room = omega (arith, p_t, is.within, fits);
          } in
          let (i, y, q, ins) =
            extent_deactivate_locked-Inserted s.store a.extents_dirty a.self t dirty_s loose in
          let p_y : pages_of (extent_state_set s.store t a.extents_dirty.state) t
              ≡ pages_of s.store t =
            ap (λ k. k.size / page_size) (update_self s.store t _) in
          (
            no_new_memory heap list tree (record a {
              extents_dirty = y;
              space = record s { store = extent_state_set s.store t a.extents_dirty.state };
            }),
            record {
              result = rw (mapped_ok, some_left, c.result, is_class, r.result, q);
              unmapped = refl;
              empty = refl;
              dirty = ins.inv;
              kept = rw is_class (omega (arith, ins.pages, p_y, p_t));
            },
          )

      pub arena_evict_new_memory_locked-Evicted : (a' : Arena heap list tree) × Evicted a'
      arena_evict_new_memory_locked-Evicted = elim (ℕ_discrete a.npage_new 0) [
        | yes e ↦ empty-Evicted e
        | no ne ↦ elim (ℕ_discrete (npages_by_idx (psizeclass_lookup a.npage_new)) a.npage_new) [
          | yes even ↦ kept-Evicted (omega arith) even
          | no odd ↦ odd-Evicted (omega arith) odd
        ]
      ]

    -- `npages` pages at `addr`, from what was left of the chunk or else from the front of a new one
    pub record Activated (mapped npages addr : ℕ) (a' : Arena heap list tree) : Type 0 where
      pub result :
          arena_activate_new_memory heap list tree a (some t) mapped npages ≡ some (addr, a')
      pub place :
          ((addr ≡ a.memory_new) × (npages ≤ a.npage_new) × (a'.npage_new + npages ≡ a.npage_new))
          ⊎ ((addr ≡ mapped) × (a.npage_new < npages) × (a'.npage_new + npages ≡ chunk_pages))
      pub next : a'.memory_new ≡ addr + npages * page_size
      pub inv : IsArena a'

    -- For no more pages than a chunk has, an arena with memory left gives pages from the front
    -- of what is left of its chunk, or, where that is too little, from the front of a new
    -- chunk; in both cases the rest of the chunk stays behind them, and the invariant holds.
    -- `t` is memory for the extent of what was left, there is memory for the tree, and the
    -- count of pages does not overflow.
    pub arena_activate_new_memory-Activated :
        HasRoom tree
        → IsArena a
        → times t (list.items a.extents_dirty.lru) ≡ 0
        → a.extents_dirty.npages + chunk_pages < u64_mod
        → (mapped npages : ℕ) → mapped ≢ null
        → 0 < npages
        → npages ≤ chunk_pages
        → (addr : ℕ) × (a' : Arena heap list tree) × Activated mapped npages addr a'
    unfolding arena_activate_new_memory arena_get_new_memory_locked
    arena_activate_new_memory-Activated room is fresh fits mapped npages real pos le =
        let asked : (npages == 0) ≡ false = ground (arith, pos) in
        elim (dec_le npages a.npage_new) [
          | yes enough ↦
              let no_more : ltb a.npage_new npages ≡ false = ground (arith, enough) in
              let real_a : (a.memory_new == null) ≡ false = ground (arith, is.mapped) in
              (
                a.memory_new,
                record a {
                  memory_new = a.memory_new + npages * page_size;
                  npage_new = (a.npage_new + u64_mod - npages) % u64_mod;
                },
                record {
                  result = rw (asked, no_more, real_a);
                  place = inl (refl, enough, omega (arith, is.within));
                  next = refl;
                  inv = record {
                    mapped = λ e. is.mapped (omega arith);
                    within = omega (arith, is.within);
                    dirty = is.dirty;
                  };
                },
              )
          | no few ↦
              let more : ltb a.npage_new npages ≡ true = lt→ltb a.npage_new npages (omega arith) in
              let real_m : (mapped == null) ≡ false = ground (arith, real) in
              let (b, ev) = arena_evict_new_memory_locked-Evicted room is fresh fits in
              (
                mapped,
                record b {
                  memory_new = mapped + npages * page_size;
                  npage_new = (chunk_pages + u64_mod - npages) % u64_mod;
                },
                record {
                  result = rw (asked, more, ev.result, ev.unmapped, ev.empty, real_m, real_m);
                  place = inr (refl, omega arith, omega arith);
                  next = refl;
                  inv = record {
                    mapped = λ e. real (omega arith);
                    within = omega arith;
                    dirty = ev.dirty;
                  };
                },
              )
        ]
