-- ===== src/Arena/Logged/Fresh.antt =====
-- `arena_slab_alloc` of an arena that keeps no extents: the pages of the slab come from its chunk.
use nvalloc.Prelude.{
  ℕ, ◌+◌, ◌-◌, ◌*◌, ◌/◌, ◌%◌, ◌<◌, ◌≤◌, ◌≡◌, ◌≢◌, refl, sym, ap, ◌∙◌, Bool, true, false, ◌||◌,
  Option, none, some, [], arith, if◌then◌else◌, ltb, ◌==◌, update, update_self, update_other,
}
use mathlib.Core.Path.{subst}
use nvalloc.Machine.{page_size, u64_mod}
use nvalloc.SizeClass.Table.{slab_scind, get_psizeclass, npages_by_idx}
use nvalloc.SizeClass.Pages.{most_pages}
use nvalloc.Log.{ChunkTree, VLog, append_log, normal_log, log_item, item_addr, null}
use nvalloc.Log.Inv
use nvalloc.Log.Add.{Added, append_log-adds}
use nvalloc.Containers.{ExtentHeap, ExtentList, ExtentTree}
use nvalloc.Extents.{Extent, ExtentState, Extents}
use nvalloc.Extents.Inv.{times, IsExtents}
use nvalloc.Extents.Extract.{IsExtracted, extent_recycle_extract-IsExtracted, IsExtents-update}
use nvalloc.Space.{Space, extent_init, inner_pages, extent_register}
use nvalloc.Space.Split.{HasRoom, at_end}
use nvalloc.Space.Register.{among}
use nvalloc.Space.RegisterSlab.{IsFresh, RegisteredSlab, extent_register-RegisteredSlab}
use nvalloc.Recycle.{World, extent_recycle, extents_alloc}
use nvalloc.Arena.{Arena, arena_activate_new_memory, extent_alloc_wrapper}
use nvalloc.Arena.Logged.{LoggedArena, slab_extent, arena_slab_alloc}

module _ {heap : ExtentHeap} {list : ExtentList} {tree : ExtentTree} where
  -- Nothing is found where no extent is kept.
  extents_alloc-none :
      (w : World heap list tree) (memory : Option ℕ) (arena vslab npages szind : ℕ) (slab : Bool)
      → IsExtents w.space.store w.extents
      → list.items w.extents.lru ≡ []
      → 0 < npages
      → npages ≤ most_pages
      → extents_alloc heap list tree w memory arena vslab npages slab szind ≡ some (none, w)
  unfolding extents_alloc extent_recycle
  extents_alloc-none w memory arena vslab npages szind slab is empty pos le =
      let none_listed : (e : ℕ) → times e (list.items w.extents.lru) ≡ 0 = λ e. rw empty refl in
      let asked : (npages == 0) ≡ false = ground (arith, pos) in
      elim (extent_recycle_extract-IsExtracted w.space.store w.extents arena is npages pos le
        (λ i e m. absurd (omega (arith, none_listed e, is.once i e m)))) [
          | IsExtracted.missing q b ↦ rw (asked, q) refl
          | IsExtracted.found i e store' x' q m enough ex ↦
              absurd (omega (arith, none_listed e, is.once i e m))
        ]

  -- Pages that are left of the chunk are taken from its front.
  activate_front :
      (a : Arena heap list tree) (memory : Option ℕ) (mapped npages : ℕ)
      → a.memory_new ≢ null
      → 0 < npages
      → npages ≤ a.npage_new
      → a.npage_new < u64_mod
      → arena_activate_new_memory heap list tree a memory mapped npages
        ≡ some (
          a.memory_new,
          record a {
            memory_new = a.memory_new + npages * page_size;
            npage_new = a.npage_new - npages;
          },
        )
  unfolding arena_activate_new_memory
  activate_front a memory mapped npages real pos enough fits =
      let asked : (npages == 0) ≡ false = ground (arith, pos) in
      let here : ltb a.npage_new npages ≡ false = ground (arith, enough) in
      let not_null : (a.memory_new == null) ≡ false = ground (arith, real) in
      let left : (a.npage_new + u64_mod - npages) % u64_mod ≡ a.npage_new - npages = omega arith in
      rw (asked, here, not_null, left) refl

-- an arena that keeps no extents and has memory for a slab of `size` bytes, and a log that has a slot;
-- `slab` is memory for the extent of it
pub record HasMemory {heap : ExtentHeap} {list : ExtentList} {tree : ExtentTree}
    {chunks : ChunkTree} (logged : LoggedArena heap list tree chunks) (slab k size vslab : ℕ)
    : Type 0 where
  pub dirty : IsExtents logged.arena.space.store logged.arena.extents_dirty
  pub no_dirty : list.items logged.arena.extents_dirty.lru ≡ []
  pub muzzy : IsExtents logged.arena.space.store logged.arena.extents_muzzy
  pub no_muzzy : list.items logged.arena.extents_muzzy.lru ≡ []
  pub mapped : logged.arena.memory_new ≢ null
  pub enough : size / page_size ≤ logged.arena.npage_new
  pub bounded : logged.arena.npage_new < u64_mod
  pub positive : 0 < size
  pub whole : size % page_size ≡ 0
  pub most : size / page_size ≤ most_pages
  pub class : get_psizeclass (size / page_size) ≡ some k
  pub exact : npages_by_idx k ≡ size / page_size
  pub real : vslab ≢ null
  pub free :
      (p : ℕ)
      → among (size / page_size - 2) (logged.arena.memory_new + page_size) p ≡ true
      → (tree.read logged.arena.space.rtree p).extent ≡ null

module _ {heap : ExtentHeap} {list : ExtentList} {tree : ExtentTree} {chunks : ChunkTree}
    (room : HasRoom tree) (logged : LoggedArena heap list tree chunks)
    (slab k size vslab mapped : ℕ) (memory_left : Option ℕ) where
  abbrev pub a : Arena heap list tree
  a = logged.arena

  -- the extent of the slab, but for its item
  abbrev pub made : Extent
  made =
      extent_init (a.space.store slab) a.self a.memory_new (size / page_size * page_size) true
        slab_scind ExtentState.active

  -- what the arena is when the slab was made, with `item` the one that records it
  pub record Made (item : ℕ) (l : LoggedArena heap list tree chunks) : Type 0 where
    pub extent : l.arena.space.store slab ≡ record made { log = item }
    pub others : (o : ℕ) → slab ≢ o → l.arena.space.store o ≡ a.space.store o
    pub front : l.arena.memory_new ≡ a.memory_new + size
    pub left : l.arena.npage_new + size / page_size ≡ a.npage_new
    pub dirty : IsExtents l.arena.space.store l.arena.extents_dirty
    pub muzzy : IsExtents l.arena.space.store l.arena.extents_muzzy
    pub read :
        (p : ℕ)
        → tree.read l.arena.space.rtree p ≡ (
            if at_end made p || among (inner_pages made) (made.e_addr + page_size) p
            then record { extent = vslab; szind = slab_scind; slab = true }
            else tree.read a.space.rtree p)

  module _ (is : HasMemory logged slab k size vslab) where
    abbrev pub with_made : Space tree
    with_made = record a.space { store = update a.space.store slab made }

    pub at_made : with_made.store slab ≡ made
    at_made = update_self a.space.store slab made

    pub same_size : size / page_size * page_size ≡ size
    same_size = omega (arith, is.whole)

    pub fresh : IsFresh tree room with_made slab vslab
    fresh = record {
      slab = ap Extent.slab at_made;
      active = ap Extent.state at_made;
      real = is.real;
      free = λ p page. is.free p (
          ap (λ n. among (n - 2) (a.memory_new + page_size) p) (omega arith)
          ∙ ap (λ e. among (inner_pages e) (e.e_addr + page_size) p) (sym at_made)
          ∙ page);
    }

    -- the arena behind the pages of the slab
    abbrev pub taken : Arena heap list tree
    taken = record a {
      memory_new = a.memory_new + size / page_size * page_size;
      npage_new = a.npage_new - size / page_size;
    }

    pub extent_result :
        (s : Space tree)
        → extent_register tree with_made slab vslab ≡ some (false, s)
        → slab_extent heap list tree chunks a (some slab) memory_left mapped size vslab
          ≡ some (some slab, record taken { space = s })
    unfolding slab_extent extent_alloc_wrapper
    extent_result s q =
        let pos : 0 < size / page_size = omega (arith, is.whole, is.positive) in
        let not_null : (a.memory_new == null) ≡ false = ground (arith, is.mapped) in
        rw
          (
            extents_alloc-none (record { space = a.space; extents = a.extents_dirty }) (some slab)
                a.self vslab (size / page_size) slab_scind true is.dirty is.no_dirty pos is.most,
            extents_alloc-none (record { space = a.space; extents = a.extents_muzzy }) (some slab)
                a.self vslab (size / page_size) slab_scind true is.muzzy is.no_muzzy pos is.most,
            activate_front a memory_left mapped (size / page_size) is.mapped pos is.enough
                is.bounded,
            q,
            not_null,
          )
          refl

    result_of :
        (s : Space tree)
        → RegisteredSlab tree room with_made slab vslab s
        → (item : ℕ) (log : VLog chunks)
        → append_log chunks logged.log normal_log a.memory_new (size / page_size * page_size) true
          ≡ some (item, log)
        → (l : LoggedArena heap list tree chunks) × (arena_slab_alloc heap list tree chunks logged
              (some slab)
              memory_left
              mapped
              size
              vslab
            ≡ some (some slab, l))
          × Made item l
          × (l.log ≡ log)
    unfolding arena_slab_alloc
    result_of s r item log q =
        let at_slab : s.store slab ≡ made = ap (λ f. f slab) r.store ∙ at_made in
        let whole : (size % page_size == 0) ≡ true = ground (arith, is.whole) in
        let exact : (npages_by_idx k == size / page_size) ≡ true = ground (arith, is.exact) in
        let sized : (size / page_size * page_size == size) ≡ true = ground (arith, same_size) in
        let not_null : (a.memory_new == null) ≡ false = ground (arith, is.mapped) in
        let logged_slab : Extent = record made { log = item } in
        let l : LoggedArena heap list tree chunks = record logged {
          arena = record taken { space = record s { store = update s.store slab logged_slab } };
          log = log;
        } in
        let kept : (x : Extents heap list)
            → IsExtents a.space.store x
            → list.items x.lru ≡ []
            → IsExtents l.arena.space.store x =
          λ x inv empty.
            let none_listed : times slab (list.items x.lru) ≡ 0 = rw empty refl in
            subst (λ f. IsExtents (update f slab logged_slab) x) (sym r.store)
              (IsExtents-update with_made.store x slab logged_slab
                (IsExtents-update a.space.store x slab made inv none_listed) none_listed) in
        (
          l,
          rw (whole, is.class, exact, extent_result s r.result, at_slab, sized, not_null, q) refl,
          record {
            extent = update_self s.store slab logged_slab;
            others = λ o ne.
                update_other s.store slab logged_slab o ne
                ∙ ap (λ f. f o) r.store
                ∙ update_other a.space.store slab made o ne;
            front = ap (λ n. a.memory_new + n) same_size;
            left = omega (arith, is.enough);
            dirty = kept a.extents_dirty is.dirty is.no_dirty;
            muzzy = kept a.extents_muzzy is.muzzy is.no_muzzy;
            read = λ p.
                r.read p
                ∙ ap
                    (λ e.
                      if at_end e p || among (inner_pages e) (e.e_addr + page_size) p
                      then record { extent = vslab; szind = e.szind; slab = true }
                      else tree.read a.space.rtree p)
                    at_made;
          },
          refl,
        )

    -- Where the arena keeps no extents, has the pages of a slab left of its chunk, of which no inner page
    -- leads anywhere, and there is memory for the extent, the tree and the log, whose invariant holds, and the
    -- slab is not null,
    -- allocating a slab whose size some class of pages has succeeds: its extent is the front of what was
    -- left, in use and of the size asked for, each page of it leads to the slab and no other page or
    -- extent changes, a new item of the log records its address and size, which the extent refers to, every
    -- other item stays as it was, and the invariants hold.
    pub arena_slab_alloc-Made :
        Inv.IsLog chunks logged.log
        → Inv.HasRoom chunks logged.log
        → (c i : ℕ) × (l : LoggedArena heap list tree chunks) × (arena_slab_alloc heap list tree
              chunks logged
              (some slab)
              memory_left
              mapped
              size
              vslab
            ≡ some (some slab, l))
          × Made (item_addr c i) l
          × Added chunks logged.log c i
              (log_item normal_log a.memory_new (size + 1))
              (λ b j. false)
              l.log
    arena_slab_alloc-Made log_is slot =
        let (s, r) = extent_register-RegisteredSlab tree room with_made slab vslab fresh in
        let (c, i, log, q, added) =
          append_log-adds chunks logged.log normal_log a.memory_new (size / page_size * page_size)
            true log_is slot refl in
        let (l, result, m, same) = result_of s r (item_addr c i) log q in
        (
          c,
          i,
          l,
          result,
          m,
          subst
              (λ n.
                Added chunks logged.log c i (log_item normal_log a.memory_new (n + 1))
                  (λ b j. false) l.log)
              same_size
              (subst
                (Added chunks logged.log c i
                  (log_item normal_log a.memory_new (size / page_size * page_size + 1))
                  (λ b j. false))
                (sym same) added),
        )
