-- ===== src/Arena/Purge/Stash.antt =====
-- `arena_stash_decayed`: the oldest dirty extents are taken until no more pages are left than may stay.
use mathlib.Core.List.{append-nil, append_assoc}
use nvalloc.Prelude.{
  ℕ, zero, suc, ◌+◌, ◌<◌, ◌≤◌, ◌≡◌, ◌⊎◌, inl, inr, refl, sym, ap, ◌∙◌, true, false, none, some,
  List, [], ◌∷◌, ◌++◌, arith, length, ltb, leb, leb→le, get_elem?, Bool-cases, update_ap, Option,
}
use nvalloc.Containers.{ExtentHeap, ExtentList, ExtentTree, delete}
use nvalloc.Extents.{Extent, ExtentState}
use nvalloc.Extents.Inv.{pages_of, total_pages, times, times-delete, In, IsExtents}
use nvalloc.Recycle.{World}
use nvalloc.Recycle.Evict.{extents_evict, evict_delayed}
use nvalloc.Recycle.Oldest.{IsSingle, Evicted, extents_evict-Evicted}
use nvalloc.Arena.Purge.{Means, arena_stash_decayed}

list_cases : (l : List ℕ) → (l ≡ []) ⊎ ((e : ℕ) × (es : List ℕ) × (l ≡ e ∷ es))
list_cases [] = inl refl
list_cases (e ∷ es) = inr (e, es, refl)

delete_first : (e : ℕ) (es : List ℕ) → delete e (e ∷ es) ≡ es
delete_first e es = ground arith

module _ {heap : ExtentHeap} {list : ExtentList} {tree : ExtentTree} where
  -- the dirty extents of an arena, none of which can be merged with a neighbour
  pub record IsPool (w : World heap list tree) (arena : ℕ) : Type 0 where
    pub is : IsExtents w.space.store w.extents
    pub dirty : w.extents.state ≡ ExtentState.dirty
    pub delayed : w.extents.delay_coalesce ≡ true
    pub own : (i e : ℕ) → In w.extents i e → (w.space.store e).arena ≡ arena
    pub single : (e : ℕ) → 0 < times e (list.items w.extents.lru) → IsSingle w arena e

  IsPool-Evicted :
      (rounds fuel : ℕ) (w : World heap list tree) (memory_b memory_c : Option ℕ)
      (arena npages_min e : ℕ) (w' : World heap list tree)
      → IsPool w arena
      → Evicted rounds fuel w memory_b memory_c arena npages_min e w'
      → IsPool w' arena
  IsPool-Evicted rounds fuel w memory_b memory_c arena npages_min e w' pool ev = record {
    is = ev.inv;
    dirty = ev.same_state ∙ pool.dirty;
    delayed = ev.same_delay ∙ pool.delayed;
    own = λ i o m.
        ap Extent.arena (ev.store o)
        ∙ update_ap Extent.arena w.space.store e
            (record (w.space.store e) { state = ExtentState.active }) o refl
        ∙ pool.own i o (ev.others i o m);
    single = λ o pos.
        let listed : times o (list.items w'.extents.lru)
            ≡ times o (delete e (list.items w.extents.lru)) =
          ap (λ l. times o l) ev.rest in
        ev.single o
          (pool.single o (ground (arith, times-delete o e (list.items w.extents.lru), listed)));
  }

  -- what the loop does, with `n` pages taken before it
  pub record Stashed (fuel : ℕ) (means : Means) (w : World heap list tree) (arena limit most n : ℕ)
      (stashed : list.Ring) (n' : ℕ) (stashed' : list.Ring) (w' : World heap list tree)
      : Type 0 where
    pub result :
        arena_stash_decayed heap list tree fuel means w arena limit most n stashed
        ≡ some (n', stashed', w')
    pub pool : IsPool w' arena
    pub pages : w'.extents.npages + n' ≡ w.extents.npages + n
    pub enough : (most ≤ n') ⊎ (w'.extents.npages ≤ limit)
    pub taken :
        (es : List ℕ) × (list.items stashed' ≡ list.items stashed ++ es)
        × (list.items w.extents.lru ≡ es ++ list.items w'.extents.lru)

  evict-delayed :
      (rounds fuel : ℕ) (w : World heap list tree) (memory_b memory_c : Option ℕ) (arena limit : ℕ)
      → w.extents.delay_coalesce ≡ true
      → extents_evict heap list tree rounds fuel w memory_b memory_c arena limit
        ≡ evict_delayed heap list tree rounds fuel w arena limit
  unfolding extents_evict
  evict-delayed rounds fuel w memory_b memory_c arena limit delayed = simp delayed refl

  -- none is taken where there is none, or where no more pages are left than may stay
  evict-empty :
      (rounds fuel : ℕ) (w : World heap list tree) (arena limit : ℕ)
      → list.items w.extents.lru ≡ []
      → evict_delayed heap list tree (suc rounds) fuel w arena limit ≡ some (none, w)
  unfolding evict_delayed
  evict-empty rounds fuel w arena limit q =
      let nothing : list.first w.extents.lru ≡ none =
        list.first-items w.extents.lru ∙ ap (λ l. get_elem? l 0) q in
      rw (nothing, evict_delayed) refl

  evict-few :
      (rounds fuel : ℕ) (w : World heap list tree) (arena limit e : ℕ)
      → list.first w.extents.lru ≡ some e
      → leb w.extents.npages limit ≡ true
      → evict_delayed heap list tree (suc rounds) fuel w arena limit ≡ some (none, w)
  unfolding evict_delayed
  evict-few rounds fuel w arena limit e oldest few = rw (oldest, few, evict_delayed) refl

  first-cons :
      (w : World heap list tree) (e : ℕ) (es : List ℕ)
      → list.items w.extents.lru ≡ e ∷ es
      → list.first w.extents.lru ≡ some e
  first-cons w e es q = list.first-items w.extents.lru ∙ ap (λ l. get_elem? l 0) q

  module _ (means : Means) (rounds joining : ℕ) (some_rounds : means.rounds ≡ suc rounds)
      (some_fuel : means.fuel ≡ suc joining) (arena limit most : ℕ) where
    -- the loop goes no further
    stopped :
        (fuel : ℕ) (w : World heap list tree) (n : ℕ) (stashed : list.Ring)
        → IsPool w arena
        → ltb n most ≡ true
        → evict_delayed heap list tree (suc rounds) (suc joining) w arena limit ≡ some (none, w)
        → w.extents.npages ≤ limit
        → Stashed (suc fuel) means w arena limit most n stashed n stashed w
    unfolding arena_stash_decayed
    stopped fuel w n stashed pool less none_taken le =
        let evict = λ (b c : Option ℕ).
          evict-delayed (suc rounds) (suc joining) w b c arena limit pool.delayed ∙ none_taken in
        record {
          result =
              rw (some_rounds, some_fuel, less, evict (means.memory_b fuel) (means.memory_c fuel))
                refl;
          pool = pool;
          pages = refl;
          enough = inr le;
          taken = ([], sym (append-nil (list.items stashed)), refl);
        }

    full :
        (fuel : ℕ) (w : World heap list tree) (n : ℕ) (stashed : list.Ring)
        → IsPool w arena
        → ltb n most ≡ false
        → Stashed (suc fuel) means w arena limit most n stashed n stashed w
    unfolding arena_stash_decayed
    full fuel w n stashed pool not_less = record {
      result = rw not_less refl;
      pool = pool;
      pages = refl;
      enough = inl (ground arith);
      taken = ([], sym (append-nil (list.items stashed)), refl);
    }

    -- one extent more is taken
    one_more :
        (fuel : ℕ) (w : World heap list tree) (n e : ℕ) (es : List ℕ) (stashed : list.Ring)
        (w' : World heap list tree) (n'' : ℕ) (stashed'' : list.Ring) (w'' : World heap list tree)
        → ltb n most ≡ true
        → list.items w.extents.lru ≡ e ∷ es
        → Evicted
            (suc rounds)
            (suc joining)
            w
            (means.memory_b fuel)
            (means.memory_c fuel)
            arena
            limit
            e
            w'
        → Stashed fuel means w' arena limit most
            (n + pages_of w.space.store e)
            (list.append e stashed)
            n''
            stashed''
            w''
        → Stashed (suc fuel) means w arena limit most n stashed n'' stashed'' w''
    unfolding arena_stash_decayed
    one_more fuel w n e es stashed w' n'' stashed'' w'' less q ev st =
        let (taken, put, left) = st.taken in
        let size : (w'.space.store e).size ≡ (w.space.store e).size =
          ap Extent.size (ev.store e)
          ∙ update_ap Extent.size w.space.store e
              (record (w.space.store e) { state = ExtentState.active }) e refl in
        let behind : list.items w'.extents.lru ≡ es =
          ev.rest ∙ ap (delete e) q ∙ delete_first e es in
        record {
          result = rw (some_rounds, some_fuel, less, ev.result, size) st.result;
          pool = st.pool;
          pages = omega (arith, st.pages, ev.pages);
          enough = st.enough;
          taken = (
            e ∷ taken,
            put
                ∙ ap (λ l. l ++ taken) (list.items-append stashed e)
                ∙ append_assoc (list.items stashed) (e ∷ []) taken,
            q ∙ ap (λ l. e ∷ l) (sym behind ∙ left),
          );
        }

    -- Where no dirty extent can be merged with a neighbour, the loop ends within a round for each
    -- extent and one: the oldest extents have been taken, in their order and with all their pages, and
    -- either the pages asked for are reached or no more are left than may stay; the others still
    -- satisfy the invariant.
    pub arena_stash_decayed-Stashed :
        (fuel : ℕ) (w : World heap list tree) (n : ℕ) (stashed : list.Ring)
        → length (list.items w.extents.lru) < fuel
        → IsPool w arena
        → (n' : ℕ) × (stashed' : list.Ring) × (w' : World heap list tree) × Stashed fuel means w
            arena limit most n stashed n' stashed' w'
    arena_stash_decayed-Stashed zero w n stashed enough pool = absurd (omega arith)
    arena_stash_decayed-Stashed (suc fuel) w n stashed enough pool =
        elim (Bool-cases (ltb n most)) [
          | inr not_less ↦ (n, stashed, w, full fuel w n stashed pool not_less)
          | inl less ↦ elim (list_cases (list.items w.extents.lru)) [
            | inl q ↦
                let no_pages : w.extents.npages ≡ 0 =
                  pool.is.counted ∙ ap (total_pages w.space.store) q in
                (
                  n,
                  stashed,
                  w,
                  stopped fuel w n stashed pool less
                      (evict-empty rounds (suc joining) w arena limit q) (omega arith),
                )
            | inr (e, es, q) ↦ elim (Bool-cases (leb w.extents.npages limit)) [
              | inl few ↦ (
                n,
                stashed,
                w,
                stopped fuel w n stashed pool less
                    (evict-few rounds (suc joining) w arena limit e (first-cons w e es q) few)
                    (leb→le w.extents.npages limit few),
              )
              | inr many ↦
                  let listed : 0 < times e (list.items w.extents.lru) = rw q (ground arith) in
                  let (i, m) = pool.is.listed e listed in
                  let (w', ev) =
                    extents_evict-Evicted rounds joining w (means.memory_b fuel)
                      (means.memory_c fuel) arena limit i e pool.is pool.dirty pool.delayed m
                      (pool.own i e m) (pool.single e listed) (first-cons w e es q) many in
                  let fewer : length (list.items w'.extents.lru) < fuel =
                    rw (ev.rest, q) (ground (arith, delete_first e es, ap length q)) in
                  let (n'', stashed'', w'', st) =
                    arena_stash_decayed-Stashed fuel w' (n + pages_of w.space.store e)
                      (list.append e stashed) fewer
                      (IsPool-Evicted _ _ w _ _ arena limit e w' pool ev) in
                  (
                    n'',
                    stashed'',
                    w'',
                    one_more fuel w n e es stashed w' n'' stashed'' w'' less q ev st,
                  )
            ]
          ]
        ]

    -- Where no dirty extent can be merged with a neighbour and there are more dirty pages than may stay,
    -- the loop, asked for those above the limit, ends within a round for each extent and one: the oldest
    -- extents have been taken, in their order and with all their pages, no more pages than may stay are
    -- left, and the others still satisfy the invariant.
    pub stash_to_limit :
        (fuel : ℕ) (w : World heap list tree) (stashed : list.Ring)
        → length (list.items w.extents.lru) < fuel
        → IsPool w arena
        → limit + most ≡ w.extents.npages
        → (n : ℕ) × (stashed' : list.Ring) × (w' : World heap list tree) × Stashed fuel means w
            arena limit most 0 stashed n stashed' w'
          × (w'.extents.npages ≤ limit)
    stash_to_limit fuel w stashed enough pool over =
        let (n, stashed', w', st) = arena_stash_decayed-Stashed fuel w 0 stashed enough pool in
        (
          n,
          stashed',
          w',
          st,
          elim st.enough [ inl reached ↦ omega (arith, st.pages) | inr le ↦ le ],
        )
