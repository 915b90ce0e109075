-- ===== src/Extents/Remove.antt =====
-- `extents_remove_locked` keeps the invariant and takes the extent from its class.
use nvalloc.Prelude.{
  ℕ, ◌+◌, ◌-◌, ◌/◌, ◌%◌, ◌<◌, ◌≡◌, ◌≢◌, refl, sym, ap, ◌∙◌, Bool, true, false, not, some, arith,
  length, if◌then◌else◌, ◌==◌, get_elem?, get_or, set, inl, inr, Bool-cases, get_or-set,
  get_elem-set_self, get_elem-set_other, get_elem-set_cases, get_elem-lt, length-set,
}
use native.Mathlib.Decide.{ℕ_discrete}
use nvalloc.Bitmap.{Bitmap, bitmap_set_bits}
use nvalloc.Bitmap.View.{
  bits, AreWords, length-bits, bits-bitmap_set_bits, bitmap_set_bits-AreWords,
}
use nvalloc.Machine.{page_size, u64_mod}
use nvalloc.SizeClass.Table.{max_psz_idx}
use nvalloc.Containers.{ExtentHeap, ExtentList, delete}
use nvalloc.Extents.{Extents, Store, same_state, extents_remove_locked}
use nvalloc.Extents.Insert.{same_state_refl}
use nvalloc.Extents.Inv.{
  pages_of, total_pages, times, times-delete, total_pages-delete, IsKept, In, IsExtents,
}

-- the bitmap of one word after bit `i`, which was set, was toggled or left as it is
module _ (bm : Bitmap) (i : ℕ) (one : length bm ≡ 1) (words : AreWords bm) (lt : i < 64) where
  toggled_if :
      (empty : Bool)
      → get_or (bits bm) i false ≡ true
      → (j : ℕ)
      → get_or (bits (if empty then bitmap_set_bits bm i else bm)) j false
        ≡ (if i == j then not empty else get_or (bits bm) j false)
  toggled_if true e j =
      rw (bits-bitmap_set_bits bm i words (omega (arith, one)), e)
        (get_or-set (bits bm) i j false false (omega (arith, one, length-bits bm words)))
  toggled_if false e j = elim (ℕ_discrete i j) [
    | yes q ↦ ap (λ k. get_or (bits bm) k false) (sym q) ∙ e ∙ ground arith
    | no q ↦ ground arith
  ]

  toggled_if-length : (empty : Bool) → length (if empty then bitmap_set_bits bm i else bm) ≡ 1
  unfolding bitmap_set_bits
  toggled_if-length true = length-set bm (i / 64) _ ∙ one
  toggled_if-length false = one

  toggled_if-AreWords : (empty : Bool) → AreWords (if empty then bitmap_set_bits bm i else bm)
  toggled_if-AreWords true = bitmap_set_bits-AreWords bm i words (omega (arith, one))
  toggled_if-AreWords false = words

module _ {heap : ExtentHeap} {list : ExtentList} (store : Store) (x : Extents heap list)
    (e i : ℕ) where
  -- what `extents_remove_locked` returns
  pub record Removed (x' : Extents heap list) : Type 0 where
    pub result : extents_remove_locked heap list store x e ≡ some x'
    pub inv : IsExtents store x'
    pub gone : times e (list.items x'.lru) ≡ 0
    pub others : (j e' : ℕ) → e ≢ e' → In x j e' → In x' j e'
    pub no_more : (j e' : ℕ) → In x' j e' → (e ≢ e') × In x j e'
    pub rest : list.items x'.lru ≡ delete e (list.items x.lru)
    pub pages : x'.npages + pages_of store e ≡ x.npages
    pub state : x'.state ≡ x.state
    pub delay : x'.delay_coalesce ≡ x.delay_coalesce

  module _ (is : IsExtents store x) (here : In x i e) (lt : i < max_psz_idx) where
    may : IsKept store x.state i e
    may = is.kept i e here

    present : 0 < times e (list.items x.lru)
    present = omega (arith, is.once i e here)

    abbrev h' : heap.Heap
    h' = heap.remove e here.heap_of

    abbrev x' : Extents heap list
    x' = record x {
      heaps = set x.heaps i h';
      bitmap = if heap.empty h' then bitmap_set_bits x.bitmap i else x.bitmap;
      lru = list.remove e x.lru;
      npages = x.npages - pages_of store e;
    }

    items_after : list.items x'.lru ≡ delete e (list.items x.lru)
    items_after = list.items-remove x.lru e

    fewer : total_pages store (delete e (list.items x.lru)) + pages_of store e ≡ x.npages
    fewer = total_pages-delete store e (list.items x.lru) present ∙ sym is.counted

    result : extents_remove_locked heap list store x e ≡ some x'
    unfolding extents_remove_locked
    result =
        let state_ok : same_state (store e).state x.state ≡ true =
          rw may.state_is (same_state_refl x.state) in
        let exact : (x.npages + u64_mod - (store e).size / page_size) % u64_mod
            ≡ x.npages - pages_of store e =
          omega (arith, fewer, is.bounded) in
        rw (state_ok, may.floor, here.at, exact)

    -- the heap that holds the extent is not empty
    was_set : get_or (bits x.bitmap) i false ≡ true
    was_set = elim (Bool-cases (heap.empty here.heap_of)) [
      | inl q ↦ cc (heap.empty-has here.heap_of e q, here.member)
      | inr q ↦ is.bit i here.heap_of lt here.at ∙ ap not q
    ]

    bits_after :
        (j : ℕ)
        → get_or (bits x'.bitmap) j false
          ≡ (if i == j then not (heap.empty h') else get_or (bits x.bitmap) j false)
    bits_after = toggled_if x.bitmap i is.one_word is.words (omega arith) (heap.empty h') was_set

    at_i : get_elem? x'.heaps i ≡ some h'
    at_i = get_elem-set_self x.heaps i h' (get_elem-lt x.heaps i here.heap_of here.at)

    has_after : (e' : ℕ) → heap.has h' e' ≡ (if e == e' then false else heap.has here.heap_of e')
    has_after e' = heap.has-remove here.heap_of e e'

    times_after :
        (e' : ℕ)
        → times e' (list.items x'.lru) ≡ (if e == e' then 0 else times e' (list.items x.lru))
    times_after e' = rw items_after (elim (ℕ_discrete e e') [
      | yes q ↦
          let one_time : times e' (list.items x.lru) ≡ 1 =
            ap (λ k. times k (list.items x.lru)) (sym q) ∙ is.once i e here in
          ground (arith, times-delete e' e (list.items x.lru))
      | no ne ↦ ground (arith, times-delete e' e (list.items x.lru))
    ])

    others : (j e' : ℕ) → e ≢ e' → In x j e' → In x' j e'
    others j e' ne m = elim (ℕ_discrete i j) [
      | yes q ↦
          let old : heap.has here.heap_of e' ≡ true = cc (m.at, m.member, here.at, q) in
          rw (← q)
            record { heap_of = h'; at = at_i; member = ground (arith, has_after e', ne, old) }
      | no other ↦ record {
        heap_of = m.heap_of;
        at = get_elem-set_other x.heaps i j h' other ∙ m.at;
        member = m.member;
      }
    ]

    no_more : (j e' : ℕ) → In x' j e' → (e ≢ e') × In x j e'
    no_more j e' m = elim (get_elem-set_cases x.heaps i j h' m.heap_of m.at) [
      | inl (q, same) ↦
          let left : heap.has h' e' ≡ true = cc (same, m.member) in
          (
            λ this. ground (arith, has_after e', left, this),
            record {
              heap_of = here.heap_of;
              at = cc (q, here.at);
              member = ground (arith, has_after e', left);
            },
          )
      | inr (ne, old) ↦
          let old_in : In x j e' = record { heap_of = m.heap_of; at = old; member = m.member } in
          let floors = (is.kept j e' old_in).floor in
          (λ this. ne (cc (may.floor, floors, this)), old_in)
    ]

    inv : IsExtents store x'
    inv = record {
      one_word = toggled_if-length x.bitmap i is.one_word is.words (omega arith) (heap.empty h');
      words = toggled_if-AreWords x.bitmap i is.one_word is.words (omega arith) (heap.empty h');
      all_heaps = length-set x.heaps i h' ∙ is.all_heaps;
      guard = bits_after max_psz_idx ∙ ground (arith, is.guard);
      bit = λ j h1 below found. elim (get_elem-set_cases x.heaps i j h' h1 found) [
        | inl (q, same) ↦ bits_after j ∙ ground (arith, q) ∙ ap (λ k. not (heap.empty k)) same
        | inr (ne, old) ↦ bits_after j ∙ ground (arith, ne) ∙ is.bit j h1 below old
      ];
      kept = λ j e' m. let (ne, old) = no_more j e' m in is.kept j e' old;
      once = λ j e' m.
          let (ne, old) = no_more j e' m in ground (arith, times_after e', is.once j e' old, ne);
      listed = λ e' pos. elim (ℕ_discrete e e') [
        | yes same ↦ absurd (ground (arith, times_after e'))
        | no ne ↦
            let (k, m) = is.listed e' (ground (arith, times_after e')) in (k, others k e' ne m)
      ];
      counted = rw items_after (omega (arith, fewer));
      bounded = omega (arith, is.bounded);
    }

    pub extents_remove_locked-Removed : (y : Extents heap list) × Removed y
    extents_remove_locked-Removed = (
      x',
      record {
        result = result;
        inv = inv;
        gone = times_after e ∙ ground arith;
        others = others;
        no_more = no_more;
        rest = items_after;
        pages = omega (arith, fewer);
        state = refl;
        delay = refl;
      },
    )
