-- ===== src/Extents/Insert.antt =====
-- `extents_insert_locked` keeps the invariant and adds the extent to its class.
use nvalloc.Prelude.{
  ℕ, ◌+◌, ◌/◌, ◌%◌, ◌<◌, ◌≡◌, refl, sym, ap, ◌∙◌, Bool, true, false, not, some, [], ◌∷◌, ◌++◌,
  arith, length, if◌then◌else◌, ◌==◌, get_elem?, get_or, set, inl, inr, ◌⊎◌, Bool-cases, get_or-set,
  get_elem-set_self, get_elem-set_other, get_elem-set_cases, get_elem-lt, length-set,
}
use native.Mathlib.Decide.{ℕ_discrete}
use nvalloc.Bitmap.{Bitmap, bitmap_unset_bits}
use nvalloc.Bitmap.View.{
  bits, AreWords, length-bits, bits-bitmap_unset_bits, bitmap_unset_bits-AreWords,
  length-bitmap_unset_bits,
}
use nvalloc.Machine.{page_size, u64_mod}
use nvalloc.SizeClass.Table.{max_psz_idx}
use nvalloc.Containers.{ExtentHeap, ExtentList}
use nvalloc.Extents.{Extents, Store, ExtentState, same_state, extents_insert_locked}
use nvalloc.Extents.Inv.{pages_of, times, times-append, total_pages-append, IsKept, In, IsExtents}

pub same_state_refl : (s : ExtentState) → same_state s s ≡ true
same_state_refl ExtentState.active = refl
same_state_refl ExtentState.dirty = refl
same_state_refl ExtentState.muzzy = refl

-- the bitmap of one word after bit `i` was marked where it was not
module _ (bm : Bitmap) (i : ℕ) (one : length bm ≡ 1) (words : AreWords bm) (lt : i < 64) where
  get_or-marked :
      (j : ℕ)
      → get_or (bits (bitmap_unset_bits bm i)) j false
        ≡ (if i == j then true else get_or (bits bm) j false)
  get_or-marked j =
      rw (bits-bitmap_unset_bits bm i words (omega (arith, one)))
        (get_or-set (bits bm) i j true false (omega (arith, one, length-bits bm words)))

  marked_if :
      (empty : Bool)
      → get_or (bits bm) i false ≡ not empty
      → (j : ℕ)
      → get_or (bits (if empty then bitmap_unset_bits bm i else bm)) j false
        ≡ (if i == j then true else get_or (bits bm) j false)
  marked_if true e j = get_or-marked j
  marked_if false e j = elim (ℕ_discrete i j) [
    | yes q ↦ ap (λ k. get_or (bits bm) k false) (sym q) ∙ e ∙ ground arith
    | no q ↦ ground arith
  ]

  marked_if-length : (empty : Bool) → length (if empty then bitmap_unset_bits bm i else bm) ≡ 1
  marked_if-length true = length-bitmap_unset_bits bm i words (omega (arith, one)) ∙ one
  marked_if-length false = one

  marked_if-AreWords : (empty : Bool) → AreWords (if empty then bitmap_unset_bits bm i else bm)
  marked_if-AreWords true = bitmap_unset_bits-AreWords bm i words (omega (arith, one))
  marked_if-AreWords false = words

module _ {heap : ExtentHeap} {list : ExtentList} (store : Store) (x : Extents heap list)
    (e i : ℕ) where
  -- what `extents_insert_locked` returns
  pub record Inserted (x' : Extents heap list) : Type 0 where
    pub result : extents_insert_locked heap list store x e ≡ some x'
    pub inv : IsExtents store x'
    pub added : In x' i e
    pub others : (j e' : ℕ) → In x j e' → In x' j e'
    pub no_more : (j e' : ℕ) → In x' j e' → ((i ≡ j) × (e ≡ e')) ⊎ In x j e'
    pub pages : x'.npages ≡ x.npages + pages_of store e
    pub state : x'.state ≡ x.state
    pub delay : x'.delay_coalesce ≡ x.delay_coalesce
    pub last : list.items x'.lru ≡ list.items x.lru ++ e ∷ []

  module _ (is : IsExtents store x) (may : IsKept store x.state i e) (lt : i < max_psz_idx)
      (new : times e (list.items x.lru) ≡ 0) (small : x.npages + pages_of store e < u64_mod)
      (h : heap.Heap) (at : get_elem? x.heaps i ≡ some h) where
    abbrev h' : heap.Heap
    h' = heap.insert (store e).e_addr e h

    abbrev x' : Extents heap list
    x' = record x {
      bitmap = if heap.empty h then bitmap_unset_bits x.bitmap i else x.bitmap;
      heaps = set x.heaps i h';
      lru = list.append e x.lru;
      npages = x.npages + pages_of store e;
    }

    result : extents_insert_locked heap list store x e ≡ some x'
    unfolding extents_insert_locked
    result =
        let state_ok : same_state (store e).state x.state ≡ true =
          rw may.state_is (same_state_refl x.state) in
        let size_ok : ((store e).size == 0) ≡ false = ground (arith, may.size_pos) in
        let whole : ((store e).size % page_size == 0) ≡ true = ground (arith, may.size_whole) in
        let exact : (x.npages + (store e).size / page_size) % u64_mod
            ≡ x.npages + pages_of store e =
          omega (arith, small) in
        rw (state_ok, may.slab_not, size_ok, whole, may.floor, at, exact)

    bits_after :
        (j : ℕ)
        → get_or (bits x'.bitmap) j false
          ≡ (if i == j then true else get_or (bits x.bitmap) j false)
    bits_after =
        marked_if x.bitmap i is.one_word is.words (omega arith) (heap.empty h) (is.bit i h lt at)

    at_i : get_elem? x'.heaps i ≡ some h'
    at_i = get_elem-set_self x.heaps i h' (get_elem-lt x.heaps i h at)

    member_in : (e' : ℕ) → (e ≡ e') ⊎ (heap.has h e' ≡ true) → heap.has h' e' ≡ true
    member_in e' m = ground (arith, heap.has-insert h (store e).e_addr e e')

    member_out : (e' : ℕ) → heap.has h' e' ≡ true → (e ≡ e') ⊎ (heap.has h e' ≡ true)
    member_out e' m = ground (arith, heap.has-insert h (store e).e_addr e e')

    added : In x' i e
    added = record { heap_of = h'; at = at_i; member = member_in e (inl refl) }

    not_empty : heap.empty h' ≡ false
    not_empty = elim (Bool-cases (heap.empty h')) [
      | inl q ↦ cc (heap.empty-has h' e q, member_in e (inl refl))
      | inr q ↦ q
    ]

    others : (j e' : ℕ) → In x j e' → In x' j e'
    others j e' m = elim (ℕ_discrete i j) [
      | yes q ↦ rw (← q) record {
        heap_of = h';
        at = at_i;
        member = member_in e' (inr (cc (m.at, m.member, at, q)));
      }
      | no ne ↦ record {
        heap_of = m.heap_of;
        at = get_elem-set_other x.heaps i j h' ne ∙ m.at;
        member = m.member;
      }
    ]

    no_more : (j e' : ℕ) → In x' j e' → ((i ≡ j) × (e ≡ e')) ⊎ In x j e'
    no_more j e' m = elim (get_elem-set_cases x.heaps i j h' m.heap_of m.at) [
      | inl (q, same) ↦ elim (member_out e' (cc (same, m.member))) [
        | inl this ↦ inl (q, this)
        | inr old ↦ inr (record { heap_of = h; at = cc (q, at); member = old })
      ]
      | inr (ne, old) ↦ inr (record { heap_of = m.heap_of; at = old; member = m.member })
    ]

    items_after : list.items x'.lru ≡ list.items x.lru ++ e ∷ []
    items_after = list.items-append x.lru e

    times_after :
        (e' : ℕ)
        → times e' (list.items x'.lru) ≡ (if e == e' then 1 else times e' (list.items x.lru))
    times_after e' = rw items_after (elim (ℕ_discrete e e') [
      | yes q ↦
          let none_yet : times e' (list.items x.lru) ≡ 0 =
            ap (λ k. times k (list.items x.lru)) (sym q) ∙ new in
          ground (arith, times-append e' (list.items x.lru) (e ∷ []))
      | no ne ↦ ground (arith, times-append e' (list.items x.lru) (e ∷ []))
    ])

    inv : IsExtents store x'
    inv = record {
      one_word = marked_if-length x.bitmap i is.one_word is.words (omega arith) (heap.empty h);
      words = marked_if-AreWords x.bitmap i is.one_word is.words (omega arith) (heap.empty h);
      all_heaps = length-set x.heaps i h' ∙ is.all_heaps;
      guard = bits_after max_psz_idx ∙ ground (arith, is.guard);
      bit = λ j h1 below found. elim (get_elem-set_cases x.heaps i j h' h1 found) [
        | inl (q, same) ↦
            bits_after j ∙ ground (arith, q) ∙ sym (ap not (ap heap.empty (sym same) ∙ not_empty))
        | inr (ne, old) ↦ bits_after j ∙ ground (arith, ne) ∙ is.bit j h1 below old
      ];
      kept = λ j e' m. elim (no_more j e' m) [
        | inl (q, same) ↦ rw (← q, ← same) may
        | inr old ↦ is.kept j e' old
      ];
      once = λ j e' m. elim (no_more j e' m) [
        | inl (q, same) ↦ times_after e' ∙ ground (arith, same)
        | inr old ↦ ground (arith, times_after e', is.once j e' old)
      ];
      listed = λ e' pos. elim (ℕ_discrete e e') [
        | yes same ↦ (i, rw (← same) added)
        | no ne ↦ let (k, m) = is.listed e' (ground (arith, times_after e')) in (k, others k e' m)
      ];
      counted =
          rw items_after
            (omega (arith, is.counted, total_pages-append store (list.items x.lru) (e ∷ [])));
      bounded = small;
    }

    pub extents_insert_locked-Inserted : (y : Extents heap list) × Inserted y
    extents_insert_locked-Inserted = (
      x',
      record {
        result = result;
        inv = inv;
        added = added;
        others = others;
        no_more = no_more;
        pages = refl;
        state = refl;
        delay = refl;
        last = items_after;
      },
    )
