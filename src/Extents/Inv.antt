-- ===== src/Extents/Inv.antt =====
-- The invariant of an `extents_t`: the heaps, the bitmap of those that are not empty, the list and
-- the count of pages agree.
use nvalloc.Prelude.{
  ℕ, suc, ◌+◌, ◌-◌, ◌/◌, ◌%◌, ◌≤◌, ◌<◌, ◌≡◌, refl, sym, ap, ◌∙◌, true, false, not, some, List, [],
  ◌∷◌, ◌++◌, arith, length, if◌then◌else◌, ◌==◌, get_elem-lt, get_elem?, get_or, inl, inr,
  Bool-cases,
}
use nvalloc.Bitmap.View.{bits, AreWords}
use nvalloc.Machine.{page_size, u64_mod}
use nvalloc.SizeClass.Table.{max_psz_idx}
use nvalloc.SizeClass.Pages.{most_pages}
use nvalloc.Extents.Floor.{IsNearest, get_psizeclass_floor-le}
use nvalloc.Containers.{ExtentHeap, ExtentList, delete}
use nvalloc.Extents.{Extent, Extents, Store, ExtentState, get_psizeclass_floor}

abbrev pub pages_of : Store → ℕ → ℕ
pages_of store e = (store e).size / page_size

-- the pages of the extents of a list
abbrev pub total_pages : Store → List ℕ → ℕ
total_pages store [] = 0
total_pages store (e ∷ es) = pages_of store e + total_pages store es

-- how often an extent stands in a list
abbrev pub times : ℕ → List ℕ → ℕ
times e [] = 0
times e (x ∷ xs) = let rest = times e xs in if x == e then suc rest else rest

pub times-append : (e : ℕ) (xs ys : List ℕ) → times e (xs ++ ys) ≡ times e xs + times e ys
times-append e [] ys = omega arith
times-append e (x ∷ xs) ys = ground (arith, times-append e xs ys)

pub times-delete :
    (e x : ℕ) (xs : List ℕ)
    → times e (delete x xs) ≡ (if x == e then times e xs - 1 else times e xs)
times-delete e x [] = ground arith
times-delete e x (y ∷ ys) = ground (arith, times-delete e x ys)

pub total_pages-append :
    (store : Store) (xs ys : List ℕ)
    → total_pages store (xs ++ ys) ≡ total_pages store xs + total_pages store ys
total_pages-append store [] ys = omega arith
total_pages-append store (x ∷ xs) ys = omega (arith, total_pages-append store xs ys)

pub total_pages-delete :
    (store : Store) (x : ℕ) (xs : List ℕ)
    → 0 < times x xs
    → total_pages store (delete x xs) + pages_of store x ≡ total_pages store xs
total_pages-delete store x [] h = absurd (omega arith)
total_pages-delete store x (y ∷ ys) h = elim (Bool-cases (y == x)) [
  | inl e ↦ let same : y ≡ x = ground arith in rw (e, same) (omega arith)
  | inr e ↦ rw e (omega (arith, total_pages-delete store x ys (rw e at h)))
]

total_pages-same :
    (store store' : Store) (xs : List ℕ)
    → ((e : ℕ) → 0 < times e xs → store' e ≡ store e)
    → total_pages store' xs ≡ total_pages store xs
total_pages-same store store' [] h = refl
total_pages-same store store' (x ∷ xs) h =
    let first : pages_of store' x ≡ pages_of store x =
      ap (λ k. k.size / page_size) (h x (ground arith)) in
    omega (arith, first, total_pages-same store store' xs (λ e pos. h e (ground arith)))

-- an extent that may be kept under class `i` of extents of a state
pub record IsKept (store : Store) (state : ExtentState) (i e : ℕ) : Type 0 where
  pub state_is : (store e).state ≡ state
  pub slab_not : (store e).slab ≡ false
  pub size_pos : 0 < (store e).size
  pub size_whole : (store e).size % page_size ≡ 0
  pub floor : get_psizeclass_floor (pages_of store e) ≡ some i

module _ {heap : ExtentHeap} {list : ExtentList} where
  -- the extent stands in heap `i`
  pub record In (x : Extents heap list) (i e : ℕ) : Type 0 where
    pub heap_of : heap.Heap
    pub at : get_elem? x.heaps i ≡ some heap_of
    pub member : heap.has heap_of e ≡ true

  pub record IsExtents (store : Store) (x : Extents heap list) : Type 0 where
    pub one_word : length x.bitmap ≡ 1
    pub words : AreWords x.bitmap
    pub all_heaps : length x.heaps ≡ max_psz_idx + 1
    pub guard : get_or (bits x.bitmap) max_psz_idx false ≡ true
    pub bit :
        (i : ℕ) (h : heap.Heap)
        → i < max_psz_idx
        → get_elem? x.heaps i ≡ some h
        → get_or (bits x.bitmap) i false ≡ not (heap.empty h)
    pub kept : (i e : ℕ) → In x i e → IsKept store x.state i e
    pub once : (i e : ℕ) → In x i e → times e (list.items x.lru) ≡ 1
    pub listed : (e : ℕ) → 0 < times e (list.items x.lru) → (i : ℕ) × In x i e
    pub counted : x.npages ≡ total_pages store (list.items x.lru)
    pub bounded : x.npages < u64_mod

  -- The pages of an extent are no fewer than those of its class.
  pub In-IsNearest :
      (store : Store) (x : Extents heap list)
      → IsExtents store x
      → (i e : ℕ) → In x i e
      → (pages_of store e ≤ most_pages) × IsNearest (pages_of store e) i
  In-IsNearest store x is i e m =
      let k = is.kept i e m in
      get_psizeclass_floor-le (pages_of store e) i (omega (arith, k.size_pos, k.size_whole)) k.floor
        (omega (arith, get_elem-lt x.heaps i m.heap_of m.at, is.all_heaps))

  -- The invariant reads no other extent than those in the list.
  pub IsExtents-frame :
      (store store' : Store) (x : Extents heap list)
      → IsExtents store x
      → ((e : ℕ) → 0 < times e (list.items x.lru) → store' e ≡ store e)
      → IsExtents store' x
  IsExtents-frame store store' x is same = record {
    one_word = is.one_word;
    words = is.words;
    all_heaps = is.all_heaps;
    guard = is.guard;
    bit = is.bit;
    bounded = is.bounded;
    kept = λ i e m.
        let k = is.kept i e m in
        let q = same e (omega (arith, is.once i e m)) in
        record {
          state_is = ap Extent.state q ∙ k.state_is;
          slab_not = ap Extent.slab q ∙ k.slab_not;
          size_pos = rw q k.size_pos;
          size_whole = rw q k.size_whole;
          floor = rw q k.floor;
        };
    once = is.once;
    listed = is.listed;
    counted = is.counted ∙ sym (total_pages-same store store' (list.items x.lru) same);
  }
