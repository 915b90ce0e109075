-- ===== src/Containers.antt =====
-- What the containers of include/nvalloc/internal/ph.h, ql.h and rtree.h do, as the code that uses
-- them on extents relies on it. The first two are generated by macros, for a pointer to an extent.
use nvalloc.Prelude.{
  ℕ, ◌≡◌, Bool, true, false, Option, some, List, [], ◌∷◌, ◌++◌, if◌then◌else◌, ◌==◌, get_elem?,
}

-- a list without its first `e`
abbrev pub delete : ℕ → List ℕ → List ℕ
delete e [] = []
delete e (x ∷ xs) = let rest = delete e xs in if x == e then xs else x ∷ rest

-- the pairing heap; `insert` has the address by which the heap is ordered before the extent
pub record ExtentHeap : Type 1 where
  pub Heap : Type 0
  pub new : Heap
  pub insert : ℕ → ℕ → Heap → Heap
  pub remove : ℕ → Heap → Heap
  pub first : Heap → Option ℕ
  pub empty : Heap → Bool
  pub has : Heap → ℕ → Bool
  pub empty-new : empty new ≡ true
  pub empty-has : (h : Heap) (e : ℕ) → empty h ≡ true → has h e ≡ false
  pub first-empty : (h : Heap) → empty h ≡ false → (e : ℕ) × (first h ≡ some e)
  pub has-first : (h : Heap) (e : ℕ) → first h ≡ some e → has h e ≡ true
  pub has-insert :
      (h : Heap) (k e x : ℕ) → has (insert k e h) x ≡ (if e == x then true else has h x)
  pub has-remove : (h : Heap) (e x : ℕ) → has (remove e h) x ≡ (if e == x then false else has h x)

-- the ring of links with a head; `next` of the last element is none
pub record ExtentList : Type 1 where
  pub Ring : Type 0
  pub new : Ring
  pub append : ℕ → Ring → Ring
  pub remove : ℕ → Ring → Ring
  pub first : Ring → Option ℕ
  pub next : Ring → ℕ → Option ℕ
  pub items : Ring → List ℕ
  pub items-new : items new ≡ []
  pub items-append : (q : Ring) (e : ℕ) → items (append e q) ≡ items q ++ e ∷ []
  pub items-remove : (q : Ring) (e : ℕ) → items (remove e q) ≡ delete e (items q)
  pub first-items : (q : Ring) → first q ≡ get_elem? (items q) 0

-- what an element of a leaf of the radix tree holds: a pointer to an extent or to a slab, a class
-- and whether the page belongs to a slab
pub record LeafElm : Type 0 where
  pub extent : ℕ
  pub szind : ℕ
  pub slab : Bool

-- The radix tree by the addresses of pages. An element is known by the address that it is for.
-- `init` makes the leaf of an address if it is missing and there is memory for it, and `has_leaf`
-- tells whether it is there.
pub record ExtentTree : Type 1 where
  pub Tree : Type 0
  pub init : Tree → ℕ → Tree
  pub has_leaf : Tree → ℕ → Bool
  pub read : Tree → ℕ → LeafElm
  pub write : Tree → ℕ → LeafElm → Tree
  pub read-init : (t : Tree) (a b : ℕ) → read (init t a) b ≡ read t b
  pub read-write :
      (t : Tree) (a : ℕ) (l : LeafElm) (b : ℕ)
      → read (write t a l) b ≡ (if a == b then l else read t b)
  pub has_leaf-init : (t : Tree) (a b : ℕ) → has_leaf t b ≡ true → has_leaf (init t a) b ≡ true
  pub has_leaf-write :
      (t : Tree) (a : ℕ) (l : LeafElm) (b : ℕ) → has_leaf (write t a l) b ≡ has_leaf t b
