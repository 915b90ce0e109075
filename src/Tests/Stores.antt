-- ===== src/Tests/Stores.antt =====
-- The containers of the extents as lists and a function of addresses, and a memory with two
-- extents.
use nvalloc.Prelude.{
  ℕ, ◌*◌, ◌≡◌, refl, Bool, true, false, Option, some, none, List, [], ◌∷◌, ◌++◌, arith, get_elem?,
  if◌then◌else◌, ◌==◌, update,
}
use nvalloc.Tests.Logs.{addresses_search, addresses_remove, search_remove}
use nvalloc.Containers.{ExtentHeap, ExtentList, ExtentTree, LeafElm, delete}
use nvalloc.Extents.{Extent, ExtentState, Extents, Store, extents_init}
use nvalloc.Extents.Inv.{IsExtents}
use nvalloc.Extents.Start.{extents_init-IsExtents}
use nvalloc.Space.Split.{HasRoom}

abbrev pub none_in : List ℕ → Bool
none_in [] = true
none_in (e ∷ h) = false

pub none_in-search : (h : List ℕ) (e : ℕ) → none_in h ≡ true → addresses_search h e ≡ false
none_in-search [] e q = refl
none_in-search (x ∷ h) e q = cc

pub first_of-some : (h : List ℕ) → none_in h ≡ false → (e : ℕ) × (get_elem? h 0 ≡ some e)
first_of-some [] q = cc
first_of-some (x ∷ h) q = (x, refl)

pub search-first : (h : List ℕ) (e : ℕ) → get_elem? h 0 ≡ some e → addresses_search h e ≡ true
search-first [] e q = cc
search-first (x ∷ h) e q = let same : x ≡ e = cc in ground arith

abbrev pub heap : ExtentHeap
heap = record {
  Heap = List ℕ;
  new = [];
  insert = λ k e h. e ∷ h;
  remove = addresses_remove;
  first = λ h. get_elem? h 0;
  empty = none_in;
  has = addresses_search;
  empty-new = refl;
  empty-has = none_in-search;
  first-empty = first_of-some;
  has-first = search-first;
  has-insert = λ h k e x. refl;
  has-remove = search_remove;
}

-- the element behind the first `e`
abbrev pub behind : List ℕ → ℕ → Option ℕ
behind [] e = none
behind (x ∷ q) e = let rest = behind q e in if x == e then get_elem? q 0 else rest

abbrev pub list : ExtentList
list = record {
  Ring = List ℕ;
  new = [];
  append = λ e q. q ++ e ∷ [];
  remove = delete;
  first = λ q. get_elem? q 0;
  next = behind;
  items = λ q. q;
  items-new = refl;
  items-append = λ q e. refl;
  items-remove = λ q e. refl;
  first-items = λ q. refl;
}

abbrev pub tree : ExtentTree
tree = record {
  Tree = ℕ → LeafElm;
  init = λ t a. t;
  has_leaf = λ t a. true;
  read = λ t a. t a;
  write = update;
  read-init = λ t a b. refl;
  read-write = λ t a l b. refl;
  has_leaf-init = λ t a b h. h;
  has_leaf-write = λ t a l b. refl;
}

pub room : HasRoom tree
room t a = refl

-- an extent of five pages in use by arena 1
abbrev pub five_pages : Extent
five_pages = record {
  e_addr = 2097152;
  size = 5 * 4096;
  szind = 63;
  state = ExtentState.active;
  arena = 1;
  slab = false;
  log = 0;
}

-- the page in front of it
abbrev pub page_before : Extent
page_before = record five_pages { e_addr = 2093056; size = 4096 }

abbrev pub store : Store
store = update (λ e. five_pages) 9 page_before

abbrev pub no_extents : Extents heap list
no_extents = extents_init heap list ExtentState.dirty false

pub no_extents-IsExtents : IsExtents store no_extents
no_extents-IsExtents = extents_init-IsExtents store ExtentState.dirty false
