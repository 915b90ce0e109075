-- ===== src/SimpleList/Queue.antt =====
-- The list is a queue: `simple_list_insert` puts behind, `simple_list_get_first` takes from the front.
use nvalloc.Prelude.{
  update, ℕ, ◌<◌, ◌≡◌, refl, false, List, [], ◌∷◌, ◌++◌, arith, if◌then◌else◌, ◌==◌,
}
use nvalloc.Log.{null}
use nvalloc.SimpleList.{
  Nodes, SimpleList, simple_list_create, simple_list_insert, simple_list_get_first,
}

-- the address of a node and its data
abbrev pub Entry : Type 0
Entry = ℕ × ℕ

abbrev pub NotIn : ℕ → List Entry → Type 0
NotIn a [] = Unit
NotIn a ((b, d) ∷ es) = ((a == b) ≡ false) × NotIn a es

-- the nodes behind `a` are the entries, and `z` is the last node
abbrev pub Chain : Nodes → ℕ → List Entry → ℕ → Type 0
Chain nodes a [] z = (nodes.next a ≡ null) × (a ≡ z)
Chain nodes a ((b, d) ∷ es) z =
    (nodes.next a ≡ b)
    × (null < b)
    × (nodes.data_at b ≡ d)
    × ((a == z) ≡ false)
    × Chain nodes b es z

-- a list that holds the entries, in their order
pub record IsQueue (list : SimpleList) (nodes : Nodes) (es : List Entry) : Type 0 where
  pub chain : Chain nodes list.head es list.tail
  pub apart : NotIn list.head es

-- the nodes after an insertion behind `z`
abbrev inserted : Nodes → ℕ → ℕ → ℕ → Nodes
inserted nodes z node d = record {
  data_at = update (update nodes.data_at node null) node d;
  next = update (update nodes.next node null) z node;
}

Chain-inserted :
    (nodes : Nodes) (a z node d : ℕ) (es : List Entry)
    → (node == a) ≡ false
    → NotIn node es
    → null < node
    → Chain nodes a es z
    → Chain (inserted nodes z node d) a (es ++ (node, d) ∷ []) node
Chain-inserted nodes a z node d [] ne fresh pos (last, same) =
    (ground arith, pos, ground arith, ground arith, (ground arith, refl))
Chain-inserted nodes a z node d ((b, e) ∷ es) ne (ne', fresh) pos (next, pos', held, inner, rest) =
    (
      ground arith,
      pos',
      ground arith,
      ground arith,
      Chain-inserted nodes b z node d es ne' fresh pos rest,
    )

NotIn-append :
    (a node d : ℕ) (es : List Entry)
    → (a == node) ≡ false
    → NotIn a es
    → NotIn a (es ++ (node, d) ∷ [])
NotIn-append a node d [] ne out = (ne, tt)
NotIn-append a node d ((b, e) ∷ es) ne (ne', out) = (ne', NotIn-append a node d es ne out)

-- Inserting puts a node that is in no use behind all others, and keeps their order.
pub simple_list_insert-IsQueue :
    (list : SimpleList) (nodes : Nodes) (es : List Entry) (node d : ℕ)
    → IsQueue list nodes es
    → null < node
    → NotIn node ((list.head, null) ∷ es)
    → IsQueue
        (simple_list_insert list nodes node d).0
        (simple_list_insert list nodes node d).1
        (es ++ (node, d) ∷ [])
unfolding simple_list_insert
simple_list_insert-IsQueue list nodes es node d is pos (ne, fresh) = record {
  chain = Chain-inserted nodes list.head list.tail node d es ne fresh pos is.chain;
  apart = NotIn-append list.head node d es (ground arith) is.apart;
}

-- a write to the head does not change the nodes behind it
Chain-frame :
    (nodes : Nodes) (a z h v : ℕ) (es : List Entry)
    → (h == a) ≡ false
    → NotIn h es
    → Chain nodes a es z
    → Chain (record nodes { next = update nodes.next h v }) a es z
Chain-frame nodes a z h v [] ne out (last, same) = (rw ne last, same)
Chain-frame nodes a z h v ((b, d) ∷ es) ne (ne', out) (next, pos, held, inner, rest) =
    (rw ne next, pos, held, inner, Chain-frame nodes b z h v es ne' out rest)

-- what taking from a list does: the data of the first entry, and the list of the others
pub record IsTaken (list : SimpleList) (nodes : Nodes) (d : ℕ) (rest : List Entry) : Type 0 where
  pub first : (simple_list_get_first list nodes).0 ≡ d
  pub others :
      IsQueue (simple_list_get_first list nodes).1 (simple_list_get_first list nodes).2 rest

-- the list behind the first node
behind_first :
    (list : SimpleList) (nodes : Nodes) (b : ℕ) (es : List Entry)
    → (list.head == list.tail) ≡ false
    → (list.head == b) ≡ false
    → NotIn list.head es
    → Chain nodes b es list.tail
    → IsQueue
        (record list { tail = if b == list.tail then list.head else list.tail })
        (record nodes { next = update nodes.next list.head (nodes.next b) })
        es
behind_first list nodes b [] far ne out (last, same) = record {
  chain = (ground arith, ground arith);
  apart = tt;
}
behind_first list nodes b ((c, e) ∷ es) far ne (ne', out) (next, pos, held, inner, rest) = record {
  chain = rw inner (
    ground arith,
    pos,
    held,
    far,
    Chain-frame nodes c list.tail list.head (nodes.next b) es ne' out rest,
  );
  apart = (ne', out);
}

-- Taking from a list that is not empty returns the data of its first node, and leaves the others.
pub simple_list_get_first-IsTaken :
    (list : SimpleList) (nodes : Nodes) (b d : ℕ) (es : List Entry)
    → IsQueue list nodes ((b, d) ∷ es)
    → IsTaken list nodes d es
unfolding simple_list_get_first
simple_list_get_first-IsTaken list nodes b d es is =
    let (next, pos, held, inner, rest) = is.chain in
    let (ne, out) = is.apart in
    let here : (nodes.next list.head == null) ≡ false = ground arith in
    record {
      first = rw (here, next) held;
      others = rw (here, next) (behind_first list nodes b es inner ne out rest);
    }

-- A new list is empty, and taking from it returns `NULL`.
pub simple_list_create-IsQueue :
    (nodes : Nodes) (node : ℕ)
    → IsQueue (simple_list_create nodes node).0 (simple_list_create nodes node).1 []
      × ((simple_list_get_first
            (simple_list_create nodes node).0
            (simple_list_create nodes node).1).0
          ≡ null)
unfolding simple_list_create simple_list_get_first
simple_list_create-IsQueue nodes node =
    let last : update nodes.next node null node ≡ null = ground arith in
    (record { chain = (last, refl); apart = tt }, rw last refl)
