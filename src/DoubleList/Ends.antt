-- ===== src/DoubleList/Ends.antt =====
-- What putting a node at an end of the ring, and moving one to its tail, do to the sequence.
use mathlib.Core.Path.{fun_ext}
use nvalloc.Prelude.{update, ℕ, ◌≡◌, refl, ap, false, true, List, [], ◌∷◌, ◌++◌, arith, ◌==◌}
use nvalloc.DoubleList.{
  DlNodes, DoubleList, dl_new, dl_insert, dl_insert_tail, dl_delete, dl_move_to_tail,
}
use nvalloc.DoubleList.Ring.{
  has, IsDistinct, Segment, IsRing, has-end, dl_delete-IsRing, has_not-dl_delete,
}
use nvalloc.Slab

-- A new list has no nodes.
pub dl_new-IsRing : (n : DlNodes) (head : ℕ) → IsRing (dl_new n head).1 (dl_new n head).0 []
unfolding dl_new
dl_new-IsRing n head = record { ring = (ground arith, ground arith); apart = refl; distinct = tt }

has-append :
    (a : ℕ) (xs : List ℕ) (node : ℕ) → has a (node ∷ xs) ≡ false → has a (xs ++ node ∷ []) ≡ false
has-append a [] node out = out
has-append a (x ∷ xs) node out = ground (arith, has-append a xs node)

IsDistinct-append :
    (xs : List ℕ) (node : ℕ) → has node xs ≡ false → IsDistinct xs → IsDistinct (xs ++ node ∷ [])
IsDistinct-append [] node out is = (refl, tt)
IsDistinct-append (x ∷ xs) node out (apart, is) =
    (has-append x xs node (ground arith), IsDistinct-append xs node (ground arith) is)

-- the pointers with `node` between `a` and `z`
abbrev linked : DlNodes → ℕ → ℕ → ℕ → ℕ → DlNodes
linked n a node z d = record {
  data_at = update n.data_at node d;
  nxt = update (update n.nxt node z) a node;
  pre = update (update n.pre node a) z node;
}

dl_insert-linked :
    (n : DlNodes) (dl : DoubleList) (node d : ℕ)
    → (node == dl.head) ≡ false
    → dl_insert n dl node d ≡ linked n dl.head node (n.nxt dl.head) d
unfolding dl_insert
dl_insert-linked n dl node d ne =
    let here : update n.nxt node (n.nxt dl.head) dl.head ≡ n.nxt dl.head = rw ne refl in
    ap
      (λ q. record {
        data_at = update n.data_at node d;
        nxt = update (update n.nxt node (n.nxt dl.head)) dl.head node;
        pre = update (update n.pre node dl.head) q node;
      })
      here

dl_insert_tail-linked :
    (n : DlNodes) (dl : DoubleList) (node d : ℕ)
    → (node == dl.head) ≡ false
    → dl_insert_tail n dl node d ≡ linked n (n.pre dl.head) node dl.head d
unfolding dl_insert_tail
dl_insert_tail-linked n dl node d ne =
    let here : update n.pre node (n.pre dl.head) dl.head ≡ n.pre dl.head = rw ne refl in
    ap
      (λ q. record {
        data_at = update n.data_at node d;
        nxt = update (update n.nxt node dl.head) q node;
        pre = update (update n.pre node (n.pre dl.head)) dl.head node;
      })
      here

-- writes to `nxt` of two nodes outside, and to `pre` of two others
Segment-linked :
    (n : DlNodes) (a : ℕ) (xs : List ℕ) (z p node q d : ℕ)
    → has p (a ∷ xs) ≡ false
    → has q (z ∷ xs) ≡ false
    → has node (a ∷ z ∷ xs) ≡ false
    → Segment n a xs z
    → Segment (linked n p node q d) a xs z
Segment-linked n a [] z p node q d out out' fresh (f, b) = (ground arith, ground arith)
Segment-linked n a (x ∷ xs) z p node q d out out' fresh (f, b, s) = (
  ground arith,
  ground arith,
  Segment-linked n x xs z p node q d (ground arith) (ground arith) (ground arith) s,
)

Segment-dl_insert :
    (n : DlNodes) (h : ℕ) (xs : List ℕ) (node d : ℕ)
    → has h xs ≡ false
    → IsDistinct xs
    → has node (h ∷ xs) ≡ false
    → Segment n h xs h
    → Segment (linked n h node (n.nxt h) d) h (node ∷ xs) h
Segment-dl_insert n h [] node d out is fresh (f, b) =
    (ground arith, ground arith, (ground arith, ground arith))
Segment-dl_insert n h (x ∷ xs) node d out (apart, is) fresh (f, b, s) = (
  ground arith,
  ground arith,
  (
    ground arith,
    ground arith,
    Segment-linked n x xs h h node (n.nxt h) d out (ground arith) (ground arith) s,
  ),
)

-- A node in no use goes to the front.
pub dl_insert-IsRing :
    (n : DlNodes) (dl : DoubleList) (xs : List ℕ) (node d : ℕ)
    → IsRing n dl xs
    → has node (dl.head ∷ xs) ≡ false
    → IsRing (dl_insert n dl node d) dl (node ∷ xs)
dl_insert-IsRing n dl xs node d is fresh =
    rw (dl_insert-linked n dl node d (ground arith)) (record {
      ring = Segment-dl_insert n dl.head xs node d is.apart is.distinct fresh is.ring;
      apart = ground (arith, is.apart);
      distinct = (ground arith, is.distinct);
    })

Segment-dl_insert_tail :
    (n : DlNodes) (a : ℕ) (xs : List ℕ) (z node d : ℕ)
    → has a xs ≡ false
    → has z xs ≡ false
    → IsDistinct xs
    → has node (a ∷ z ∷ xs) ≡ false
    → Segment n a xs z
    → Segment (linked n (n.pre z) node z d) a (xs ++ node ∷ []) z
Segment-dl_insert_tail n a [] z node d out out' is fresh (f, b) =
    (ground arith, ground arith, (ground arith, ground arith))
Segment-dl_insert_tail n a (x ∷ xs) z node d out out' (apart, is) fresh (f, b, s) =
    let p = has-end n x xs z s in
    (
      ground (arith, p),
      ground arith,
      Segment-dl_insert_tail n x xs z node d apart (ground arith) is (ground arith) s,
    )

-- A node in no use goes to the tail.
pub dl_insert_tail-IsRing :
    (n : DlNodes) (dl : DoubleList) (xs : List ℕ) (node d : ℕ)
    → IsRing n dl xs
    → has node (dl.head ∷ xs) ≡ false
    → IsRing (dl_insert_tail n dl node d) dl (xs ++ node ∷ [])
dl_insert_tail-IsRing n dl xs node d is fresh =
    rw (dl_insert_tail-linked n dl node d (ground arith)) (record {
      ring =
          Segment-dl_insert_tail n dl.head xs dl.head node d is.apart is.apart is.distinct
            (ground arith) is.ring;
      apart = has-append dl.head xs node (ground (arith, is.apart));
      distinct = IsDistinct-append xs node (ground arith) is.distinct;
    })

-- Moving a node to the tail is deleting it and inserting it there with its data.
pub dl_move_to_tail-insert :
    (n : DlNodes) (dl : DoubleList) (node : ℕ)
    → dl_move_to_tail n dl node ≡ dl_insert_tail (dl_delete n node) dl node (n.data_at node)
unfolding dl_move_to_tail dl_insert_tail dl_delete
dl_move_to_tail-insert n dl node =
    let kept : n.data_at ≡ update n.data_at node (n.data_at node) = fun_ext λ j. ground arith in
    ap (λ f. record (dl_move_to_tail n dl node) { data_at = f }) kept

-- Moving a node to the tail takes it out of the sequence and puts it behind all others.
pub dl_move_to_tail-IsRing :
    (n : DlNodes) (dl : DoubleList) (xs : List ℕ) (node : ℕ)
    → IsRing n dl xs
    → has node xs ≡ true
    → IsRing (dl_move_to_tail n dl node) dl (Slab.dl_move_to_tail xs node)
unfolding Slab.dl_move_to_tail
dl_move_to_tail-IsRing n dl xs node is inside = rw (dl_move_to_tail-insert n dl node) (
    dl_insert_tail-IsRing (dl_delete n node) dl (Slab.dl_delete xs node) node (n.data_at node)
      (dl_delete-IsRing n dl xs node is inside)
      (has_not-dl_delete xs dl.head node is.apart is.distinct inside))
