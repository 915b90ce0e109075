-- ===== src/DoubleList/Ring.antt =====
-- The ring as the sequence of its nodes, and what taking a node out does to it.
use nvalloc.Prelude.{
  update, ℕ, ◌≡◌, refl, ap, Bool, true, false, ◌||◌, inl, inr, List, [], ◌∷◌, arith, ◌==◌,
  Bool-cases,
}
use nvalloc.DoubleList.{DlNodes, DoubleList, dl_delete}
use nvalloc.Slab

abbrev pub has : ℕ → List ℕ → Bool
has a [] = false
has a (x ∷ xs) = (a == x) || has a xs

abbrev pub IsDistinct : List ℕ → Type 0
IsDistinct [] = Unit
IsDistinct (x ∷ xs) = (has x xs ≡ false) × IsDistinct xs

-- from `a` the nodes `xs` lead to `z`, and back
abbrev pub Segment : DlNodes → ℕ → List ℕ → ℕ → Type 0
Segment n a [] z = (n.nxt a ≡ z) × (n.pre z ≡ a)
Segment n a (x ∷ xs) z = (n.nxt a ≡ x) × (n.pre x ≡ a) × Segment n x xs z

-- a list whose nodes are `xs`, in their order
pub record IsRing (n : DlNodes) (dl : DoubleList) (xs : List ℕ) : Type 0 where
  pub ring : Segment n dl.head xs dl.head
  pub apart : has dl.head xs ≡ false
  pub distinct : IsDistinct xs

-- a write to `nxt` of a node outside, and one to `pre` of another
pub Segment-frame :
    (n : DlNodes) (a : ℕ) (xs : List ℕ) (z p u q v : ℕ)
    → has p (a ∷ xs) ≡ false
    → has q (z ∷ xs) ≡ false
    → Segment n a xs z
    → Segment (record n { nxt = update n.nxt p u; pre = update n.pre q v }) a xs z
Segment-frame n a [] z p u q v out out' (f, b) = (ground arith, ground arith)
Segment-frame n a (x ∷ xs) z p u q v out out' (f, b, s) =
    (ground arith, ground arith, Segment-frame n x xs z p u q v (ground arith) (ground arith) s)

-- Where the pointers of a node of a segment, and of its end, lead to.
pub has-end :
    (n : DlNodes) (a : ℕ) (xs : List ℕ) (z : ℕ) → Segment n a xs z → has (n.pre z) (a ∷ xs) ≡ true
has-end n a [] z (f, b) = ground arith
has-end n a (x ∷ xs) z (f, b, s) = ground (arith, has-end n x xs z s)

has-pre :
    (n : DlNodes) (a : ℕ) (xs : List ℕ) (z node : ℕ)
    → Segment n a xs z
    → has node xs ≡ true
    → has (n.pre node) (a ∷ xs) ≡ true
has-pre n a [] z node s inside = cc
has-pre n a (x ∷ xs) z node (f, b, s) inside = elim (Bool-cases (node == x)) [
  | inl e ↦ let same : node ≡ x = ground arith in rw same (ground arith)
  | inr e ↦ ground (arith, has-pre n x xs z node s (ground arith))
]

has-nxt :
    (n : DlNodes) (a : ℕ) (xs : List ℕ) (z node : ℕ)
    → Segment n a xs z
    → has node (a ∷ xs) ≡ true
    → has (n.nxt node) (z ∷ xs) ≡ true
has-nxt n a [] z node (f, b) inside = let same : node ≡ a = ground arith in rw same (ground arith)
has-nxt n a (x ∷ xs) z node (f, b, s) inside = elim (Bool-cases (node == a)) [
  | inl e ↦ let same : node ≡ a = ground arith in rw same (ground arith)
  | inr e ↦ ground (arith, has-nxt n x xs z node s (ground arith))
]

has-dl_delete :
    (a : ℕ) (xs : List ℕ) (node : ℕ) → has a xs ≡ false → has a (Slab.dl_delete xs node) ≡ false
unfolding Slab.dl_delete
has-dl_delete a [] node out = refl
has-dl_delete a (x ∷ xs) node out = ground (arith, has-dl_delete a xs node)

IsDistinct-dl_delete :
    (xs : List ℕ) (node : ℕ) → IsDistinct xs → IsDistinct (Slab.dl_delete xs node)
unfolding Slab.dl_delete
IsDistinct-dl_delete [] node is = tt
IsDistinct-dl_delete (x ∷ xs) node (out, is) = elim (Bool-cases (x == node)) [
  | inl e ↦ rw e is
  | inr e ↦ rw e (has-dl_delete x xs node out, IsDistinct-dl_delete xs node is)
]

-- the node in front of `node` is linked with the one behind
abbrev pub unlinked : DlNodes → ℕ → DlNodes
unlinked n node = record n {
  nxt = update n.nxt (n.pre node) (n.nxt node);
  pre = update n.pre (n.nxt node) (n.pre node);
}

-- the first node of a segment is taken out
Segment-tail :
    (n : DlNodes) (a x : ℕ) (xs : List ℕ) (z : ℕ)
    → has a (x ∷ xs) ≡ false
    → has z (x ∷ xs) ≡ false
    → IsDistinct (x ∷ xs)
    → Segment n a (x ∷ xs) z
    → Segment (unlinked n x) a xs z
Segment-tail n a x [] z out out' is (f, b, (f', b')) = (ground arith, ground arith)
Segment-tail n a x (y ∷ ys) z out out' (_, is) (f, b, (f', b', s)) = (
  ground arith,
  ground arith,
  Segment-frame n y ys z (n.pre x) (n.nxt x) (n.nxt x) (n.pre x) (ground arith) (ground arith) s,
)

Segment-dl_delete :
    (n : DlNodes) (a : ℕ) (xs : List ℕ) (z node : ℕ)
    → has a xs ≡ false
    → has z xs ≡ false
    → IsDistinct xs
    → has node xs ≡ true
    → Segment n a xs z
    → Segment (unlinked n node) a (Slab.dl_delete xs node) z
unfolding Slab.dl_delete
Segment-dl_delete n a [] z node out out' is inside s = cc
Segment-dl_delete n a (x ∷ xs) z node out out' (apart, is) inside (f, b, s) =
    elim (Bool-cases (x == node)) [
      | inl e ↦
          let same : x ≡ node = ground arith in
          rw e (rw (← same) (Segment-tail n a x xs z out out' (apart, is) (f, b, s)))
      | inr e ↦
          let further : has node xs ≡ true = ground arith in
          let p = has-pre n x xs z node s further in
          let q = has-nxt n x xs z node s (ground arith) in
          rw e (
            ground (arith, p),
            ground (arith, q),
            Segment-dl_delete n x xs z node apart (ground arith) is further s,
          )
    ]

pub dl_delete-unlinked : (n : DlNodes) (node : ℕ) → dl_delete n node ≡ unlinked n node
unfolding dl_delete
dl_delete-unlinked n node =
    let here : update n.nxt (n.pre node) (n.nxt node) node ≡ n.nxt node = ground arith in
    ap
      (λ q. record n {
        nxt = update n.nxt (n.pre node) (n.nxt node);
        pre = update n.pre q (n.pre node);
      })
      here

-- Deleting a node takes it out of the sequence, and leaves the others in their order.
pub dl_delete-IsRing :
    (n : DlNodes) (dl : DoubleList) (xs : List ℕ) (node : ℕ)
    → IsRing n dl xs
    → has node xs ≡ true
    → IsRing (dl_delete n node) dl (Slab.dl_delete xs node)
dl_delete-IsRing n dl xs node is inside = rw (dl_delete-unlinked n node) (record {
  ring = Segment-dl_delete n dl.head xs dl.head node is.apart is.apart is.distinct inside is.ring;
  apart = has-dl_delete dl.head xs node is.apart;
  distinct = IsDistinct-dl_delete xs node is.distinct;
})

-- a node that has been deleted is no longer there
pub has_not-dl_delete :
    (xs : List ℕ) (head node : ℕ)
    → has head xs ≡ false
    → IsDistinct xs
    → has node xs ≡ true
    → has node (head ∷ Slab.dl_delete xs node) ≡ false
unfolding Slab.dl_delete
has_not-dl_delete [] head node out is inside = cc
has_not-dl_delete (x ∷ xs) head node out (apart, is) inside = elim (Bool-cases (x == node)) [
  | inl e ↦ let same : x ≡ node = ground arith in rw (← same) (ground (arith, apart, out))
  | inr e ↦
      let rest = has_not-dl_delete xs head node (ground arith) is (ground arith) in
      rw e (ground (arith, rest))
]
