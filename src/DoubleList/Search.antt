-- ===== src/DoubleList/Search.antt =====
-- `dl_search` finds the first node with the data, or the head.
use nvalloc.Prelude.{
  ℕ, zero, suc, ◌≤◌, ◌≡◌, ap, false, true, inl, inr, some, List, [], ◌∷◌, length, arith, ◌==◌,
  if◌then◌else◌, Bool-cases,
}
use nvalloc.DoubleList.{DlNodes, DoubleList, dl_search_from, dl_search}
use nvalloc.DoubleList.Ring.{has, Segment, IsRing}

-- the first of `xs` that holds `d`, or `head`
abbrev pub first_with : DlNodes → ℕ → List ℕ → ℕ → ℕ
first_with n d [] head = head
first_with n d (x ∷ xs) head = if n.data_at x == d then x else first_with n d xs head

dl_search_from-first_with :
    (n : DlNodes) (dl : DoubleList) (d a : ℕ) (xs : List ℕ) (fuel : ℕ)
    → suc (length xs) ≤ fuel
    → has dl.head xs ≡ false
    → Segment n a xs dl.head
    → dl_search_from fuel n dl (n.nxt a) d ≡ some (first_with n d xs dl.head)
unfolding dl_search_from
dl_search_from-first_with n dl d a xs zero enough out s = absurd (omega arith)
dl_search_from-first_with n dl d a [] (suc fuel) enough out (f, b) =
    let here : (n.nxt a == dl.head) ≡ true = ground arith in rw here (ap some f)
dl_search_from-first_with n dl d a (x ∷ xs) (suc fuel) enough out (f, b, s) =
    let here : (n.nxt a == dl.head) ≡ false = ground arith in
    let rest = dl_search_from-first_with n dl d x xs fuel (omega arith) (ground arith) s in
    let next : dl_search_from fuel n dl (n.nxt (n.nxt a)) d ≡ some (first_with n d xs dl.head) =
      rw f rest in
    rw here (elim (Bool-cases (n.data_at x == d)) [ inl e ↦ rw (f, e) | inr e ↦ rw (f, e) rest ])

-- With a round for each node and one for the head, the search returns the first node that holds the
-- data, and the head where none does.
pub dl_search-first_with :
    (n : DlNodes) (dl : DoubleList) (d : ℕ) (xs : List ℕ) (fuel : ℕ)
    → IsRing n dl xs
    → suc (length xs) ≤ fuel
    → dl_search fuel n dl d ≡ some (first_with n d xs dl.head)
unfolding dl_search
dl_search-first_with n dl d xs fuel is enough =
    dl_search_from-first_with n dl d dl.head xs fuel enough is.apart is.ring
