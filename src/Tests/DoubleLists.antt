-- ===== src/Tests/DoubleLists.antt =====
-- Runs of the doubly linked lists.
use nvalloc.Prelude.{ℕ, ◌≡◌, refl, some, List, [], ◌∷◌, arith, if◌then◌else◌, ◌==◌}
use nvalloc.DoubleList.{DlNodes, DoubleList, dl_search, dl_delete, dl_move_to_tail}
use nvalloc.DoubleList.Ring.{IsRing, dl_delete-IsRing}
use nvalloc.DoubleList.Ends.{dl_move_to_tail-IsRing}
use nvalloc.DoubleList.Search.{first_with, dl_search-first_with}
use nvalloc.Slab

-- the head 8 and two nodes, 16 with the data 5 and 24 with the data 6
abbrev nodes : DlNodes
nodes = record {
  data_at = λ a. if a == 16 then 5 else 6;
  pre = λ a. if a == 8 then 24 else if a == 16 then 8 else 16;
  nxt = λ a. if a == 8 then 16 else if a == 16 then 24 else 8;
}

abbrev dl : DoubleList
dl = record { head = 8 }

abbrev two : List ℕ
two = 16 ∷ 24 ∷ []

two-IsRing : IsRing nodes dl two
two-IsRing = record {
  ring = (refl, refl, (refl, refl, (refl, refl)));
  apart = refl;
  distinct = (refl, (refl, tt));
}

dl_delete-IsRing_example : IsRing (dl_delete nodes 16) dl (Slab.dl_delete two 16)
dl_delete-IsRing_example = dl_delete-IsRing nodes dl two 16 two-IsRing refl

dl_move_to_tail-IsRing_example :
    IsRing (dl_move_to_tail nodes dl 16) dl (Slab.dl_move_to_tail two 16)
dl_move_to_tail-IsRing_example = dl_move_to_tail-IsRing nodes dl two 16 two-IsRing refl

dl_search-first_with_example : dl_search 3 nodes dl 6 ≡ some (first_with nodes 6 two 8)
dl_search-first_with_example = dl_search-first_with nodes dl 6 two 3 two-IsRing (omega arith)
